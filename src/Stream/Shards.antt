-- ===== src/Stream/Shards.antt =====
-- stream.cpp: the shards that `fec::encode` makes hold the payload and are sent from contiguous buffers.
use solari.Base.{
  ℕ, zero, suc, ◌+◌, ◌-◌, ◌*◌, ◌/◌, ◌%◌, ◌≤◌, ◌<◌, ◌≡◌, refl, sym, ap, ◌∙◌, subst, List, [], ◌∷◌,
  ◌++◌, Option, none, some, inl, inr, arith, Bool-cases, Option-cases, ◌==◌, ==_iff, if◌then◌else◌,
  length, take, drop, replicate, flatten, length-append, take-append-drop, length-take, length-drop,
  take_all, take-append_length,
}
use mathlib.Core.Option.{some-injective}
use mathlib.Core.List.{append-nil, append_assoc}
use native.Mathlib.Nat.{div-add-mod', mod-lt}
use solari.Stream.{elements}
use solari.Stream.Fec.{
  ReedSolomon, FecT, point_into, padded, parity_shards, recovery, assemble, encode,
}

flatten-append : (xss yss : List (List ℕ)) → flatten (xss ++ yss) ≡ flatten xss ++ flatten yss
flatten-append [] yss = refl
flatten-append (xs ∷ xss) yss =
    ap (λ ys. xs ++ ys) (flatten-append xss yss) ∙ sym (append_assoc xs (flatten xss) (flatten yss))

point_into-flatten :
    (n s : ℕ) (xs : List ℕ) → flatten (point_into n s xs).0 ++ (point_into n s xs).1 ≡ xs
unfolding point_into
point_into-flatten zero s xs = refl
point_into-flatten (suc n) s xs =
    append_assoc (take s xs) _ _
    ∙ ap (λ ys. take s xs ++ ys) (point_into-flatten n s (drop s xs))
    ∙ take-append-drop s xs

point_into-length : (n s : ℕ) (xs : List ℕ) → length (point_into n s xs).0 ≡ n
unfolding point_into
point_into-length zero s xs = refl
point_into-length (suc n) s xs = ap suc (point_into-length n s (drop s xs))

-- The shards in the payload are whole.
point_into-whole :
    (n s : ℕ) (xs : List ℕ) → n * s ≤ length xs → length (flatten (point_into n s xs).0) ≡ n * s
unfolding point_into
point_into-whole zero s xs h = omega arith
point_into-whole (suc n) s xs h =
    let more : suc n * s ≡ s + n * s = grind arith in
    let left = length-drop s xs in
    let rest = point_into-whole n s (drop s xs) (omega (arith, more, left)) in
    length-append (take s xs) _ ∙ omega (arith, more, rest, length-take s xs (omega (arith, more)))

record Pieces (s : ℕ) (xs : List ℕ) (whole : List (List ℕ)) (next : List ℕ) : Type 0 where
  joined : flatten whole ++ next ≡ xs
  count : length whole ≡ length xs / s
  full : length (flatten whole) ≡ length xs / s * s
  rest : length next ≡ length xs % s

abbrev whole_shards : ℕ → List ℕ → List (List ℕ)
whole_shards s xs = (point_into (length xs / s) s xs).0

abbrev rest_of : ℕ → List ℕ → List ℕ
rest_of s xs = (point_into (length xs / s) s xs).1

point_into-Pieces : (s : ℕ) (xs : List ℕ) → Pieces s xs (whole_shards s xs) (rest_of s xs)
point_into-Pieces s xs =
    let n = length xs / s in
    let parts = div-add-mod' (length xs) s in
    let joined = point_into-flatten n s xs in
    let full = point_into-whole n s xs (omega (arith, parts)) in
    let sum =
      sym (length-append (flatten (point_into n s xs).0) (point_into n s xs).1)
      ∙ ap length joined in
    record {
      joined = joined;
      count = point_into-length n s xs;
      full = full;
      rest = omega (arith, sum, full, parts);
    }

abbrev last_shard : ℕ → ℕ → List ℕ → List (List ℕ)
last_shard size s next = if size % s == 0 then [] else padded s next ∷ []

record Originals (s : ℕ) (xs : List ℕ) (whole : List (List ℕ)) (next : List ℕ) : Type 0 where
  zeros : List ℕ
  bytes : flatten (whole ++ last_shard (length xs) s next) ≡ xs ++ zeros
  count : length (whole ++ last_shard (length xs) s next) ≡ elements (length xs) s
  none_added : length xs % s ≡ 0 → zeros ≡ []

length-zero : (ys : List ℕ) → length ys ≡ 0 → ys ≡ []
length-zero [] h = refl
length-zero (y ∷ ys) h = absurd (omega arith)

Originals-Pieces :
    (s : ℕ) (xs : List ℕ) (whole : List (List ℕ)) (next : List ℕ)
    → 0 < s
    → Pieces s xs whole next
    → Originals s xs whole next
unfolding padded elements
Originals-Pieces s xs whole next pos p =
    let size = length xs in
    elim (Bool-cases (size % s == 0)) [
      | inl e ↦
          let nil = length-zero next (p.rest ∙ (==_iff (size % s) 0).0 e) in
          let last : last_shard size s next ≡ [] =
            ap (λ b. if b then [] else padded s next ∷ []) e in
          let all = ap (λ l. whole ++ l) last ∙ append-nil whole in
          record {
            zeros = [];
            bytes =
                ap flatten all
                ∙ (sym (append-nil _) ∙ ap (λ t. flatten whole ++ t) (sym nil))
                ∙ p.joined
                ∙ sym (append-nil xs);
            count = ap length all ∙ p.count ∙ rw (elements, e) (omega arith);
            none_added = λ h. refl;
          }
      | inr e ↦
          let zeros = replicate (s - length next) 0 in
          let last : last_shard size s next ≡ padded s next ∷ [] =
            ap (λ b. if b then [] else padded s next ∷ []) e in
          let all = ap (λ l. whole ++ l) last in
          let short = take_all s next (omega (arith, p.rest, mod-lt size pos)) in
          let alone : flatten (padded s next ∷ []) ≡ next ++ zeros =
            append-nil (padded s next) ∙ ap (λ t. t ++ zeros) short in
          record {
            zeros = zeros;
            bytes =
                ap flatten all
                ∙ flatten-append whole (padded s next ∷ [])
                ∙ ap (λ t. flatten whole ++ t) alone
                ∙ sym (append_assoc (flatten whole) next zeros)
                ∙ ap (λ t. t ++ zeros) p.joined;
            count =
                ap length all
                ∙ length-append whole (padded s next ∷ [])
                ∙ ap (λ n. n + 1) p.count
                ∙ rw (elements, e) refl;
            none_added = λ h. absurd (ground arith);
          }
    ]

-- What every call that returns has.
record Encoded (rs : ReedSolomon) (payload : List ℕ) (s percentage least prefixsize : ℕ) (f : FecT)
    : Type 0 where
  counts : ℕ × ℕ
  counted : parity_shards (elements (length payload) s) percentage least ≡ counts
  added : List (List ℕ)
  recovered :
      recovery rs
        (elements (length payload) s)
        counts.0
        counts.1
        (whole_shards s payload ++ last_shard (length payload) s (rest_of s payload))
      ≡ some added
  result :
      f
      ≡ assemble
          (elements (length payload) s)
          s
          counts
          prefixsize
          (take (length payload / s * s) payload)
          (whole_shards s payload)
          (last_shard (length payload) s (rest_of s payload))
          added

encode-Encoded :
    (rs : ReedSolomon) (payload : List ℕ) (s percentage least prefixsize : ℕ) (f : FecT)
    → encode rs payload s percentage least prefixsize ≡ some f
    → Encoded rs payload s percentage least prefixsize f
unfolding encode
encode-Encoded rs payload s percentage least prefixsize f h =
    let n = elements (length payload) s in
    let counts = parity_shards n percentage least in
    let last = last_shard (length payload) s (rest_of s payload) in
    let aligned = take (length payload / s * s) payload in
    let added_to = λ (added : List (List ℕ)).
      assemble n s counts prefixsize aligned (whole_shards s payload) last added in
    let made = recovery rs n counts.0 counts.1 (whole_shards s payload ++ last) in
    let finish : Option (List (List ℕ)) → Option FecT =
      λ a. elim a [ none ↦ none | some added ↦ some (added_to added) ] in
    elim (Option-cases made) [
      | inl e ↦ let never = sym (ap finish e) ∙ h in absurd (cc)
      | inr (added, e) ↦ record {
        counts = counts;
        counted = refl;
        added = added;
        recovered = e;
        result = sym (some-injective _ _ (sym (ap finish e) ∙ h));
      }
    ]

-- The data shards of a block, joined.
abbrev pub carried : FecT → List ℕ
carried f = flatten (take f.data_shards f.shards_p)

pub record Carries (s : ℕ) (payload : List ℕ) (f : FecT) : Type 0 where
  pub zeros : List ℕ
  pub bytes : carried f ≡ payload ++ zeros
  pub none_added : length payload % s ≡ 0 → zeros ≡ []

pub encode-Carries :
    (rs : ReedSolomon) (payload : List ℕ) (s percentage least prefixsize : ℕ) (f : FecT)
    → 0 < s
    → encode rs payload s percentage least prefixsize ≡ some f
    → Carries s payload f
unfolding assemble
encode-Carries rs payload s percentage least prefixsize f pos h =
    let e = encode-Encoded rs payload s percentage least prefixsize f h in
    let whole = whole_shards s payload in
    let last = last_shard (length payload) s (rest_of s payload) in
    let o =
      Originals-Pieces s payload whole (rest_of s payload) pos (point_into-Pieces s payload) in
    let made =
      assemble (elements (length payload) s) s e.counts prefixsize
        (take (length payload / s * s) payload) whole last e.added in
    let parts = sym (append_assoc whole last e.added) in
    subst (Carries s payload) (sym e.result) record {
      zeros = o.zeros;
      bytes =
          ap (λ l. flatten (take (elements (length payload) s) l)) parts
          ∙ ap flatten
              (take-append_length (whole ++ last) e.added (elements (length payload) s) o.count)
          ∙ o.bytes;
      none_added = o.none_added;
    }

-- Error correction changes none of the picture's bytes: for a block size of one byte or more, whenever the
-- shards are made, the data shards begin with the payload, and the buffers that are sent as a batch hold the
-- bytes of all the shards, one after the other.
pub encode-shards :
    (rs : ReedSolomon) (payload : List ℕ) (blocksize percentage least prefixsize : ℕ) (f : FecT)
    → 0 < blocksize
    → encode rs payload blocksize percentage least prefixsize ≡ some f
    → (take (length payload) (carried f) ≡ payload)
      × (flatten f.payload_buffers ≡ flatten f.shards_p)
unfolding assemble
encode-shards rs payload s percentage least prefixsize f pos h =
    let e = encode-Encoded rs payload s percentage least prefixsize f h in
    let whole = whole_shards s payload in
    let last = last_shard (length payload) s (rest_of s payload) in
    let p = point_into-Pieces s payload in
    let c = encode-Carries rs payload s percentage least prefixsize f pos h in
    let made =
      assemble (elements (length payload) s) s e.counts prefixsize
        (take (length payload / s * s) payload) whole last e.added in
    let aligned : take (length payload / s * s) payload ≡ flatten whole =
      ap (take (length payload / s * s)) (sym p.joined)
      ∙ take-append_length (flatten whole) (rest_of s payload) (length payload / s * s) p.full in
    let sent : flatten made.payload_buffers ≡ flatten made.shards_p =
      ap (λ a. a ++ (flatten (last ++ e.added) ++ [])) aligned
      ∙ ap (λ b. flatten whole ++ b) (append-nil (flatten (last ++ e.added)))
      ∙ sym (flatten-append whole (last ++ e.added)) in
    (
      ap (take (length payload)) c.bytes ∙ take-append_length payload c.zeros (length payload) refl,
      subst (λ g. flatten g.payload_buffers ≡ flatten g.shards_p) (sym e.result) sent,
    )
