-- ===== src/Stream/Frame.antt =====
-- stream.cpp: a whole frame is split, coded, and carried by its data shards.
use solari.Base.{
  ℕ, ◌+◌, ◌-◌, ◌*◌, ◌/◌, ◌%◌, ◌≤◌, ◌<◌, ◌≡◌, refl, sym, ap, ◌∙◌, subst, List, [], ◌∷◌, ◌++◌, some,
  map, ◌>>=◌, ◌⊎◌, inl, inr, arith, Bool-cases, ◌==◌, length, take, flatten, take-append_length,
}
use mathlib.Core.List.{append-nil, append_assoc}
use native.Mathlib.Nat.{
  div-add-mod', mul-le-mul_right, div-mul-le_self, mul-mod_left, le_of_mul-le-mul_right,
  lt_of_mul-lt-mul_right,
}
use solari.Stream.{elements}
use solari.Stream.Fec.{ReedSolomon, FecT, encode}
use solari.Stream.Shards.{carried, Carries, encode-Carries}
use solari.Stream.Parity.{Able, Announced, encode-fits, encode-unprotected}
use solari.Stream.Blocks.{
  max_data_shards, fec_blocks_needed, aligned_size, encode_blocks, encode_frame,
}
use solari.Stream.Split.{Sized, aligned_size-Plan}

-- A block of at most `n` shards' bytes takes at most `n` shards.
elements_le : (size s n : ℕ) → 0 < s → size ≤ n * s → elements size s ≤ n
unfolding elements
elements_le size s n pos h =
    let parts = div-add-mod' size s in
    let q = size / s in
    elim (Bool-cases (size % s == 0)) [
      | inl e ↦
          let none : size % s ≡ 0 = ground arith in
          let less : q ≤ n = le_of_mul-le-mul_right (omega (arith, parts, none)) pos in
          rw (elements, e) (omega arith)
      | inr e ↦
          let some_left : 0 < size % s = ground arith in
          let less : q < n = lt_of_mul-lt-mul_right s (omega (arith, parts, some_left)) in
          rw (elements, e) (omega arith)
    ]

elements-pos : (size s : ℕ) → 0 < size → 0 < elements size s
unfolding elements
elements-pos size s h =
    let parts = div-add-mod' size s in
    elim (Bool-cases (size % s == 0)) [
      | inl e ↦
          let none : size % s ≡ 0 = ground arith in
          let more : 0 < size / s = lt_of_mul-lt-mul_right s (omega (arith, parts, none)) in
          rw (elements, e) (omega arith)
      | inr e ↦ rw (elements, e) (omega arith)
    ]

-- A block can be coded: there is no error correction, or the block is not larger than its limit.
abbrev Codable : ℕ → ℕ → ℕ → Type 0
Codable s percentage size =
    (percentage ≡ 0) ⊎ ((0 < percentage) × (size ≤ max_data_shards percentage * s))

-- What is made of a block.
pub record Coded (s percentage : ℕ) (block : List ℕ) (f : FecT) : Type 0 where
  pub announced : (f.nr_shards ≡ f.data_shards) ⊎ Announced percentage (elements (length block) s) f
  pub carries : Carries s block f

block-Coded :
    (rs : ReedSolomon) (block : List ℕ) (s percentage least prefixsize : ℕ)
    → Able rs
    → 0 < s
    → 0 < length block
    → percentage ≤ 255
    → least ≤ 2
    → Codable s percentage (length block)
    → (f : FecT) × (encode rs block s percentage least prefixsize ≡ some f)
      × Coded s percentage block f
unfolding max_data_shards
block-Coded rs block s percentage least prefixsize able pos some_byte byte small (inl off) =
    let (f, made, same) = encode-unprotected rs block s least prefixsize in
    let done = subst (λ p. encode rs block s p least prefixsize ≡ some f) (sym off) made in
    (
      f,
      done,
      record {
        announced = inl same;
        carries = encode-Carries rs block s percentage least prefixsize f pos done;
      },
    )
block-Coded rs block s percentage least prefixsize able pos some_byte byte small (inr (on, room)) =
    let n = elements (length block) s in
    let few = elements_le (length block) s (max_data_shards percentage) pos room in
    let fits : n * (100 + percentage) ≤ 25500 =
      omega (
        arith,
        mul-le-mul_right (100 + percentage) few,
        div-mul-le_self 25500 (100 + percentage),
      ) in
    let (f, done, a) =
      encode-fits rs block s percentage least prefixsize able
        (elements-pos (length block) s some_byte) on byte small fits in
    (
      f,
      done,
      record {
        announced = inr a;
        carries = encode-Carries rs block s percentage least prefixsize f pos done;
      },
    )

-- The blocks' shards, block by block.
pub data CodedAll (s percentage : ℕ) : List (List ℕ) → List FecT → Type 0 where
  no_block : CodedAll s percentage [] []
  more :
      (block : List ℕ) (f : FecT) (blocks : List (List ℕ)) (fs : List FecT)
      → Coded s percentage block f
      → CodedAll s percentage blocks fs
      → CodedAll s percentage (block ∷ blocks) (f ∷ fs)

record Made (rs : ReedSolomon) (s percentage least prefixsize : ℕ) (blocks : List (List ℕ))
    : Type 0 where
  fs : List FecT
  done : encode_blocks rs s percentage least prefixsize blocks ≡ some fs
  zeros : List ℕ
  bytes : flatten (map carried fs) ≡ flatten blocks ++ zeros
  coded : CodedAll s percentage blocks fs

encode_blocks-Made :
    (rs : ReedSolomon) (s percentage least prefixsize aligned last : ℕ) (blocks : List (List ℕ))
    → Able rs
    → 0 < s
    → percentage ≤ 255
    → least ≤ 2
    → 0 < aligned
    → aligned % s ≡ 0
    → Codable s percentage aligned
    → 0 < last
    → Codable s percentage last
    → Sized aligned last blocks
    → Made rs s percentage least prefixsize blocks
unfolding encode_blocks
encode_blocks-Made rs s p m x a l [] able pos byte small some_a whole ok_a some_l ok_l sized =
    absurd sized
encode_blocks-Made rs s p m x a l (b ∷ []) able pos byte small some_a whole ok_a some_l ok_l sized =
    let ok : Codable s p (length b) = subst (Codable s p) (sym sized) ok_l in
    let (f, done, c) = block-Coded rs b s p m x able pos (omega arith) byte small ok in
    record {
      fs = f ∷ [];
      done = rw (done) refl;
      zeros = c.carries.zeros;
      bytes =
          append-nil (carried f)
          ∙ c.carries.bytes
          ∙ ap (λ t. t ++ c.carries.zeros) (sym (append-nil b));
      coded = more b f [] [] c no_block;
    }
encode_blocks-Made rs s p m x a l (b ∷ (c ∷ blocks)) able pos byte small some_a whole ok_a some_l
      ok_l (size, sized) =
    let ok : Codable s p (length b) = subst (Codable s p) (sym size) ok_a in
    let (f, done, k) = block-Coded rs b s p m x able pos (omega arith) byte small ok in
    let r =
      encode_blocks-Made rs s p m x a l (c ∷ blocks) able pos byte small some_a whole ok_a some_l
        ok_l sized in
    let exact =
      k.carries.bytes
      ∙ ap (λ z. b ++ z) (k.carries.none_added (ap (λ n. n % s) size ∙ whole))
      ∙ append-nil b in
    record {
      fs = f ∷ r.fs;
      done = rw (done) (ap (λ o. o >>= (λ rest. some (f ∷ rest))) r.done);
      zeros = r.zeros;
      bytes =
          ap (λ t. t ++ flatten (map carried r.fs)) exact
          ∙ ap (λ t. b ++ t) r.bytes
          ∙ sym (append_assoc b (flatten (c ∷ blocks)) r.zeros);
      coded = more b f (c ∷ blocks) r.fs k r.coded;
    }

pub record Carried (rs : ReedSolomon) (payload : List ℕ) (s percentage least prefixsize : ℕ)
    : Type 0 where
  pub blocks : List (List ℕ)
  pub fs : List FecT
  pub done : encode_frame rs payload s percentage least prefixsize ≡ some fs
  pub blocks_joined : flatten blocks ≡ payload
  pub count : (0 < length blocks) × (length blocks ≤ 4)
  pub bytes : take (length payload) (flatten (map carried fs)) ≡ payload
  pub coded : CodedAll s (fec_blocks_needed (length payload) s percentage).0 blocks fs

-- A frame is always coded, and nothing of it is lost: for a frame that is not empty, shards of four bytes or
-- more, a percentage from 1 to 255, at most two parity shards required, and a Reed-Solomon library that can code
-- up to 255 shards, splitting and coding succeed, with one to four blocks that joined are the frame. The data
-- shards of all blocks, joined, begin with the frame. Every block's shards carry the block; they are either
-- data shards only, or at most 255, and described by the percentage that is announced.
pub encode_frame-Carried :
    (rs : ReedSolomon) (payload : List ℕ) (blocksize percentage least prefixsize : ℕ)
    → Able rs
    → 0 < length payload
    → 4 ≤ blocksize
    → 0 < percentage
    → percentage ≤ 255
    → least ≤ 2
    → Carried rs payload blocksize percentage least prefixsize
unfolding encode_frame aligned_size
encode_frame-Carried rs payload s percentage least prefixsize able some_byte wide on byte small =
    let size = length payload in
    let plan = fec_blocks_needed size s percentage in
    let aligned = aligned_size size plan.1 s in
    let last = size - (plan.1 - 1) * aligned in
    let (p, same, split) = aligned_size-Plan payload s percentage some_byte wide byte in
    let whole : aligned % s ≡ 0 = mul-mod_left ((size / plan.1 + (s - 1)) / s) s in
    let fit : (n : ℕ)
        → (size ≤ plan.1 * (max_data_shards percentage * s) → n ≤ max_data_shards percentage * s)
        → Codable s plan.0 n =
      λ n h. elim same [
        | inl off ↦ inl off
        | inr (kept, room) ↦
            inr (omega (arith, kept), subst (λ q. n ≤ max_data_shards q * s) (sym kept) (h room))
      ] in
    let no_more : plan.0 ≤ 255 = elim same [
      | inl off ↦ omega arith
      | inr (kept, room) ↦ omega arith
    ] in
    let made =
      encode_blocks-Made rs s plan.0 least prefixsize aligned last split.blocks able (omega arith)
        no_more small p.positive whole (fit aligned p.others) (omega (arith, p.short))
        (fit last (λ room. omega (arith, p.last room))) split.sizes in
    record {
      blocks = split.blocks;
      fs = made.fs;
      done =
          ap (λ o. o >>= (λ blocks. encode_blocks rs s plan.0 least prefixsize blocks)) split.done
          ∙ made.done;
      blocks_joined = split.joined;
      count = (omega (arith, split.count, p.some_block), omega (arith, split.count, p.few));
      bytes =
          ap (take size) (made.bytes ∙ ap (λ t. t ++ made.zeros) split.joined)
          ∙ take-append_length payload made.zeros size refl;
      coded = made.coded;
    }
