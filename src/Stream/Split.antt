-- ===== src/Stream/Split.antt =====
-- stream.cpp: the blocks of a frame are the frame, and each fits the error correction.
use solari.Base.{
  ℕ, zero, suc, ◌+◌, ◌-◌, ◌*◌, ◌/◌, ◌≤◌, ◌<◌, ◌≡◌, refl, sym, ap, ◌∙◌, subst, List, [], ◌∷◌, ◌++◌,
  some, false, ◌⊎◌, inl, inr, arith, Bool-cases, ltb, ◌==◌, length, take, drop, flatten,
  length-take, length-drop, take-append-drop,
}
use mathlib.Core.List.{append-nil}
use native.Mathlib.Nat.{le-div_iff_mul-le, mul-le-mul_right, div-mul-le_self, lt-div-mul-add}
use solari.Stream.Blocks.{
  max_data_shards, fec_blocks_needed, aligned_size, substr_from, split_blocks,
}

-- Rounding up to a multiple.
round_up : (n s : ℕ) → 0 < s → (n ≤ (n + (s - 1)) / s * s) × ((n + (s - 1)) / s * s < n + s)
round_up n s pos =
    let below = div-mul-le_self (n + (s - 1)) s in
    let above = lt-div-mul-add {a = n + (s - 1)} {b = s} pos in
    (omega (arith, below, above), omega (arith, below, above))

max_data_shards_bounds : (percentage : ℕ) → percentage ≤ 255 → 71 ≤ max_data_shards percentage
unfolding max_data_shards
max_data_shards_bounds percentage h = (le-div_iff_mul-le (omega arith)).1 (omega arith)

-- Two multiples of the block size are the same or a block apart.
multiples : (w d s : ℕ) → (w * s + s ≤ d * s) ⊎ (w * s ≡ d * s) ⊎ (d * s + s ≤ w * s)
multiples w d s = elim (order w d) [
  | inl less ↦ inl (omega (arith, one_more w, mul-le-mul_right s less))
  | inr (inl same) ↦ inr (inl (ap (λ n. n * s) same))
  | inr (inr more) ↦ inr (inr (omega (arith, one_more d, mul-le-mul_right s more)))
]
  where
    one_more : (w : ℕ) → suc w * s ≡ w * s + s
    one_more w = grind arith

    order : (w d : ℕ) → (suc w ≤ d) ⊎ (w ≡ d) ⊎ (suc d ≤ w)
    order w d = ground arith

-- `aligned` is the size of all blocks but the last; `most` bytes may be in one where there is error correction.
pub record Plan (size most aligned needed : ℕ) : Type 0 where
  pub some_block : 0 < needed
  pub few : needed ≤ 4
  pub positive : 0 < aligned
  pub short : (needed - 1) * aligned < size
  pub others : size ≤ needed * most → aligned ≤ most
  pub last : size ≤ needed * most → size ≤ (needed - 1) * aligned + most

Plan-of :
    (size s most aligned needed : ℕ)
    → 0 < needed
    → needed ≤ 4
    → 4 ≤ s
    → 71 * s ≤ most
    → (needed - 1) * most < size
    → size / needed ≤ aligned
    → aligned < size / needed + s
    → (aligned + s ≤ most) ⊎ (aligned ≡ most) ⊎ (most + s ≤ aligned)
    → Plan size most aligned needed
Plan-of size s most aligned zero p f b m h l u a = absurd (omega arith)
Plan-of size s most aligned (suc zero) p f b m h l u a = record {
  some_block = omega arith;
  few = omega arith;
  positive = omega arith;
  short = omega arith;
  others = λ w. ground arith;
  last = λ w. omega arith;
}
Plan-of size s most aligned (suc (suc zero)) p f b m h l u a = record {
  some_block = omega arith;
  few = omega arith;
  positive = omega arith;
  short = omega arith;
  others = λ w. ground arith;
  last = λ w. ground arith;
}
Plan-of size s most aligned (suc (suc (suc zero))) p f b m h l u a = record {
  some_block = omega arith;
  few = omega arith;
  positive = omega arith;
  short = omega arith;
  others = λ w. ground arith;
  last = λ w. ground arith;
}
Plan-of size s most aligned (suc (suc (suc (suc zero)))) p f b m h l u a = record {
  some_block = omega arith;
  few = omega arith;
  positive = omega arith;
  short = omega arith;
  others = λ w. ground arith;
  last = λ w. ground arith;
}
Plan-of size s most aligned (suc (suc (suc (suc (suc k))))) p f b m h l u a = absurd (omega arith)

pred-mul : (k m : ℕ) → (k - 1) * m ≡ k * m - m
pred-mul zero m = omega arith
pred-mul (suc k) m =
    let next : suc k * m ≡ k * m + m = grind arith in
    let less : (suc k - 1) * m ≡ k * m = ap (λ t. t * m) (omega arith) in omega (arith, next, less)

-- How the percentage and the number of blocks are chosen.
record Chosen (size most percentage : ℕ) (plan : ℕ × ℕ) : Type 0 where
  some_block : 0 < plan.1
  few : plan.1 ≤ 4
  needed : (plan.1 - 1) * most < size
  same : (plan.0 ≡ 0) ⊎ ((plan.0 ≡ percentage) × (size ≤ plan.1 * most))

fec_blocks_needed-Chosen :
    (size s percentage : ℕ)
    → 0 < size
    → 0 < max_data_shards percentage * s
    → Chosen size (max_data_shards percentage * s) percentage (fec_blocks_needed size s percentage)
unfolding fec_blocks_needed
fec_blocks_needed-Chosen size s percentage some_byte pos =
    let most = max_data_shards percentage * s in
    let k = (size + (most - 1)) / most in
    let (above, below) = round_up size most pos in
    let before : (k - 1) * most ≡ k * most - most = pred-mul k most in
    elim (Bool-cases (ltb 4 k)) [
      | inl e ↦
          let plan : fec_blocks_needed size s percentage ≡ (0, 4) =
            rw (fec_blocks_needed, e) refl in
          let more : 5 * most ≤ k * most = mul-le-mul_right most (ground arith) in
          subst (Chosen size most percentage) (sym plan) record {
            some_block = omega arith;
            few = omega arith;
            needed = omega (arith, below, more);
            same = inl refl;
          }
      | inr e ↦
          let plan : fec_blocks_needed size s percentage ≡ (percentage, k) =
            rw (fec_blocks_needed, e) refl in
          subst (Chosen size most percentage) (sym plan) record {
            some_block = (le-div_iff_mul-le pos).1 (omega arith);
            few = ground arith;
            needed = omega (arith, below, before);
            same = inr (refl, above);
          }
    ]

-- All blocks but the last have `aligned` bytes.
abbrev pub Sized : ℕ → ℕ → List (List ℕ) → Type 0
Sized aligned last [] = ⊥
Sized aligned last (b ∷ []) = length b ≡ last
Sized aligned last (b ∷ (c ∷ blocks)) = (length b ≡ aligned) × Sized aligned last (c ∷ blocks)

pub record Split (payload : List ℕ) (aligned needed : ℕ) : Type 0 where
  pub blocks : List (List ℕ)
  pub done : split_blocks payload aligned 0 needed ≡ some blocks
  pub joined : flatten blocks ≡ payload
  pub count : length blocks ≡ needed
  pub sizes : Sized aligned (length payload - (needed - 1) * aligned) blocks

Sized-cons :
    (aligned last : ℕ) (b : List ℕ) (blocks : List (List ℕ))
    → length b ≡ aligned
    → Sized aligned last blocks
    → Sized aligned last (b ∷ blocks)
Sized-cons aligned last b [] e r = absurd r
Sized-cons aligned last b (c ∷ blocks) e r = (e, r)

drop-nil : (n : ℕ) → drop {A = ℕ} n [] ≡ []
drop-nil zero = refl
drop-nil (suc n) = refl

drop_add : (n m : ℕ) (xs : List ℕ) → drop m (drop n xs) ≡ drop (n + m) xs
drop_add zero m xs = ap (λ k. drop k xs) (omega arith)
drop_add (suc n) m [] = drop-nil m ∙ sym (drop-nil (suc n + m))
drop_add (suc n) m (x ∷ xs) =
    let sum : suc (n + m) ≡ suc n + m = omega arith in
    drop_add n m xs ∙ ap (λ k. drop k (x ∷ xs)) sum

record Rounds (payload : List ℕ) (aligned x left : ℕ) : Type 0 where
  blocks : List (List ℕ)
  done : split_blocks payload aligned x (suc left) ≡ some blocks
  joined : flatten blocks ≡ drop (x * aligned) payload
  count : length blocks ≡ suc left
  sizes : Sized aligned (length payload - (x + left) * aligned) blocks

split_blocks-Rounds :
    (payload : List ℕ) (aligned left x : ℕ)
    → (x + left) * aligned < length payload
    → Rounds payload aligned x left
unfolding split_blocks substr_from
split_blocks-Rounds payload a zero x h =
    let start : (x + 0) * a ≡ x * a = ap (λ k. k * a) (omega arith) in
    let there : ltb (length payload) (x * a) ≡ false = ground arith in
    record {
      blocks = drop (x * a) payload ∷ [];
      done = rw (there) refl;
      joined = append-nil (drop (x * a) payload);
      count = refl;
      sizes = length-drop (x * a) payload ∙ omega (arith, start);
    }
split_blocks-Rounds payload a (suc left) x h =
    let start : (x + suc left) * a ≡ (x + 1 + left) * a = ap (λ k. k * a) (omega arith) in
    let sum : (x + suc left) * a ≡ x * a + (left * a + a) = grind arith in
    let there : ltb (length payload) (x * a) ≡ false = ground arith in
    let busy : (suc left == 0) ≡ false = ground arith in
    let rest = drop (x * a) payload in
    let next : (x + 1) * a ≡ x * a + a = grind arith in
    let further : drop ((x + 1) * a) payload ≡ drop a rest =
      ap (λ k. drop k payload) next ∙ sym (drop_add (x * a) a payload) in
    let r = split_blocks-Rounds payload a left (x + 1) (omega (arith, start)) in
    record {
      blocks = take a (drop (x * a) payload) ∷ r.blocks;
      done = rw (there, busy, r.done) refl;
      joined = ap (λ t. take a rest ++ t) (r.joined ∙ further) ∙ take-append-drop a rest;
      count = ap suc r.count;
      sizes =
          Sized-cons a (length payload - (x + suc left) * a) (take a rest) r.blocks
            (length-take a rest (omega (arith, sum, length-drop (x * a) payload)))
            (subst (λ k. Sized a (length payload - k) r.blocks) (sym start) r.sizes);
    }

pub aligned_size-Plan :
    (payload : List ℕ) (blocksize percentage : ℕ)
    → 0 < length payload
    → 4 ≤ blocksize
    → percentage ≤ 255
    → let plan = fec_blocks_needed (length payload) blocksize percentage in
      let aligned = aligned_size (length payload) plan.1 blocksize in
      Plan (length payload) (max_data_shards percentage * blocksize) aligned plan.1
      × ((plan.0 ≡ 0)
          ⊎ ((plan.0 ≡ percentage)
              × (length payload ≤ plan.1 * (max_data_shards percentage * blocksize))))
      × Split payload aligned plan.1
unfolding aligned_size
aligned_size-Plan payload s percentage some_byte wide byte =
    let size = length payload in
    let d = max_data_shards percentage in
    let room : 71 * s ≤ d * s = mul-le-mul_right s (max_data_shards_bounds percentage byte) in
    let c = fec_blocks_needed-Chosen size s percentage some_byte (omega (arith, room)) in
    let k = (fec_blocks_needed size s percentage).1 in
    let aligned = aligned_size size k s in
    let (up, near) = round_up (size / k) s (omega arith) in
    let p =
      Plan-of size s (d * s) aligned k c.some_block c.few wide room c.needed up near
        (multiples ((size / k + (s - 1)) / s) d s) in
    let zero_start : (0 + (k - 1)) * aligned ≡ (k - 1) * aligned =
      ap (λ n. n * aligned) (omega arith) in
    let r = split_blocks-Rounds payload aligned (k - 1) 0 (omega (arith, zero_start, p.short)) in
    let none : 0 * aligned ≡ 0 = omega arith in
    let whole : suc (k - 1) ≡ k = omega (arith, c.some_block) in
    (
      p,
      c.same,
      record {
        blocks = r.blocks;
        done = subst (λ n. split_blocks payload aligned 0 n ≡ some r.blocks) whole r.done;
        joined = r.joined ∙ ap (λ n. drop n payload) none;
        count = r.count ∙ whole;
        sizes = subst (λ n. Sized aligned (length payload - n) r.blocks) zero_start r.sizes;
      },
    )
