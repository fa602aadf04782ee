-- ===== src/Stream/Insert.antt =====
-- stream.cpp: `concat_and_insert` keeps the bytes of both buffers, in their order.
use solari.Base.{
  ℕ, zero, suc, ◌+◌, ◌-◌, ◌*◌, ◌/◌, ◌%◌, ◌≤◌, ◌<◌, ◌≡◌, refl, sym, ap, ◌∙◌, subst, List, [], ◌∷◌,
  ◌++◌, false, arith, ◌⊎◌, inl, inr, Bool-cases, ltb, ◌==◌, if◌then◌else◌, length, take, drop,
  replicate, length-append, take-append-drop, length-take, length-drop, length-replicate, take_all,
  take-append_length, drop-append_length, take-append_le, drop-append_le, take-append_ge,
  drop-append_ge,
}
use mathlib.Core.List.{append-nil}
use native.Mathlib.Nat.{div-add-mod', mod-lt}
use solari.Stream.{take_slice, insert_rounds, elements, concat_and_insert}

-- The bytes of `rounds` slices, without what was inserted before each.
abbrev pub remove_inserted : ℕ → ℕ → ℕ → List ℕ → List ℕ
remove_inserted insert_size slice_size zero xs = []
remove_inserted insert_size slice_size (suc left) xs =
    let rest = drop insert_size xs in
    take slice_size rest ++ remove_inserted insert_size slice_size left (drop slice_size rest)

-- `size` bytes are `rounds` slices, full but for the last.
abbrev Fits : ℕ → ℕ → ℕ → Type 0
Fits zero slice_size size = size ≡ 0
Fits (suc zero) slice_size size = size ≤ slice_size
Fits (suc (suc left)) slice_size size =
    (slice_size ≤ size) × Fits (suc left) slice_size (size - slice_size)

-- The slices of one buffer, each after what is inserted.
abbrev sliced : ℕ → ℕ → ℕ → List ℕ → List ℕ
sliced insert_size slice_size zero xs = []
sliced insert_size slice_size (suc zero) xs = replicate insert_size 0 ++ (xs ++ [])
sliced insert_size slice_size (suc (suc left)) xs =
    replicate insert_size 0
    ++ (take slice_size xs ++ sliced insert_size slice_size (suc left) (drop slice_size xs))

remove_inserted-sliced :
    (i s rounds : ℕ) (xs : List ℕ)
    → Fits rounds s (length xs)
    → remove_inserted i s rounds (sliced i s rounds xs) ≡ xs
remove_inserted-sliced i s zero [] f = refl
remove_inserted-sliced i s zero (x ∷ xs) f = absurd (omega arith)
remove_inserted-sliced i s (suc zero) xs f =
    let clean = drop-append_length (replicate i 0) (xs ++ []) i (length-replicate i 0) in
    ap (λ ys. take s ys ++ []) (clean ∙ append-nil xs) ∙ append-nil (take s xs) ∙ take_all s xs f
remove_inserted-sliced i s (suc (suc left)) xs (f, more) =
    let slice = take s xs in
    let others = sliced i s (suc left) (drop s xs) in
    let clean = drop-append_length (replicate i 0) (slice ++ others) i (length-replicate i 0) in
    let size = length-take s xs f in
    let shorter = subst (Fits (suc left) s) (sym (length-drop s xs)) more in
    ap (λ ys. take s ys ++ remove_inserted i s (suc left) (drop s ys)) clean
    ∙ ap (λ ys. ys ++ remove_inserted i s (suc left) (drop s (slice ++ others)))
        (take-append_length slice others s size)
    ∙ ap (λ ys. slice ++ remove_inserted i s (suc left) ys) (drop-append_length slice others s size)
    ∙ ap (λ ys. slice ++ ys) (remove_inserted-sliced i s (suc left) (drop s xs) shorter)
    ∙ take-append-drop s xs

-- The second buffer is still to come, or it is being read and does not run out.
abbrev Later : List ℕ → ℕ → List ℕ → List ℕ → Type 0
Later second n current later = (later ≡ second) ⊎ ((later ≡ []) × (n ≤ length current))

record Taken (n : ℕ) (second current later : List ℕ) : Type 0 where
  slice : (take_slice n second current).0 ≡ take n (current ++ later)
  later' : List ℕ
  after : (take_slice n second current).1 ++ later' ≡ drop n (current ++ later)
  still : (later' ≡ second) ⊎ (later' ≡ [])

take_slice-Taken :
    (n : ℕ) (second current later : List ℕ)
    → Later second n current later
    → Taken n second current later
unfolding take_slice
take_slice-Taken n second current later l = elim (Bool-cases (ltb (length current) n)) [
  | inl e ↦ elim l [
    | inl same ↦ record {
      slice =
          rw (take_slice, e)
            (ap (λ t. current ++ take (n - length current) t) (sym same)
              ∙ sym (take-append_ge n current later (ground arith)));
      later' = [];
      after =
          rw (take_slice, e)
            (append-nil (drop (n - length current) second)
              ∙ ap (λ t. drop (n - length current) t) (sym same)
              ∙ sym (drop-append_ge n current later (ground arith)));
      still = inr refl;
    }
    | inr (nil, short) ↦ absurd (ground arith)
  ]
  | inr e ↦ record {
    slice = rw (take_slice, e) (sym (take-append_le n current later (ground arith)));
    later' = later;
    after = rw (take_slice, e) (sym (drop-append_le n current later (ground arith)));
    still = elim l [ inl same ↦ inl same | inr (nil, short) ↦ inr nil ];
  }
]

-- Where the second buffer has been started, the first is used up.
Later-short :
    (n : ℕ) (second current later : List ℕ)
    → (later ≡ second) ⊎ (later ≡ [])
    → n ≤ length (current ++ later)
    → Later second n current later
Later-short n second current later (inl same) h = inl same
Later-short n second current later (inr nil) h =
    let size : length (current ++ later) ≡ length current =
      ap (λ t. length (current ++ t)) nil ∙ ap length (append-nil current) in
    inr (nil, omega arith)

-- The loop cuts what is left of both buffers.
insert_rounds-sliced :
    (i s size : ℕ) (second : List ℕ) (rounds x : ℕ) (current later : List ℕ)
    → Fits rounds s (length (current ++ later))
    → x * s + length (current ++ later) ≡ size
    → (later ≡ second) ⊎ (later ≡ [])
    → insert_rounds i s size second rounds x current ≡ sliced i s rounds (current ++ later)
unfolding insert_rounds
insert_rounds-sliced i s size second zero x current later f e l = refl
insert_rounds-sliced i s size second (suc zero) x current later f e l =
    let ys = current ++ later in
    let n = size - x * s in
    let whole : n ≡ length ys = omega arith in
    let t =
      take_slice-Taken n second current later
        (Later-short n second current later l (omega arith)) in
    ap (λ zs. replicate i 0 ++ (zs ++ [])) (t.slice ∙ take_all n ys (omega arith))
insert_rounds-sliced i s size second (suc (suc left)) x current later (f, more) e l =
    let ys = current ++ later in
    let busy : (suc left == 0) ≡ false = ground arith in
    let t = take_slice-Taken s second current later (Later-short s second current later l f) in
    let rest = (take_slice s second current).1 in
    let left_size = ap length t.after ∙ length-drop s ys in
    let round : (x + 1) * s ≡ x * s + s = grind arith in
    let others =
      insert_rounds-sliced i s size second (suc left) (x + 1) rest t.later'
        (subst (Fits (suc left) s) (sym left_size) more) (omega (arith, left_size, round))
        t.still in
    rw (insert_rounds, busy)
      (ap (λ zs. replicate i 0 ++ (zs ++ insert_rounds i s size second (suc left) (x + 1) rest))
          t.slice
        ∙ ap (λ zs. replicate i 0 ++ (take s ys ++ zs))
            (others ∙ ap (λ zs. sliced i s (suc left) zs) t.after))

Fits-mul : (q s : ℕ) → Fits q s (q * s)
Fits-mul zero s = omega arith
Fits-mul (suc zero) s = omega arith
Fits-mul (suc (suc q)) s =
    let more : suc (suc q) * s ≡ s + suc q * s = grind arith in
    let left : suc (suc q) * s - s ≡ suc q * s = omega (arith, more) in
    (omega (arith, more), subst (Fits (suc q) s) (sym left) (Fits-mul (suc q) s))

-- A last slice that is not full.
Fits-suc : (q r s : ℕ) → r ≤ s → Fits (suc q) s (q * s + r)
Fits-suc zero r s h = omega arith
Fits-suc (suc q) r s h =
    let more : suc q * s + r ≡ s + (q * s + r) = grind arith in
    let left : suc q * s + r - s ≡ q * s + r = omega (arith, more) in
    (omega (arith, more), subst (Fits (suc q) s) (sym left) (Fits-suc q r s h))

Fits-elements : (size s : ℕ) → 0 < s → Fits (elements size s) s size
unfolding elements
Fits-elements size s pos =
    let q = size / s in
    let r = size % s in
    let parts : size ≡ q * s + r = sym (div-add-mod' size s) in
    elim (Bool-cases (r == 0)) [
      | inl e ↦
          let none : r ≡ 0 = ground arith in
          let count : elements size s ≡ q = ap (λ b. q + (if b then 0 else 1)) e ∙ omega arith in
          let even : q * s ≡ size = omega (arith, parts, none) in
          subst (λ k. Fits k s size) (sym count) (subst (Fits q s) even (Fits-mul q s))
      | inr e ↦
          let count : elements size s ≡ suc q =
            ap (λ b. q + (if b then 0 else 1)) e ∙ omega arith in
          let whole = Fits-suc q r s (omega (arith, mod-lt size pos)) in
          subst (λ k. Fits k s size) (sym count) (subst (Fits (suc q) s) (sym parts) whole)
    ]

-- Putting headers between two buffers loses nothing: for slices of one byte or more, the result without
-- what was inserted before each slice is the first buffer followed by the second.
pub remove_inserted-concat_and_insert :
    (insert_size slice_size : ℕ) (first second : List ℕ)
    → 0 < slice_size
    → remove_inserted insert_size slice_size
        (elements (length first + length second) slice_size)
        (concat_and_insert insert_size slice_size first second)
      ≡ first ++ second
unfolding concat_and_insert
remove_inserted-concat_and_insert i s first second pos =
    let size = length first + length second in
    let whole : length (first ++ second) ≡ size = length-append first second in
    let fits : Fits (elements size s) s (length (first ++ second)) =
      subst (Fits (elements size s) s) (sym whole) (Fits-elements size s pos) in
    ap (remove_inserted i s (elements size s)) (
      insert_rounds-sliced i s size second (elements size s) 0 first second fits
        (omega (arith, whole)) (inl refl))
    ∙ remove_inserted-sliced i s (elements size s) (first ++ second) fits
