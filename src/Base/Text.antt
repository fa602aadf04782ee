-- ===== src/Base/Text.antt =====
-- Texts as lists of character codes: decimal numbers, white space, and equality.
use Prim.Native.Char.{code}
use Prim.Native.String.{String}
use Prim.Native.Nat.{ℕ, zero, suc, ◌+◌, ◌-◌, ◌*◌, ◌/◌, ◌%◌, ◌<◌}
use mathlib.Core.Path.{◌≡◌, refl, ap, ◌∙◌, sym, subst}
use mathlib.Core.Logic.{◌≢◌, inl, inr}
use mathlib.Core.List.{List, [], ◌∷◌, ◌++◌}
use mathlib.Core.Bool.{Bool, true, false, ◌&&◌}
use native.Mathlib.Omega.{arith}
use solari.Base.Logic.{ltb, leb, ◌==◌, if◌then◌else◌, Bool-cases, ==_iff, ==_refl}
use solari.Base.Lists.{All, length, drop}

abbrev pub Text : Type 0
Text = List ℕ

-- The codes of a literal.
abbrev pub codes : String → Text
codes String.[] = []
codes (String.◌∷◌ c s) = code c ∷ codes s

unfoldable pub same_text : Text → Text → Bool
same_text [] [] = true
same_text (x ∷ xs) (y ∷ ys) = x == y && same_text xs ys
same_text [] (y ∷ ys) = false
same_text (x ∷ xs) [] = false

pub same_text-eq : (xs ys : Text) → same_text xs ys ≡ true → xs ≡ ys
unfolding same_text
same_text-eq [] [] e = refl
same_text-eq [] (y ∷ ys) e = cc
same_text-eq (x ∷ xs) [] e = cc
same_text-eq (x ∷ xs) (y ∷ ys) e = ground (arith, same_text-eq xs ys, ==_iff x y)

pub same_text_refl : (xs : Text) → same_text xs xs ≡ true
unfolding same_text
same_text_refl [] = refl
same_text_refl (x ∷ xs) = ground (arith, same_text_refl xs)

abbrev pub is_digit : ℕ → Bool
is_digit c = leb 48 c && leb c 57

abbrev pub IsDigits : Text → Type 0
IsDigits t = All (λ c. is_digit c ≡ true) t

-- The digits of `n` before those of `rest`, for a fuel above `n`.
unfoldable pub decimal_onto : ℕ → ℕ → Text → Text
decimal_onto zero n rest = rest
decimal_onto (suc f) n rest =
    let more = decimal_onto f (n / 10) ((48 + n % 10) ∷ rest) in
    if ltb n 10 then (48 + n) ∷ rest else more

-- `std::to_string` of a number that is not negative.
unfoldable pub decimal : ℕ → Text
decimal n = decimal_onto (suc n) n []

-- The value of digits that follow digits of value `acc`.
unfoldable pub value_onto : ℕ → Text → ℕ
value_onto acc [] = acc
value_onto acc (c ∷ t) = value_onto (acc * 10 + (c - 48)) t

abbrev pub value : Text → ℕ
value t = value_onto 0 t

-- Read after digits of value 0, what `decimal_onto` writes has the value of `n` before `rest`.
value-decimal_onto :
    (f n : ℕ) (rest : Text) → n < f → value_onto 0 (decimal_onto f n rest) ≡ value_onto n rest
unfolding decimal_onto value_onto
value-decimal_onto zero n rest h = absurd (omega arith)
value-decimal_onto (suc f) n rest h = elim (Bool-cases (ltb n 10)) [
  | inl small ↦ rw small (ap (λ k. value_onto k rest) (omega arith))
  | inr large ↦ rw large (
      value-decimal_onto f (n / 10) ((48 + n % 10) ∷ rest) (ground arith)
      ∙ ap (λ k. value_onto k rest) (omega arith))
]

pub value-decimal : (n : ℕ) → value (decimal n) ≡ n
unfolding decimal value_onto
value-decimal n = value-decimal_onto (suc n) n [] (omega arith)

decimal_onto-IsDigits :
    (f n : ℕ) (rest : Text) → n < f → IsDigits rest → IsDigits (decimal_onto f n rest)
unfolding decimal_onto
decimal_onto-IsDigits zero n rest h d = d
decimal_onto-IsDigits (suc f) n rest h d = elim (Bool-cases (ltb n 10)) [
  | inl small ↦ rw small (ground arith, d)
  | inr large ↦
      rw large
        (decimal_onto-IsDigits f (n / 10) ((48 + n % 10) ∷ rest) (ground arith) (ground arith, d))
]

pub decimal-IsDigits : (n : ℕ) → IsDigits (decimal n)
unfolding decimal
decimal-IsDigits n = decimal_onto-IsDigits (suc n) n [] (omega arith) tt

decimal_onto-ne_nil : (f n : ℕ) (rest : Text) → n < f → decimal_onto f n rest ≢ []
unfolding decimal_onto
decimal_onto-ne_nil zero n rest h e = omega arith
decimal_onto-ne_nil (suc f) n rest h e =
    ground (arith, decimal_onto-ne_nil f (n / 10) ((48 + n % 10) ∷ rest))

pub decimal-ne_nil : (n : ℕ) → decimal n ≢ []
unfolding decimal
decimal-ne_nil n = decimal_onto-ne_nil (suc n) n [] (omega arith)

pub decimal-inj : (m n : ℕ) → decimal m ≡ decimal n → m ≡ n
decimal-inj m n e = sym (value-decimal m) ∙ ap value e ∙ value-decimal n

-- Whether one text begins with another.
unfoldable pub has_prefix : Text → Text → Bool
has_prefix [] t = true
has_prefix (a ∷ pre) [] = false
has_prefix (a ∷ pre) (b ∷ t) = (a == b) && has_prefix pre t

pub both-true : (p q : Bool) → (p && q) ≡ true → (p ≡ true) × (q ≡ true)
both-true p q h = ground arith

pub has_prefix-append : (old c : List ℕ) → has_prefix old (old ++ c) ≡ true
unfolding has_prefix
has_prefix-append [] c = refl
has_prefix-append (x ∷ old) c = rw (==_refl x) (has_prefix-append old c)

pub has_prefix-drop : (old r : List ℕ) → has_prefix old r ≡ true → old ++ drop (length old) r ≡ r
unfolding has_prefix
has_prefix-drop [] r h = refl
has_prefix-drop (x ∷ old) [] h = absurd (cc)
has_prefix-drop (x ∷ old) (y ∷ r) h =
    let (same, later) = both-true (x == y) (has_prefix old r) h in
    ap (λ t. t ∷ (old ++ drop (length old) r)) ((==_iff x y).0 same)
    ∙ ap (λ t. y ∷ t) (has_prefix-drop old r later)

pub same_text_sym : (n m : Text) → same_text n m ≡ false → same_text m n ≡ false
same_text_sym n m h = elim (Bool-cases (same_text m n)) [
  | inl e ↦
      let same : same_text n m ≡ true =
        subst (λ t. same_text n t ≡ true) (sym (same_text-eq m n e)) (same_text_refl n) in
      absurd (cc)
  | inr e ↦ e
]
