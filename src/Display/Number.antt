-- ===== src/Display/Number.antt =====
-- display_device.cpp: the digits that the patterns of a resolution and of a refresh rate find.
use solari.Base.{
  ℕ, ◌+◌, ◌-◌, ◌*◌, ◌^◌, ◌≡◌, refl, sym, ap, ◌∙◌, [], ◌∷◌, ◌++◌, true, false, arith, All, length,
  Bool-cases, inl, inr,
}
use native.Mathlib.Nat.{mul_assoc, pow-succ'}
use mathlib.Core.List.{append-nil}
use solari.Base.Text.{Text, is_digit, IsDigits, value_onto}
use solari.Display.Parse.{span_digits, is_zero}

pub value_onto-append :
    (acc : ℕ) (xs ys : Text) → value_onto acc (xs ++ ys) ≡ value_onto (value_onto acc xs) ys
unfolding value_onto
value_onto-append acc [] ys = refl
value_onto-append acc (x ∷ xs) ys = value_onto-append (acc * 10 + (x - 48)) xs ys

abbrev pub AllZeros : Text → Type 0
AllZeros t = All (λ c. is_zero c ≡ true) t

pub value_onto-AllZeros :
    (acc : ℕ) (zs : Text) → AllZeros zs → value_onto acc zs ≡ acc * 10 ^ length zs
unfolding value_onto
value_onto-AllZeros acc [] h = omega arith
value_onto-AllZeros acc (z ∷ zs) (e, h) =
    let k = length zs in
    let digit : z ≡ 48 = ground arith in
    value_onto-AllZeros (acc * 10 + (z - 48)) zs h
    ∙ ap (λ a. a * 10 ^ k) (omega arith)
    ∙ mul_assoc acc 10 (10 ^ k)
    ∙ ap (λ a. acc * a) (sym (pow-succ' 10 k))

-- Where a run of digits ends.
abbrev pub Stops : Text → Type 0
Stops [] = Unit
Stops (c ∷ t) = is_digit c ≡ false

span_digits-Stops : (t : Text) → Stops t → span_digits t ≡ ([], t)
unfolding span_digits
span_digits-Stops [] h = refl
span_digits-Stops (c ∷ t) h = rw h refl

pub span_digits-append : (ds t : Text) → IsDigits ds → Stops t → span_digits (ds ++ t) ≡ (ds, t)
unfolding span_digits
span_digits-append [] t h stops = span_digits-Stops t stops
span_digits-append (d ∷ ds) t (e, h) stops = rw (e, span_digits-append ds t h stops) refl

pub span_digits-all : (ds : Text) → IsDigits ds → span_digits ds ≡ (ds, [])
span_digits-all ds h = ap span_digits (sym (append-nil ds)) ∙ span_digits-append ds [] h tt

-- The digits of a text come first in it.
abbrev pub Spanned : Text → Text × Text → Type 0
Spanned t (ds, rest) = (t ≡ ds ++ rest) × IsDigits ds

pub span_digits-Spanned : (t : Text) → Spanned t (span_digits t)
unfolding span_digits
span_digits-Spanned [] = (refl, tt)
span_digits-Spanned (c ∷ t) =
    let (e, h) = span_digits-Spanned t in
    elim (Bool-cases (is_digit c)) [
      | inl d ↦ rw d (ap (λ u. c ∷ u) e, (d, h))
      | inr d ↦ rw d (refl, tt)
    ]
