-- ===== src/Display/Rate.antt =====
-- display_device.cpp: the value of the fraction that `parse_refresh_rate_string` makes of decimals.
use solari.Base.{
  ℕ, zero, suc, ◌+◌, ◌*◌, ◌^◌, ◌≤◌, ◌≡◌, ◌≢◌, refl, sym, ap, ◌∙◌, subst, [], ◌∷◌, ◌++◌, Option,
  some, true, false, leb, arith, length, length-append, Bool-cases, inl, inr, if◌then◌else◌,
}
use native.Mathlib.Nat.{mul_assoc, pow-suc, one-le-pow, pow-le-pow_right}
use mathlib.Core.List.{append-nil}
use solari.Base.Text.{Text, IsDigits, value, value_onto}
use solari.Process.State.{is_empty}
use solari.Display.Parse.{
  Rational, Libraries, after_whole, match_rate, stou, rate_of, is_zero, power_of_ten,
  rate_of_digits, parse_refresh_rate_string,
}
use solari.Display.Number.{
  span_digits-append, span_digits-all, value_onto-append, value_onto-AllZeros, AllZeros,
}
use solari.Display.Size.{is_empty-ne_nil, is_empty-eq}

-- The trimming of zeros takes away zeros, at the one end of the text.
pub record TrimsZeros (lib : Libraries) : Type 0 where
  pub left : (t : Text) → (pre : Text) × AllZeros pre × (t ≡ pre ++ lib.trim_left_copy_if is_zero t)
  pub right :
      (t : Text) → (post : Text) × AllZeros post × (t ≡ lib.trim_right_copy_if is_zero t ++ post)

-- The fraction is the number that the digits before and after the point stand for.
pub record Fraction (whole decimals : Text) (q : Rational) : Type 0 where
  pub value : q.numerator * 10 ^ length decimals ≡ value (whole ++ decimals) * q.denominator
  pub positive : 1 ≤ q.denominator
  pub bounds : (q.numerator ≤ 4294967295) × (q.denominator ≤ 4294967295)

trimmed_1 : Libraries → Text → Text
trimmed_1 lib whole =
    let left = lib.trim_left_copy_if is_zero whole in if is_empty left then b'0' ∷ [] else left

-- Without its leading zeros, or as one zero, a number has its value.
value_onto-trimmed :
    (lib : Libraries) (whole : Text) → TrimsZeros lib → value (trimmed_1 lib whole) ≡ value whole
unfolding trimmed_1 value_onto
value_onto-trimmed lib whole z =
    let left = lib.trim_left_copy_if is_zero whole in
    let (pre, zeros, shape) = z.left whole in
    let same : value left ≡ value whole = sym (
      ap value shape
      ∙ value_onto-append 0 pre left
      ∙ ap (λ a. value_onto a left) (value_onto-AllZeros 0 pre zeros ∙ omega arith)) in
    elim (Bool-cases (is_empty left)) [
      | inl e ↦ rw e (sym (ap value (is_empty-eq left e)) ∙ same)
      | inr e ↦ rw e same
    ]

pow_add : (m n : ℕ) → 10 ^ (m + n) ≡ 10 ^ n * 10 ^ m
pow_add zero n =
    let size : 0 + n ≡ n = omega arith in
    let once : 10 ^ n ≡ 10 ^ n * 1 = omega arith in ap (λ k. 10 ^ k) size ∙ once
pow_add (suc m) n =
    let size : suc m + n ≡ suc (m + n) = omega arith in
    ap (λ k. 10 ^ k) size
    ∙ pow-suc 10 (m + n)
    ∙ ap (λ a. a * 10) (pow_add m n)
    ∙ mul_assoc (10 ^ n) (10 ^ m) 10
    ∙ ap (λ a. 10 ^ n * a) (sym (pow-suc 10 m))

-- The digits that are left of two runs, and the zeros that are not.
record Trimmed (lib : Libraries) (whole decimals : Text) : Type 0 where
  zeros : ℕ
  size : length decimals ≡ length (lib.trim_right_copy_if is_zero decimals) + zeros
  value :
      value (whole ++ decimals)
      ≡ value (trimmed_1 lib whole ++ lib.trim_right_copy_if is_zero decimals) * 10 ^ zeros

Trimmed-digits :
    (lib : Libraries) (whole decimals : Text) → TrimsZeros lib → Trimmed lib whole decimals
Trimmed-digits lib whole decimals z =
    let left = trimmed_1 lib whole in
    let right = lib.trim_right_copy_if is_zero decimals in
    let (post, zeros, shape) = z.right decimals in
    record {
      zeros = length post;
      size = ap length shape ∙ length-append right post;
      value =
          value_onto-append 0 whole decimals
          ∙ ap (λ a. value_onto a decimals) (sym (value_onto-trimmed lib whole z))
          ∙ ap (λ t. value_onto (value left) t) shape
          ∙ value_onto-append (value left) right post
          ∙ value_onto-AllZeros (value_onto (value left) right) post zeros
          ∙ ap (λ a. a * 10 ^ length post) (sym (value_onto-append 0 left right));
    }

-- A number without decimals is one with none.
rate_of_digits-join :
    (lib : Libraries) (whole decimals : Text)
    → let right = lib.trim_right_copy_if is_zero decimals in
      rate_of_digits lib whole decimals
      ≡ rate_of (stou (trimmed_1 lib whole ++ right)) (power_of_ten lib (length right))
unfolding rate_of_digits trimmed_1 power_of_ten
rate_of_digits-join lib whole decimals =
    let right = lib.trim_right_copy_if is_zero decimals in
    let left = trimmed_1 lib whole in
    elim (Bool-cases (is_empty right)) [
      | inl e ↦
          let nil = is_empty-eq right e in
          rw e (
            ap (λ t. rate_of (stou t) 1) (sym (append-nil left))
            ∙ ap (λ r. rate_of (stou (left ++ r)) (power_of_ten lib (length r))) (sym nil))
      | inr e ↦ rw e refl
    ]

power_of_ten-small : (lib : Libraries) (k : ℕ) → k ≤ 9 → power_of_ten lib k ≡ 10 ^ k
unfolding power_of_ten
power_of_ten-small lib k h =
    let bound : 10 ^ k ≤ 10 ^ 9 = pow-le-pow_right (omega arith) h in
    let small : leb (10 ^ k) 4294967295 ≡ true = ground arith in rw small refl

match_rate-point :
    (whole decimals : Text)
    → IsDigits whole
    → IsDigits decimals
    → whole ≢ []
    → decimals ≢ []
    → match_rate true (whole ++ b'.' ∷ decimals) ≡ some (whole, some decimals)
unfolding match_rate after_whole
match_rate-point whole decimals d e ne_whole ne_decimals =
    rw
      (
        span_digits-append whole (b'.' ∷ decimals) d refl,
        span_digits-all decimals e,
        is_empty-ne_nil whole ne_whole,
        is_empty-ne_nil decimals ne_decimals,
      )
      refl

abbrev Exact : Text → Text → Option (Option Rational) → Type 0
Exact whole decimals answer = (q : Rational) × (answer ≡ some (some q)) × Fraction whole decimals q

rate_of_digits-Exact :
    (lib : Libraries) (whole decimals : Text)
    → TrimsZeros lib
    → length decimals ≤ 9
    → value (whole ++ decimals) ≤ 4294967295
    → Exact whole decimals (rate_of_digits lib whole decimals)
unfolding stou
rate_of_digits-Exact lib whole decimals z few small =
    let t = Trimmed-digits lib whole decimals z in
    let right = lib.trim_right_copy_if is_zero decimals in
    let v = value (trimmed_1 lib whole ++ right) in
    let m = length right in
    let at_most : m ≤ 9 = omega (arith, t.size) in
    let places : 10 ^ m ≤ 10 ^ 9 = pow-le-pow_right (omega arith) at_most in
    let at_least : 1 ≤ 10 ^ t.zeros = one-le-pow t.zeros 10 (omega arith) in
    let fits : v ≤ 4294967295 = grind (arith, t.value, at_least, small) in
    let q : Rational = record { numerator = v; denominator = 10 ^ m } in
    let same : rate_of_digits lib whole decimals ≡ some (some q) =
      rate_of_digits-join lib whole decimals
      ∙ rw (power_of_ten-small lib m (omega (arith, t.size))) (ground arith) in
    (
      q,
      same,
      record {
        value =
            ap (λ k. v * 10 ^ k) t.size
            ∙ ap (λ a. v * a) (pow_add m t.zeros)
            ∙ sym (mul_assoc v (10 ^ t.zeros) (10 ^ m))
            ∙ ap (λ a. a * 10 ^ m) (sym t.value);
        positive = one-le-pow m 10 (omega arith);
        bounds = (fits, omega (arith, places));
      },
    )

-- Where zeros are trimmed, digits, a point and at most nine digits, of a value that without the point
-- fits in 32 bits, are read as a fraction of exactly the value written, of 32 bits each.
pub parse_refresh_rate_string-Fraction :
    (lib : Libraries) (input whole decimals : Text)
    → TrimsZeros lib
    → lib.trim_copy input ≡ whole ++ b'.' ∷ decimals
    → IsDigits whole
    → IsDigits decimals
    → whole ≢ []
    → decimals ≢ []
    → length decimals ≤ 9
    → value (whole ++ decimals) ≤ 4294967295
    → Exact whole decimals (parse_refresh_rate_string lib input true)
unfolding parse_refresh_rate_string
parse_refresh_rate_string-Fraction lib input whole decimals z e d f ne_whole ne_decimals few small =
    let same : parse_refresh_rate_string lib input true ≡ rate_of_digits lib whole decimals =
      rw (parse_refresh_rate_string, e, match_rate-point whole decimals d f ne_whole ne_decimals)
        refl in
    subst (Exact whole decimals) (sym same) (rate_of_digits-Exact lib whole decimals z few small)

power_of_ten-large :
    (lib : Libraries) (k : ℕ) → 10 ≤ k → power_of_ten lib k ≡ lib.out_of_range_cast k
unfolding power_of_ten
power_of_ten-large lib k h =
    let bound : 10 ^ 10 ≤ 10 ^ k = pow-le-pow_right (omega arith) h in
    let large : leb (10 ^ k) 4294967295 ≡ false = ground arith in rw large refl

-- Where zeros are trimmed, digits, a point and digits of which ten or more are left without their last
-- zeros, of a value that without the point fits in 32 bits, are read as a rate whose denominator is what
-- the conversion of a number above the range of its type gives.
pub parse_refresh_rate_string-overflow :
    (lib : Libraries) (input whole decimals : Text)
    → TrimsZeros lib
    → lib.trim_copy input ≡ whole ++ b'.' ∷ decimals
    → IsDigits whole
    → IsDigits decimals
    → whole ≢ []
    → decimals ≢ []
    → 10 ≤ length (lib.trim_right_copy_if is_zero decimals)
    → value (whole ++ decimals) ≤ 4294967295
    → (n : ℕ) × (parse_refresh_rate_string lib input true
        ≡ some (
            some (record {
              numerator = n;
              denominator =
                  lib.out_of_range_cast (length (lib.trim_right_copy_if is_zero decimals));
            })))
unfolding parse_refresh_rate_string stou
parse_refresh_rate_string-overflow lib input whole decimals z e d f ne_whole ne_decimals many
      small =
    let t = Trimmed-digits lib whole decimals z in
    let right = lib.trim_right_copy_if is_zero decimals in
    let v = value (trimmed_1 lib whole ++ right) in
    let at_least : 1 ≤ 10 ^ t.zeros = one-le-pow t.zeros 10 (omega arith) in
    let fits : v ≤ 4294967295 = grind (arith, t.value, at_least, small) in
    (
      v,
      rw (parse_refresh_rate_string, e, match_rate-point whole decimals d f ne_whole ne_decimals)
          (rate_of_digits-join lib whole decimals
            ∙ rw (power_of_ten-large lib (length right) many) (ground arith)),
    )
