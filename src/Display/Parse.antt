-- ===== src/Display/Parse.antt =====
-- display_device.cpp: the parsing of a resolution and of a refresh rate.

use solari.Base.{
  ℕ, ◌^◌, [], ◌∷◌, ◌++◌, Option, none, some, Bool, not, ◌&&◌, leb, ◌==◌, if◌then◌else◌, length,
}
use solari.Base.Text.{Text, is_digit, value}
use solari.Process.State.{is_empty}

-- `Resolution` and `Rational` of libdisplaydevice, as the source builds them.
pub record Resolution : Type 0 where
  pub width : ℕ
  pub height : ℕ

pub record Rational : Type 0 where
  pub numerator : ℕ
  pub denominator : ℕ

-- The functions of other libraries: Boost's trimming, libdisplaydevice's equality, and the conversion of
-- a power of ten, given by its exponent, that is above the range of `unsigned int`.
pub record Libraries : Type 0 where
  pub trim_copy : Text → Text
  pub trim_left_copy_if : (ℕ → Bool) → Text → Text
  pub trim_right_copy_if : (ℕ → Bool) → Text → Text
  pub same_resolution : Resolution → Resolution → Bool
  pub same_rate : Rational → Rational → Bool
  pub out_of_range_cast : ℕ → ℕ

-- The digits at the front of a text, and the rest.
unfoldable pub span_digits : Text → Text × Text
span_digits [] = ([], [])
span_digits (c ∷ t) =
    let (ds, rest) = span_digits t in if is_digit c then (c ∷ ds, rest) else ([], c ∷ t)

unfoldable pub after_width : Text → Text → Option (Text × Text)
unfolding span_digits
after_width width [] = none
after_width width (c ∷ t) =
    let (height, rest) = span_digits t in
    if c == b'x' && not (is_empty width) && not (is_empty height) && is_empty rest
    then some (width, height)
    else none

-- The groups of `^(\d+)x(\d+)$`.
unfoldable pub match_resolution : Text → Option (Text × Text)
match_resolution t = let (width, rest) = span_digits t in after_width width rest

unfoldable pub after_whole : Bool → Text → Text → Option (Text × Option Text)
unfolding span_digits
after_whole dotted whole [] = if is_empty whole then none else some (whole, none)
after_whole dotted whole (c ∷ t) =
    let (decimals, rest) = span_digits t in
    if dotted && c == b'.' && not (is_empty whole) && not (is_empty decimals) && is_empty rest
    then some (whole, some decimals)
    else none

-- The groups of `^(\d+)(?:\.(\d+))?$`, or of `^(\d+)$` where no decimal point is allowed.
unfoldable pub match_rate : Bool → Text → Option (Text × Option Text)
match_rate dotted t = let (whole, rest) = span_digits t in after_whole dotted whole rest

-- On digits; `none` where it throws.
unfoldable pub stou : Text → Option ℕ
stou t = if leb (value t) 4294967295 then some (value t) else none

abbrev pub resolution_of : Option ℕ → Option ℕ → Option (Option Resolution)
resolution_of (some width) (some height) = some (some (record { width = width; height = height }))
resolution_of (some width) none = none
resolution_of none height = none

abbrev pub rate_of : Option ℕ → ℕ → Option (Option Rational)
rate_of (some numerator) denominator =
    some (some (record { numerator = numerator; denominator = denominator }))
rate_of none denominator = none

abbrev pub is_zero : ℕ → Bool
is_zero c = c == b'0'

module _ (lib : Libraries) where
  -- `none` is the answer false; then what it would fill in stays as it was.
  unfoldable pub parse_resolution_string : Text → Option (Option Resolution)
  parse_resolution_string input =
      let trimmed = lib.trim_copy input in
      elim (match_resolution trimmed) [
        | some (width, height) ↦ resolution_of (stou width) (stou height)
        | none ↦ if is_empty trimmed then some none else none
      ]

  -- 10 to the number of decimal places, as `unsigned int`.
  unfoldable pub power_of_ten : ℕ → ℕ
  power_of_ten k = if leb (10 ^ k) 4294967295 then 10 ^ k else lib.out_of_range_cast k

  -- The rate of the digits before and after the point.
  unfoldable pub rate_of_digits : Text → Text → Option (Option Rational)
  unfolding power_of_ten
  rate_of_digits whole decimals =
      let left = lib.trim_left_copy_if is_zero whole in
      let trimmed_1 = if is_empty left then b'0' ∷ [] else left in
      let trimmed_2 = lib.trim_right_copy_if is_zero decimals in
      if is_empty trimmed_2
      then rate_of (stou trimmed_1) 1
      else rate_of (stou (trimmed_1 ++ trimmed_2)) (power_of_ten (length trimmed_2))

  unfoldable pub parse_refresh_rate_string : Text → Bool → Option (Option Rational)
  unfolding rate_of_digits
  parse_refresh_rate_string input dotted =
      let trimmed = lib.trim_copy input in
      elim (match_rate dotted trimmed) [
        | some (whole, some decimals) ↦ rate_of_digits whole decimals
        | some (whole, none) ↦
            let left = lib.trim_left_copy_if is_zero whole in
            rate_of (stou (if is_empty left then b'0' ∷ [] else left)) 1
        | none ↦ if is_empty trimmed then some none else none
      ]
