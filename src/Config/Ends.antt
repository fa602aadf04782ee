-- ===== src/Config/Ends.antt =====
-- config.cpp: the loop of `parse_config` ends.
use solari.Base.{
  ℕ, zero, suc, ◌+◌, ◌≤◌, ◌<◌, ◌≡◌, refl, List, [], ◌∷◌, ◌++◌, Option, none, some, Bool, true,
  false, not, ◌||◌, arith, inl, inr, Bool-cases, ◌==◌, length, drop, length-append, length-drop,
}
use solari.Base.Text.{Text}
use solari.Config.{
  endline, space_tab, whitespace, hash, equals, strip_end, before, from, skip_list, parse_value,
  parse_parts, parse_line, parse_option, emplace, next_line, parse_from,
}

from-shorter : (p : ℕ → Bool) (t : Text) → length (from p t) ≤ length t
unfolding from
from-shorter p [] = omega arith
from-shorter p (c ∷ t) =
    let rest = from-shorter p t in
    elim (Bool-cases (p c)) [
      | inl e ↦ rw (from, e) (omega arith)
      | inr e ↦ rw (from, e) (omega arith)
    ]

skip_list-shorter : (n : ℕ) (t : Text) → length (skip_list n t).1 ≤ length t
unfolding skip_list
skip_list-shorter zero t = omega arith
skip_list-shorter (suc n) [] = omega arith
skip_list-shorter (suc n) (c ∷ t) = elim (Bool-cases (c == 91)) [
  | inl e ↦ let h = skip_list-shorter (suc (suc n)) t in rw (skip_list, e) (omega arith)
  | inr e ↦ elim (Bool-cases (c == 93)) [
    | inl k ↦ let h = skip_list-shorter n t in rw (skip_list, e, k) (omega arith)
    | inr k ↦ let h = skip_list-shorter (suc n) t in rw (skip_list, e, k) (omega arith)
  ]
]

parse_value-shorter :
    (name value left : Text) → length (parse_value name value left).0 ≤ length (value ++ left)
unfolding parse_value
parse_value-shorter name [] left = omega arith
parse_value-shorter name (c ∷ value) left = elim (Bool-cases (c == 91)) [
  | inl e ↦ elim (Bool-cases (length (value ++ left) == 0)) [
    | inl k ↦ rw (parse_value, e, k) (omega arith)
    | inr k ↦ let h = skip_list-shorter 1 (value ++ left) in rw (parse_value, e, k) (omega arith)
  ]
  | inr e ↦ rw (parse_value, e) (omega (arith, length-append value left))
]

before-from : (p : ℕ → Bool) (t : Text) → length (before p t) + length (from p t) ≡ length t
unfolding before from
before-from p [] = omega arith
before-from p (c ∷ t) =
    let rest = before-from p t in
    elim (Bool-cases (p c)) [
      | inl e ↦ rw (before, from, e) (omega arith)
      | inr e ↦ rw (before, from, e) (omega arith)
    ]

parse_parts-shorter :
    (name value line left : Text)
    → length (parse_parts name value line left).0 ≤ length line + length left
unfolding parse_parts
parse_parts-shorter name value line left =
    elim (Bool-cases (length value == 0 || length name == 0)) [
      | inl e ↦ rw (parse_parts, e) (omega arith)
      | inr e ↦
          let spaces = length (before (λ c. not (space_tab c)) (drop 1 value)) in
          let rest = drop (length name + 1 + spaces) line in
          let h = parse_value-shorter (strip_end space_tab name) rest left in
          rw (parse_parts, e)
            (omega (arith, h, length-append rest left, length-drop (length name + 1 + spaces) line))
    ]

parse_option-shorter : (text : Text) → length (parse_option text).0 ≤ length text
unfolding parse_option parse_line
parse_option-shorter text =
    let begin = from (λ c. not (whitespace c)) text in
    let line = before endline begin in
    let left = from endline begin in
    let options = strip_end whitespace (before hash line) in
    omega (
      arith,
      parse_parts-shorter (before equals options) (from equals options) line left,
      before-from endline begin,
      from-shorter (λ c. not (whitespace c)) text,
    )

next_line-shorter : (left : Text) (n : ℕ) → length left ≤ n → 0 < n → length (next_line left) < n
unfolding next_line
next_line-shorter [] n h pos = pos
next_line-shorter (c ∷ t) n h pos = elim (Bool-cases (c == 13)) [
  | inl e ↦ rw (next_line, e) (omega (arith, length-drop 1 t))
  | inr e ↦ rw (next_line, e) (omega arith)
]

at_end :
    (text : Text) (vars : List (Text × Text))
    → (length text == 0) ≡ true
    → (fuel : ℕ) → length text < fuel
    → parse_from fuel text vars ≡ some vars
unfolding parse_from
at_end text vars e zero h = absurd (omega arith)
at_end text vars e (suc fuel) h = rw (parse_from, e) refl

abbrev added : List (Text × Text) → Option (Text × Text) → List (Text × Text)
added vars none = vars
added vars (some v) = emplace v vars

one_more :
    (text : Text) (vars result : List (Text × Text))
    → (length text == 0) ≡ false
    → length (next_line (parse_option text).0) < length text
    → ((fuel : ℕ)
        → length (next_line (parse_option text).0) < fuel
        → parse_from fuel (next_line (parse_option text).0) (added vars (parse_option text).1)
          ≡ some result)
    → (fuel : ℕ) → length text < fuel
    → parse_from fuel text vars ≡ some result
unfolding parse_from
one_more text vars result busy less done zero h = absurd (omega arith)
one_more text vars result busy less done (suc fuel) h =
    rw (parse_from, busy) (done fuel (omega arith))

-- By induction on a bound of the text's size.
ends_within :
    (bound : ℕ) (text : Text) (vars : List (Text × Text))
    → length text < bound
    → (result : List (Text × Text)) × ((fuel : ℕ)
        → length text < fuel
        → parse_from fuel text vars ≡ some result)
unfolding parse_from
ends_within zero text vars h = absurd (omega arith)
ends_within (suc bound) text vars h = elim (Bool-cases (length text == 0)) [
  | inl e ↦ (vars, at_end text vars e)
  | inr busy ↦
      let (left, var) = parse_option text in
      let less = next_line-shorter left (length text) (parse_option-shorter text) (ground arith) in
      let (result, done) =
        ends_within bound (next_line left) (added vars var) (omega (arith, less)) in
      (result, one_more text vars result busy less done)
]

-- The loop of `parse_config` ends on every text: any number of rounds above the text's size is enough for it to come
-- to its end, from any map, and with a map that is the same for all such numbers.
pub parse_from_ends :
    (text : Text) (vars : List (Text × Text))
    → (result : List (Text × Text)) × ((fuel : ℕ)
        → length text < fuel
        → parse_from fuel text vars ≡ some result)
parse_from_ends text vars =
    let (result, done) = ends_within (suc (length text)) text vars (omega arith) in
    (result, λ fuel h. done fuel h)
