-- ===== src/Config/Line.antt =====
-- config.cpp: `parse_option` reads a line of a name and a value.
use solari.Base.{
  ℕ, ◌+◌, ◌<◌, ◌≡◌, refl, sym, ap, ◌∙◌, [], ◌∷◌, ◌++◌, some, Bool, true, false, not, arith, All,
  inl, inr, Bool-cases, ◌==◌, length, drop, length-append, drop-append_length,
}
use mathlib.Core.List.{append_assoc}
use solari.Base.Text.{Text}
use solari.Config.{
  endline, space_tab, whitespace, before, from, strip_end, hash, equals, copy, to_string,
  parse_value, parse_parts, parse_line, parse_option,
}

before-append :
    (p : ℕ → Bool) (xs : Text) (d : ℕ) (r : Text)
    → All (λ c. p c ≡ false) xs
    → p d ≡ true
    → (before p (xs ++ (d ∷ r)) ≡ xs) × (from p (xs ++ (d ∷ r)) ≡ d ∷ r)
unfolding before from
before-append p [] d r h e = (rw (before, e) refl, rw (from, e) refl)
before-append p (c ∷ xs) d r (other, h) e =
    let (one, two) = before-append p xs d r h e in
    (rw (before, other) (ap (λ t. c ∷ t) one), rw (from, other) two)

before_whole : (p : ℕ → Bool) (xs : Text) → All (λ c. p c ≡ false) xs → before p xs ≡ xs
unfolding before
before_whole p [] h = refl
before_whole p (c ∷ xs) (other, h) = rw (before, other) (ap (λ t. c ∷ t) (before_whole p xs h))

strip_end-append :
    (p : ℕ → Bool) (xs ys : Text)
    → 0 < length (strip_end p ys)
    → strip_end p (xs ++ ys) ≡ xs ++ strip_end p ys
unfolding strip_end
strip_end-append p [] ys h = refl
strip_end-append p (c ∷ xs) ys h =
    let rest = strip_end-append p xs ys h in
    let more : (length (strip_end p (xs ++ ys)) == 0) ≡ false =
      let size = ap length rest ∙ length-append xs (strip_end p ys) in ground arith in
    rw (strip_end, more) (ap (λ t. c ∷ t) rest)

strip_end-head :
    (p : ℕ → Bool) (c : ℕ) (t : Text) → p c ≡ false → strip_end p (c ∷ t) ≡ c ∷ strip_end p t
unfolding strip_end
strip_end-head p c t other = elim (Bool-cases (length (strip_end p t) == 0)) [
  | inl e ↦ rw (strip_end, e, other) refl
  | inr e ↦ rw (strip_end, e) refl
]

strip_end-one :
    (p : ℕ → Bool) (xs : Text) (d : ℕ)
    → All (λ c. p c ≡ false) xs
    → p d ≡ true
    → strip_end p (xs ++ (d ∷ [])) ≡ xs
unfolding strip_end
strip_end-one p [] d h e = rw (strip_end, e) refl
strip_end-one p (c ∷ xs) d (other, h) e =
    strip_end-head p c (xs ++ (d ∷ [])) other ∙ ap (λ t. c ∷ t) (strip_end-one p xs d h e)

copy_whole : (t : Text) → All (λ c. hash c ≡ false) t → to_string t ≡ t
unfolding copy
copy_whole [] h = refl
copy_whole (c ∷ t) (other, h) = rw (copy, other) (ap (λ u. c ∷ u) (copy_whole t h))

-- A name has no white space, no hash and no equals sign, and at least one character.
abbrev pub IsName : Text → Type 0
IsName name =
    (0 < length name)
    × All (λ c. (whitespace c ≡ false) × (hash c ≡ false) × (equals c ≡ false)) name

-- A value has no end of a line and no hash, and does not begin with a blank or a bracket.
abbrev pub IsValue : Text → Type 0
IsValue [] = ⊥
IsValue (c ∷ value) =
    (space_tab c ≡ false)
    × ((c == 91) ≡ false)
    × All (λ c. (endline c ≡ false) × (hash c ≡ false)) (c ∷ value)

abbrev pub print_option : Text → Text → Text
print_option name value = name ++ (32 ∷ (61 ∷ (32 ∷ value)))

-- What holds of each character holds of it by a weaker test.
weaken : {P Q : ℕ → Type 0} (xs : Text) → ((c : ℕ) → P c → Q c) → All P xs → All Q xs
weaken [] f h = tt
weaken (c ∷ xs) f (here, h) = (f c here, weaken xs f h)

append-All : (P : ℕ → Type 0) (xs ys : Text) → All P xs → All P ys → All P (xs ++ ys)
append-All P [] ys h k = k
append-All P (c ∷ xs) ys (here, h) k = (here, append-All P xs ys h k)

not_endline : (c : ℕ) → whitespace c ≡ false → endline c ≡ false
not_endline c h = ground arith

not_blank : (c : ℕ) → whitespace c ≡ false → space_tab c ≡ false
not_blank c h = ground arith

-- The steps of reading the line.
record Steps (name value : Text) : Type 0 where
  clean : All (λ c. (endline c ≡ false) × (hash c ≡ false)) (print_option name value)
  stripped :
      strip_end whitespace (print_option name value)
      ≡ print_option name (strip_end whitespace value)
  left_of : before equals (print_option name (strip_end whitespace value)) ≡ name ++ (32 ∷ [])
  right_of :
      from equals (print_option name (strip_end whitespace value))
      ≡ 61 ∷ (32 ∷ strip_end whitespace value)
  blanks : before (λ c. not (space_tab c)) (32 ∷ strip_end whitespace value) ≡ 32 ∷ []
  named : strip_end space_tab (name ++ (32 ∷ [])) ≡ name

Steps-of :
    (name : Text) (c : ℕ) (rest : Text) → IsName name → IsValue (c ∷ rest) → Steps name (c ∷ rest)
unfolding before from strip_end
Steps-of name c rest (some_name, clean) (solid, plain, good) =
    let value = c ∷ rest in
    let solid_ws : whitespace c ≡ false = let ends = good.0.0 in ground arith in
    let head = strip_end-head whitespace c rest solid_ws in
    let some_value : 0 < length (strip_end whitespace value) =
      let size = ap length head in ground arith in
    let equals_sign : Text = 32 ∷ (61 ∷ (32 ∷ [])) in
    let shifted : print_option name (strip_end whitespace value)
        ≡ (name ++ (32 ∷ [])) ++ (61 ∷ (32 ∷ strip_end whitespace value)) =
      sym (append_assoc name (32 ∷ []) (61 ∷ (32 ∷ strip_end whitespace value))) in
    let no_equals =
      append-All (λ d. equals d ≡ false) name (32 ∷ []) (weaken name (λ d h. h.2) clean)
        (refl, tt) in
    let (left, right) =
      before-append equals (name ++ (32 ∷ [])) 61 (32 ∷ strip_end whitespace value) no_equals
        refl in
    record {
      clean =
          append-All (λ d. (endline d ≡ false) × (hash d ≡ false)) name (32 ∷ (61 ∷ (32 ∷ value)))
            (weaken name (λ d h. (not_endline d h.0, h.1)) clean)
            ((refl, refl), ((refl, refl), ((refl, refl), good)));
      stripped =
          ap (strip_end whitespace) (sym (append_assoc name equals_sign value))
          ∙ strip_end-append whitespace (name ++ equals_sign) value some_value
          ∙ append_assoc name equals_sign (strip_end whitespace value);
      left_of = ap (before equals) shifted ∙ left;
      right_of = ap (from equals) shifted ∙ right;
      blanks = ap (λ t. before (λ d. not (space_tab d)) (32 ∷ t)) head ∙ rw (before, solid) refl;
      named = strip_end-one space_tab name 32 (weaken name (λ d h. not_blank d h.0) clean) refl;
    }

from-name : (name t : Text) → IsName name → from (λ c. not (whitespace c)) (name ++ t) ≡ name ++ t
unfolding from
from-name [] t (some_name, clean) = absurd (omega arith)
from-name (c ∷ name) t (some_name, ((solid, no_hash, no_equals), clean)) = rw (from, solid) refl

-- A line is read as it was written: for a name without white space, hash or equals sign, and a value without hash
-- or end of a line that does not begin with a blank or an opening bracket, the line of the name, an equals sign
-- between blanks and the value, at the start of a text, is read as this name and this value, blanks at the
-- value's end included, and the text is left from the line's end on.
pub parse_option-print_option :
    (name value rest : Text)
    → IsName name
    → IsValue value
    → parse_option (print_option name value ++ (10 ∷ rest)) ≡ (10 ∷ rest, some (name, value))
unfolding parse_option parse_line parse_parts parse_value
parse_option-print_option name [] rest is_name v = absurd v
parse_option-print_option name (c ∷ value) rest (some_name, clean) (solid, plain, good) =
    let v = c ∷ value in
    let line = print_option name v in
    let s = Steps-of name c value (some_name, clean) (solid, plain, good) in
    let begin =
      ap (from (λ d. not (whitespace d))) (append_assoc name (32 ∷ (61 ∷ (32 ∷ v))) (10 ∷ rest))
      ∙ from-name name ((32 ∷ (61 ∷ (32 ∷ v))) ++ (10 ∷ rest)) (some_name, clean)
      ∙ sym (append_assoc name (32 ∷ (61 ∷ (32 ∷ v))) (10 ∷ rest)) in
    let (ends, left) = before-append endline line 10 rest (weaken line (λ d h. h.0) s.clean) refl in
    let no_hash = before_whole hash line (weaken line (λ d h. h.1) s.clean) in
    let named : (length (name ++ (32 ∷ [])) == 0) ≡ false =
      let size = length-append name (32 ∷ []) in ground arith in
    let valued : (length (61 ∷ (32 ∷ strip_end whitespace v)) == 0) ≡ false = ground arith in
    let at_value : drop (length (name ++ (32 ∷ [])) + 1 + 1) line ≡ v =
      let sizes : length (name ++ (32 ∷ (61 ∷ (32 ∷ [])))) ≡ length (name ++ (32 ∷ [])) + 1 + 1 =
        omega (arith, length-append name (32 ∷ (61 ∷ (32 ∷ []))), length-append name (32 ∷ [])) in
      ap (drop (length (name ++ (32 ∷ [])) + 1 + 1))
        (sym (append_assoc name (32 ∷ (61 ∷ (32 ∷ []))) v))
      ∙ drop-append_length (name ++ (32 ∷ (61 ∷ (32 ∷ [])))) v (length (name ++ (32 ∷ [])) + 1 + 1)
          sizes in
    let printed =
      ap (λ n. (n, to_string v)) (copy_whole name (weaken name (λ d (a, b, e). b) clean))
      ∙ ap (λ t. (name, t)) (copy_whole v (weaken v (λ d h. h.1) good)) in
    let options = ap (strip_end whitespace) no_hash ∙ s.stripped in
    ap (λ b. parse_line (before endline b) (from endline b)) begin
    ∙ ap (λ l. parse_line l (from endline (line ++ (10 ∷ rest)))) ends
    ∙ ap (parse_line line) left
    ∙ ap (λ o. parse_parts (before equals o) (from equals o) line (10 ∷ rest)) options
    ∙ ap
        (λ n.
          parse_parts n (from equals (print_option name (strip_end whitespace v))) line (10 ∷ rest))
        s.left_of
    ∙ ap (λ t. parse_parts (name ++ (32 ∷ [])) t line (10 ∷ rest)) s.right_of
    ∙ rw (parse_parts, named, valued) refl
    ∙ ap
        (λ b.
          parse_value (strip_end space_tab (name ++ (32 ∷ [])))
            (drop (length (name ++ (32 ∷ [])) + 1 + length b) line) (10 ∷ rest))
        s.blanks
    ∙ ap (λ n. parse_value n (drop (length (name ++ (32 ∷ [])) + 1 + 1) line) (10 ∷ rest)) s.named
    ∙ ap (λ t. parse_value name t (10 ∷ rest)) at_value
    ∙ rw (parse_value, plain) (ap (λ o. (10 ∷ rest, some o)) printed)
