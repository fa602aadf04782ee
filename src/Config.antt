-- ===== src/Config.antt =====
-- config.cpp: the configuration file, from its text to names and values.
pub mod Line
pub mod File
pub mod Ends
mod Tests
use solari.Base.{
  ℕ, zero, suc, ◌+◌, List, [], ◌∷◌, ◌++◌, Option, none, some, Bool, true, false, not, ◌&&◌, ◌||◌,
  ◌==◌, if◌then◌else◌, length, take, drop, is_some,
}
use solari.Base.Text.{Text, same_text}

abbrev pub endline : ℕ → Bool
endline c = c == 13 || c == 10

abbrev pub space_tab : ℕ → Bool
space_tab c = c == 32 || c == 9

abbrev pub whitespace : ℕ → Bool
whitespace c = space_tab c || endline c

-- The text before the first character of a kind, and the text from there on.
unfoldable pub before : (ℕ → Bool) → Text → Text
before p [] = []
before p (c ∷ t) = let rest = before p t in if p c then [] else c ∷ rest

unfoldable pub from : (ℕ → Bool) → Text → Text
from p [] = []
from p (c ∷ t) = let rest = from p t in if p c then c ∷ t else rest

-- The text without such characters at its end.
unfoldable pub strip_end : (ℕ → Bool) → Text → Text
strip_end p [] = []
strip_end p (c ∷ t) = let rest = strip_end p t in if length rest == 0 && p c then [] else c ∷ rest

abbrev pub hash : ℕ → Bool
hash c = c == 35

abbrev pub equals : ℕ → Bool
equals c = c == 61

-- `to_string`: in a comment, up to the end of its line, nothing is copied.
unfoldable pub copy : Bool → Text → Text
copy commented [] = []
copy true (c ∷ t) =
    let outside = copy false t in
    let inside = copy true t in if endline c then c ∷ outside else inside
copy false (c ∷ t) =
    let outside = copy false t in let inside = copy true t in if hash c then inside else c ∷ outside

abbrev pub to_string : Text → Text
to_string t = copy false t

-- What `skip_list` skips, for so many open brackets, and what it leaves.
unfoldable pub skip_list : ℕ → Text → Text × Text
skip_list zero t = ([], t)
skip_list (suc open_brackets) [] = ([], [])
skip_list (suc open_brackets) (c ∷ t) =
    let deeper = skip_list (suc (suc open_brackets)) t in
    let higher = skip_list open_brackets t in
    let same = skip_list (suc open_brackets) t in
    let (skipped, left) = if c == 91 then deeper else if c == 93 then higher else same in
    (c ∷ skipped, left)

-- `name = value` at the start of a text: what is left, and the name and the value if they are there.
unfoldable pub parse_value : Text → Text → Text → Text × Option (Text × Text)
parse_value name [] left = (left, none)
parse_value name (c ∷ value) left =
    if c == 91
    then (if length (value ++ left) == 0
        then ([], none)
        else (let (skipped, rest) = skip_list 1 (value ++ left) in
            (rest, some (to_string name, to_string (c ∷ skipped)))))
    else (left, some (to_string name, to_string (c ∷ value)))

-- The options of a line, cut at the equals sign.
unfoldable pub parse_parts : Text → Text → Text → Text → Text × Option (Text × Text)
parse_parts name value line left =
    let spaces = length (before (λ c. not (space_tab c)) (drop 1 value)) in
    if length value == 0 || length name == 0
    then (left, none)
    else parse_value (strip_end space_tab name) (drop (length name + 1 + spaces) line) left

unfoldable pub parse_line : Text → Text → Text × Option (Text × Text)
parse_line line left =
    let options = strip_end whitespace (before hash line) in
    parse_parts (before equals options) (from equals options) line left

unfoldable pub parse_option : Text → Text × Option (Text × Text)
parse_option text =
    let begin = from (λ c. not (whitespace c)) text in
    parse_line (before endline begin) (from endline begin)

-- `emplace` leaves a value that is there already.
unfoldable pub emplace : Text × Text → List (Text × Text) → List (Text × Text)
emplace (name, value) [] = (name, value) ∷ []
emplace (name, value) ((other, old) ∷ vars) =
    let rest = emplace (name, value) vars in
    if same_text other name then (other, old) ∷ vars else (other, old) ∷ rest

unfoldable pub next_line : Text → Text
next_line [] = []
next_line (c ∷ t) = if c == 13 then drop 1 t else t

-- The loop over the options, of so many rounds at most: `none` where it has not ended by then. Each round leaves
-- less text, so more rounds than the text has characters are enough.
unfoldable pub parse_from : ℕ → Text → List (Text × Text) → Option (List (Text × Text))
parse_from zero text vars = none
parse_from (suc fuel) text vars =
    let (left, var) = parse_option text in
    let added : List (Text × Text) = elim var [ none ↦ vars | some v ↦ emplace v vars ] in
    let rest = parse_from fuel (next_line left) added in
    if length text == 0 then some vars else rest

unfoldable pub parse_config : Text → Option (List (Text × Text))
parse_config file_content = parse_from (suc (length file_content)) file_content []
