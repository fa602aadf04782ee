-- ===== src/Config/Tests.antt =====
-- config.cpp: the theorems on the configuration file at a concrete one.
use solari.Base.{◌≡◌, ◌∷◌, [], List, some, refl, ℕ, ◌<◌, length}
use solari.Base.Text.{Text, codes}
use solari.Config.{
  before, from, strip_end, copy, skip_list, parse_value, parse_parts, parse_line, parse_option,
  parse_from,
}
use solari.Config.Ends.{parse_from_ends}

abbrev entries : List (Text × Text)
entries =
    (codes "port", codes "5") ∷ ((codes "hevc", codes "1 2") ∷ ((codes "port", codes "6") ∷ []))

parse_from_ends_example :
    (result : List (Text × Text)) × ((fuel : ℕ)
      → length (codes "# a\n\nb = c") < fuel
      → parse_from fuel (codes "# a\n\nb = c") [] ≡ some result)
parse_from_ends_example = parse_from_ends (codes "# a\n\nb = c") []

-- A list that is not closed takes the rest of the file.
unclosed : parse_option (codes "a = [1\nb = 2") ≡ ([], some (codes "a", codes "[1\nb = 2"))
unfolding before from strip_end copy skip_list parse_value parse_parts parse_line parse_option
unclosed = refl

-- A value keeps the blanks before a comment.
commented : parse_option (codes "a = b # c") ≡ ([], some (codes "a", codes "b "))
unfolding before from strip_end copy skip_list parse_value parse_parts parse_line parse_option
commented = refl
