-- ===== src/Config/File.antt =====
-- config.cpp: `parse_config` reads a file of names and values.
use solari.Base.{◌≡◌, List, [], ◌∷◌, ◌++◌, Option, none, some, if◌then◌else◌, All}
use solari.Base.Text.{Text, same_text}
use solari.Config.Line.{IsName, IsValue, print_option}

abbrev pub print_config : List (Text × Text) → Text
print_config [] = []
print_config ((name, value) ∷ entries) = print_option name value ++ (10 ∷ print_config entries)

abbrev pub Readable : List (Text × Text) → Type 0
Readable entries = All (λ e. IsName e.0 × IsValue e.1) entries

-- The value of the first entry of a name.
abbrev pub value_of : Text → List (Text × Text) → Option Text
value_of name [] = none
value_of name ((other, value) ∷ entries) =
    if same_text other name then some value else value_of name entries

-- No name stands twice.
abbrev pub Distinct : List (Text × Text) → Type 0
Distinct [] = Unit
Distinct ((name, value) ∷ vars) = (value_of name vars ≡ none) × Distinct vars

-- The first of two values that is there.
abbrev either : Option Text → Option Text → Option Text
either none second = second
either (some first) second = some first

-- What the loop makes of entries that are still to come.
record Read (entries vars : List (Text × Text)) (o : Option (List (Text × Text))) : Type 0 where
  result : List (Text × Text)
  done : o ≡ some result
  distinct : Distinct result
  values :
      (name : Text) → value_of name result ≡ either (value_of name vars) (value_of name entries)
