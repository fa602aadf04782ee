-- ===== src/Stream/Replace.antt =====
-- stream.cpp: `replace` replaces the first place where the bytes stand, and nothing else.
use solari.Base.{ℕ, ◌≤◌, ◌≡◌, ◌≢◌, List, ◌++◌, none, some, true, ◌⊎◌, length}
use solari.Base.Text.{has_prefix}
use solari.Stream.{search_bytes}

-- The first place, or none.
record Found (old xs before rest : List ℕ) : Type 0 where
  joined : before ++ rest ≡ xs
  starts : has_prefix old rest ≡ true
  first : (a c : List ℕ) → a ++ (old ++ c) ≡ xs → length before ≤ length a

abbrev Searched : List ℕ → List ℕ → Type 0
Searched old xs =
    ((search_bytes old xs ≡ none) × ((a c : List ℕ) → a ++ (old ++ c) ≢ xs))
    ⊎ ((before : List ℕ) × (rest : List ℕ) × (search_bytes old xs ≡ some (before, rest))
        × Found old xs before rest)
