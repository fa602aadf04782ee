-- ===== src/Hex/RoundTrip.antt =====
-- utility.h: text written by `hex_vec` is read back by `from_hex_vec`.
use solari.Base.{
  ℕ, ◌/◌, ◌%◌, ◌<◌, ◌≡◌, refl, sym, ap, ◌∙◌, List, [], ◌∷◌, ◌++◌, Bool, true, false, arith, All,
  reverse, reverse-reverse,
}
use solari.Hex.{
  Bytes, digit, digits_of, hex_vec, is_digit, lower, is_convertable, convert, values, join,
  decode_back, from_hex_vec,
}

-- The halves of each byte, the low one first.
abbrev halves_back : Bytes → List ℕ
halves_back [] = []
halves_back (b ∷ bs) = b % 16 ∷ b / 16 ∷ halves_back bs

abbrev halves : Bytes → List ℕ
halves [] = []
halves (b ∷ bs) = b / 16 ∷ b % 16 ∷ halves bs

digit_value : (n : ℕ) → n < 16 → (is_convertable (digit n) ≡ true) × (convert (digit n) ≡ n)
unfolding is_convertable convert digit is_digit lower
digit_value n h = ground arith

values-digits_of : (bs : Bytes) → All (λ b. b < 256) bs → values (digits_of bs) ≡ halves bs
unfolding values digits_of
values-digits_of [] small = refl
values-digits_of (b ∷ bs) small =
    let high = digit_value (b / 16) (omega (arith, small.0)) in
    let low = digit_value (b % 16) (omega arith) in ground (arith, values-digits_of bs small.1)

join_halves : (b : ℕ) → b < 256 → join (b / 16) (b % 16) ≡ b
unfolding join
join_halves b h = ground arith

decode_back_lem : (bs : Bytes) → All (λ b. b < 256) bs → decode_back (halves_back bs) ≡ bs
unfolding decode_back
decode_back_lem [] small = refl
decode_back_lem (b ∷ bs) small = ground (arith, join_halves b small.0, decode_back_lem bs small.1)

halves_back-snoc :
    (bs : Bytes) (b : ℕ) → halves_back (bs ++ b ∷ []) ≡ halves_back bs ++ b % 16 ∷ b / 16 ∷ []
halves_back-snoc [] b = refl
halves_back-snoc (c ∷ bs) b = ap (λ vs. c % 16 ∷ c / 16 ∷ vs) (halves_back-snoc bs b)

append_pair : (vs : List ℕ) (x y : ℕ) → (vs ++ x ∷ []) ++ y ∷ [] ≡ vs ++ x ∷ y ∷ []
append_pair [] x y = refl
append_pair (v ∷ vs) x y = ap (λ us. v ∷ us) (append_pair vs x y)

reverse-halves : (bs : Bytes) → reverse (halves bs) ≡ halves_back (reverse bs)
reverse-halves [] = refl
reverse-halves (b ∷ bs) =
    append_pair (reverse (halves bs)) (b % 16) (b / 16)
    ∙ ap (λ vs. vs ++ b % 16 ∷ b / 16 ∷ []) (reverse-halves bs)
    ∙ sym (halves_back-snoc (reverse bs) b)

All-snoc :
    (bs : Bytes) (b : ℕ) → All (λ c. c < 256) bs → b < 256 → All (λ c. c < 256) (bs ++ b ∷ [])
All-snoc [] b small h = (h, tt)
All-snoc (c ∷ bs) b small h = (small.0, All-snoc bs b small.1 h)

All-reverse : (bs : Bytes) → All (λ c. c < 256) bs → All (λ c. c < 256) (reverse bs)
All-reverse [] small = tt
All-reverse (b ∷ bs) small = All-snoc (reverse bs) b (All-reverse bs small.1) small.0

decoded :
    (bs : Bytes)
    → All (λ b. b < 256) bs
    → decode_back (reverse (values (digits_of bs))) ≡ reverse bs
decoded bs small =
    ap (λ vs. decode_back (reverse vs)) (values-digits_of bs small)
    ∙ ap decode_back (reverse-halves bs)
    ∙ decode_back_lem (reverse bs) (All-reverse bs small)

-- Bytes written as text in either order, and read in the same order, come back.
pub from_hex_vec-hex_vec :
    (bs : Bytes) (rev : Bool) → All (λ b. b < 256) bs → from_hex_vec (hex_vec bs rev) rev ≡ bs
unfolding from_hex_vec hex_vec
from_hex_vec-hex_vec bs true small = ap reverse (decoded bs small) ∙ reverse-reverse bs
from_hex_vec-hex_vec bs false small =
    decoded (reverse bs) (All-reverse bs small) ∙ reverse-reverse bs
