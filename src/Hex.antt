-- ===== src/Hex.antt =====
-- utility.h: bytes as hexadecimal text and back. A character is its code, a byte a number below 256.
pub mod RoundTrip
use solari.Base.{
  ℕ, ◌+◌, ◌-◌, ◌*◌, ◌/◌, ◌%◌, List, [], ◌∷◌, ◌++◌, Bool, true, false, ◌&&◌, ◌||◌, ltb, leb, ◌==◌,
  if◌then◌else◌, length, replicate, reverse,
}

abbrev pub Bytes : Type 0
Bytes = List ℕ

-- `_bits`.
unfoldable pub digit : ℕ → ℕ
digit n = if ltb n 10 then 48 + n else 55 + n

-- The loop of `hex_vec`: two digits for each byte.
unfoldable pub digits_of : Bytes → List ℕ
digits_of [] = []
digits_of (b ∷ bs) = digit (b / 16) ∷ digit (b % 16) ∷ digits_of bs

-- `rev` goes from the first byte to the last.
unfoldable pub hex_vec : Bytes → Bool → List ℕ
unfolding digits_of
hex_vec bs rev = digits_of (if rev then bs else reverse bs)

unfoldable pub is_digit : ℕ → Bool
is_digit c = leb 48 c && leb c 57

-- `ch | 32`: bit 5 is set.
unfoldable pub lower : ℕ → ℕ
lower c = if c / 32 % 2 == 1 then c else c + 32

unfoldable pub is_convertable : ℕ → Bool
unfolding is_digit lower
is_convertable c = is_digit c || (leb 97 (lower c) && leb (lower c) 122)

unfoldable pub convert : ℕ → ℕ
unfolding is_digit lower
convert c = if is_digit c then c - 48 else lower c - 97 + 10

-- The values of the characters that `is_convertable` admits, in their order.
unfoldable pub values : List ℕ → List ℕ
unfolding is_convertable convert
values [] = []
values (c ∷ text) = if is_convertable c then convert c ∷ values text else values text

-- `(ch_l << 4) | ch_r`, for values up to 35: the bits of `r` from the fifth on meet those of `l`.
unfoldable pub join : ℕ → ℕ → ℕ
join l r =
    let high = r / 16 in
    let merged =
      if high == 1
      then l + (if l % 2 == 1 then 0 else 1)
      else if high == 2
      then l + (if l / 2 % 2 == 1 then 0 else 2)
      else l in
    (merged * 16 + r % 16) % 256

-- The decoding loop, over the values from the last to the first.
unfoldable pub decode_back : List ℕ → Bytes
unfolding join
decode_back [] = []
decode_back (r ∷ []) = []
decode_back (r ∷ l ∷ vs) = join l r ∷ decode_back vs

unfoldable pub from_hex_vec : List ℕ → Bool → Bytes
unfolding decode_back values
from_hex_vec text rev =
    let buf = decode_back (reverse (values text)) in if rev then reverse buf else buf

-- `from_hex` of an array of `size` bytes, which fills up with zeros.
unfoldable pub from_hex : ℕ → List ℕ → Bool → Bytes
unfolding decode_back values
from_hex size text rev =
    let bytes = decode_back (reverse (values text)) in
    let buf = bytes ++ replicate (size - length bytes) 0 in if rev then reverse buf else buf
