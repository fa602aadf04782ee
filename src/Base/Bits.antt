-- ===== src/Base/Bits.antt =====
-- `bit_or` of numbers whose ones stand apart is their sum.
use Prim.Native.Nat.{
  ℕ, zero, suc, ◌+◌, ◌*◌, ◌/◌, ◌%◌, ◌^◌, ◌≤◌, ◌<◌, max, bit_or, digits, bit_or-bitwise,
}
use mathlib.Core.Path.{◌≡◌, refl, ap, ◌∙◌, sym}
use native.Mathlib.Nat.{pow-suc, mul_assoc}
use native.Mathlib.Omega.{arith}

abbrev or_digits : ℕ → ℕ → ℕ → ℕ
or_digits n a b = digits (λ b. b) max n a b

or_digits-fuel : (n m a b : ℕ) → a ≤ n → a ≤ m → or_digits n a b ≡ or_digits m a b
or_digits-fuel zero zero a b p q = refl
or_digits-fuel zero (suc m) zero b p q = refl
or_digits-fuel zero (suc m) (suc a) b p q = absurd (omega arith)
or_digits-fuel (suc n) zero zero b p q = refl
or_digits-fuel (suc n) zero (suc a) b p q = absurd (omega arith)
or_digits-fuel (suc n) (suc m) zero b p q = refl
or_digits-fuel (suc n) (suc m) (suc a) b p q =
    omega (arith, or_digits-fuel n m (suc a / 2) (b / 2) (omega arith) (omega arith))

zero-bit_or : (b : ℕ) → bit_or 0 b ≡ b
zero-bit_or b = bit_or-bitwise 0 b

bit_or-step : (a b : ℕ) → bit_or a b ≡ bit_or (a / 2) (b / 2) * 2 + max (a % 2) (b % 2)
bit_or-step zero b = omega (arith, zero-bit_or b, zero-bit_or (b / 2))
bit_or-step (suc a) b = omega (
  arith,
  bit_or-bitwise (suc a) b,
  bit_or-bitwise (suc a / 2) (b / 2),
  or_digits-fuel a (suc a / 2) (suc a / 2) (b / 2) (omega arith) (omega arith),
)

bit_or-zero_fuel : (n a : ℕ) → a ≤ n → bit_or a 0 ≡ a
bit_or-zero_fuel n zero h = refl
bit_or-zero_fuel zero (suc a) h = absurd (omega arith)
bit_or-zero_fuel (suc n) (suc a) h =
    omega (arith, bit_or-step (suc a) 0, bit_or-zero_fuel n (suc a / 2) (omega arith))

pub bit_or-low : (k a b : ℕ) → b < 2 ^ k → bit_or (a * 2 ^ k) b ≡ a * 2 ^ k + b
bit_or-low zero a zero h = omega (arith, bit_or-zero_fuel (a * 2 ^ 0) (a * 2 ^ 0) (omega arith))
bit_or-low zero a (suc b) h = absurd (omega arith)
bit_or-low (suc k) a b h =
    let p = 2 ^ k in
    let power : 2 ^ suc k ≡ p * 2 = pow-suc 2 k in
    let twice : a * 2 ^ suc k ≡ (a * p) * 2 = ap (λ t. a * t) power ∙ sym (mul_assoc a p 2) in
    let half : (a * 2 ^ suc k) / 2 ≡ a * p = omega (arith, twice) in
    let rest = bit_or-low k a (b / 2) (omega (arith, power)) in
    bit_or-step (a * 2 ^ suc k) b ∙ omega (arith, twice, rest, ap (λ n. bit_or n (b / 2)) half)

pub bit_or-high : (k a b : ℕ) → b < 2 ^ k → bit_or b (a * 2 ^ k) ≡ a * 2 ^ k + b
bit_or-high zero a zero h = omega (arith, zero-bit_or (a * 2 ^ 0))
bit_or-high zero a (suc b) h = absurd (omega arith)
bit_or-high (suc k) a b h =
    let p = 2 ^ k in
    let power : 2 ^ suc k ≡ p * 2 = pow-suc 2 k in
    let twice : a * 2 ^ suc k ≡ (a * p) * 2 = ap (λ t. a * t) power ∙ sym (mul_assoc a p 2) in
    let half : (a * 2 ^ suc k) / 2 ≡ a * p = omega (arith, twice) in
    let rest = bit_or-high k a (b / 2) (omega (arith, power)) in
    bit_or-step b (a * 2 ^ suc k) ∙ omega (arith, twice, rest, ap (λ n. bit_or (b / 2) n) half)
