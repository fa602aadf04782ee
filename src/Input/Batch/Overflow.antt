-- ===== src/Input/Batch/Overflow.antt =====
-- input.cpp: the test for overflow of `batch` is the wrong way round.
use solari.Base.{◌≡◌, ◌≢◌, false, arith}
use solari.Base.Int.{ℤ, ◌+ℤ◌, +ℤ_parts, -ℤ_parts, pos}
use solari.Input.State.{Limelight}
use solari.Input.Packet.{scroll, fits_short, add_overflow}
use solari.Input.Batch.{batched, batch, batch_scroll}

wrapped_ne : (x x' : ℤ) → fits_short (x +ℤ x') ≡ false → (add_overflow x x').1 ≢ x +ℤ x'
unfolding add_overflow
wrapped_ne x x' over e =
    ground (arith, +ℤ_parts x x', -ℤ_parts (x +ℤ x') (pos 65536), +ℤ_parts (x +ℤ x') (pos 65536))

-- Two scroll packets that are batched become one with another amount than the sum of theirs.
pub batch-scroll_ne :
    (lim : Limelight) (x y x' y' s t : ℤ)
    → batch lim (scroll x y) (scroll x' y') ≡ batched (scroll s t)
    → s ≢ x +ℤ x'
unfolding batch batch_scroll
batch-scroll_ne lim x y x' y' s t e = ground (arith, wrapped_ne x x')
