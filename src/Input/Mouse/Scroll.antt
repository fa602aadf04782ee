-- ===== src/Input/Mouse/Scroll.antt =====
-- input.cpp: scroll packets, and the accumulation of their amounts to full ticks.
pub mod Total
use solari.Base.{ℕ, ◌+◌, ◌*◌, ◌/◌, Bool, true, false, not, ◌&&◌, if◌then◌else◌}
use solari.Base.Int.{ℤ, pos, negsuc, ◌+ℤ◌, ◌-ℤ◌, leb_ℤ, sub_ℕ}
use solari.Input.State.{World, scroll, hscroll, emit}

-- WHEEL_DELTA.
abbrev pub wheel_delta : ℕ
wheel_delta = 120

-- `full_ticks * WHEEL_DELTA`, where `full_ticks` is the accumulated amount divided, towards zero.
unfoldable pub full_ticks : ℤ → ℤ
full_ticks (pos n) = pos (n / wheel_delta * wheel_delta)
full_ticks (negsuc n) = sub_ℕ 0 ((n + 1) / wheel_delta * wheel_delta)

abbrev pub is_zero : ℤ → Bool
is_zero z = leb_ℤ z (pos 0) && leb_ℤ (pos 0) z

-- What a packet sends, if anything, and what it leaves accumulated.
unfoldable pub accumulate : ℤ → ℤ → ℤ × ℤ
accumulate acc amount = let sum = acc +ℤ amount in (full_ticks sum, sum -ℤ full_ticks sum)

unfoldable pub passthrough_scroll : World → ℤ → World
unfolding emit
passthrough_scroll w amount =
    let (ticks, rest) = accumulate w.accumulated_vscroll_delta amount in
    let v = record w { accumulated_vscroll_delta = rest } in
    if not w.config.mouse
    then w
    else if w.config.high_resolution_scrolling
    then emit w (scroll amount)
    else if is_zero ticks
    then v
    else emit v (scroll ticks)

unfoldable pub passthrough_hscroll : World → ℤ → World
unfolding emit
passthrough_hscroll w amount =
    let (ticks, rest) = accumulate w.accumulated_hscroll_delta amount in
    let v = record w { accumulated_hscroll_delta = rest } in
    if not w.config.mouse
    then w
    else if w.config.high_resolution_scrolling
    then emit w (hscroll amount)
    else if is_zero ticks
    then v
    else emit v (hscroll ticks)
