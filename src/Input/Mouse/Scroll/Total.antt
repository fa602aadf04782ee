-- ===== src/Input/Mouse/Scroll/Total.antt =====
-- input.cpp: no scrolling is lost or made up, whatever the sizes of the packets.
use solari.Base.{
  ℕ, ◌+◌, ◌*◌, ◌/◌, ◌≤◌, ◌<◌, ◌≡◌, refl, ap, ◌∙◌, true, arith, List, [], ◌∷◌, Bool-cases, inl, inr,
}
use solari.Base.Int.{ℤ, pos, negsuc, pos_part, neg_part, ◌+ℤ◌, ◌-ℤ◌, int_laws}
use solari.Input.State.{World, Event, scroll}
use solari.Input.Mouse.Scroll.{wheel_delta, full_ticks, accumulate, passthrough_scroll, is_zero}

-- Less than a tick in either direction.
abbrev pub IsRest : ℤ → Type 0
IsRest z = (pos_part z < wheel_delta) × (neg_part z < wheel_delta)

full_ticks-IsRest : (z : ℤ) → IsRest (z -ℤ full_ticks z)
unfolding full_ticks ◌-ℤ◌
full_ticks-IsRest (pos n) = ground arith
full_ticks-IsRest (negsuc n) = ground arith

full_ticks_whole :
    (z : ℤ)
    → pos_part (full_ticks z) + neg_part (full_ticks z)
      ≡ (pos_part z + neg_part z) / wheel_delta * wheel_delta
unfolding full_ticks
full_ticks_whole (pos n) = omega arith
full_ticks_whole (negsuc n) = ground arith

-- What a packet sends is a whole number of ticks, what it leaves is less than a tick, and together
-- they are what was accumulated and came.
pub accumulate_lem :
    (acc amount : ℤ)
    → let (ticks, rest) = accumulate acc amount in
      (ticks +ℤ rest ≡ acc +ℤ amount)
      × IsRest rest
      × ((n : ℕ) × (pos_part ticks + neg_part ticks ≡ n * wheel_delta))
unfolding accumulate
accumulate_lem acc amount =
    let sum = acc +ℤ amount in
    (
      omega int_laws,
      full_ticks-IsRest sum,
      ((pos_part sum + neg_part sum) / wheel_delta, full_ticks_whole sum),
    )

-- The amounts handed to `platf::scroll`, added up.
unfoldable pub total_scroll : List Event → ℤ
total_scroll [] = pos 0
total_scroll (scroll d ∷ es) = d +ℤ total_scroll es
total_scroll (_ ∷ es) = total_scroll es

unfoldable pub sum : List ℤ → ℤ
sum [] = pos 0
sum (a ∷ rest) = a +ℤ sum rest

unfoldable pub run_scroll : World → List ℤ → World
run_scroll w [] = w
run_scroll w (a ∷ rest) = run_scroll (passthrough_scroll w a) rest

is_zero-eq : (z : ℤ) → is_zero z ≡ true → z ≡ pos 0
is_zero-eq z h = ground arith

-- One packet, with `t` sent before and `acc` accumulated.
accumulate_total :
    (t acc amount : ℤ)
    → let (ticks, rest) = accumulate acc amount in ticks +ℤ t +ℤ rest ≡ t +ℤ acc +ℤ amount
accumulate_total t acc amount =
    let facts = accumulate_lem acc amount in
    omega (int_laws, ap pos_part facts.0, ap neg_part facts.0)

-- What a scroll packet does to the two amounts, in each mode.
record Scrolled (w v : World) (a : ℤ) : Type 0 where
  total :
      total_scroll v.out +ℤ v.accumulated_vscroll_delta
      ≡ total_scroll w.out +ℤ w.accumulated_vscroll_delta +ℤ a
  config : v.config ≡ w.config
  rest : IsRest w.accumulated_vscroll_delta → IsRest v.accumulated_vscroll_delta

passthrough_scroll-Scrolled :
    (w : World) (a : ℤ) → w.config.mouse ≡ true → Scrolled w (passthrough_scroll w a) a
unfolding passthrough_scroll total_scroll
passthrough_scroll-Scrolled w a on =
    let acc = w.accumulated_vscroll_delta in
    let (ticks, rest) = accumulate acc a in
    let facts = accumulate_lem acc a in
    let whole = accumulate_total (total_scroll w.out) acc a in
    elim (Bool-cases w.config.high_resolution_scrolling) [
      | inl high ↦ rw (on, high) (record { total = omega int_laws; config = refl; rest = λ h. h })
      | inr low ↦ elim (Bool-cases (is_zero ticks)) [
        | inl none_sent ↦
            let e = is_zero-eq ticks none_sent in
            rw (on, low, none_sent)
              (record {
                total =
                    omega (
                      int_laws,
                      ap pos_part e,
                      ap neg_part e,
                      ap pos_part whole,
                      ap neg_part whole,
                    );
                config = refl;
                rest = λ h. facts.1;
              })
        | inr sent ↦
            rw (on, low, sent) (record { total = whole; config = refl; rest = λ h. facts.1 })
      ]
    ]

-- With the mouse enabled, in either scrolling mode: over any sequence of vertical scroll packets,
-- what is sent to the platform and what stays accumulated add up to what was there and what came,
-- and if less than a tick was accumulated at first, less than a tick is at the end.
pub run_scroll_total :
    (w : World) (amounts : List ℤ)
    → w.config.mouse ≡ true
    → IsRest w.accumulated_vscroll_delta
    → let v = run_scroll w amounts in
      (total_scroll v.out +ℤ v.accumulated_vscroll_delta
        ≡ total_scroll w.out +ℤ w.accumulated_vscroll_delta +ℤ sum amounts)
      × IsRest v.accumulated_vscroll_delta
unfolding run_scroll sum
run_scroll_total w [] on small = (omega int_laws, small)
run_scroll_total w (a ∷ rest) on small =
    let step = passthrough_scroll-Scrolled w a on in
    let v = passthrough_scroll w a in
    let later = run_scroll_total v rest (ap (λ c. c.mouse) step.config ∙ on) (step.rest small) in
    (
      omega (
        int_laws,
        ap pos_part later.0,
        ap neg_part later.0,
        ap pos_part step.total,
        ap neg_part step.total,
      ),
      later.1,
    )

-- With less than a tick accumulated and an amount of 16 bits, the 32-bit sum does not overflow.
pub accumulate_bounds :
    (acc amount : ℤ)
    → IsRest acc
    → pos_part amount ≤ 32767
    → neg_part amount ≤ 32768
    → (pos_part (acc +ℤ amount) ≤ 2147483647) × (neg_part (acc +ℤ amount) ≤ 2147483648)
unfolding ◌+ℤ◌
accumulate_bounds acc amount small p n = ground arith
