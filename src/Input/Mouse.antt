-- ===== src/Input/Mouse.antt =====
-- input.cpp: mouse packets, the delayed release of the left button, and the release of held buttons.
pub mod Scroll
pub mod Held
pub mod Run
use mathlib.Core.Option
use mathlib.Core.Option.{Option}
use solari.Base.{
  ℕ, ◌+◌, List, [], ◌∷◌, Bool, true, false, not, ◌&&◌, ◌||◌, ltb, ◌==◌, if◌then◌else◌, get_elem?,
  set, length,
}
use solari.Base.Int.{ℤ, pos, leb_ℤ}
use solari.Input.State.{
  Limelight, Floats, TouchPort, World, Event, Task, move_mouse, abs_mouse, button_mouse, emit,
  schedule, cancel_task,
}

abbrev pub enable_left_button_delay : ℕ
enable_left_button_delay = 0

abbrev pub disable_left_button_delay : ℕ
disable_left_button_delay = 1

-- `mouse_press.size()`.
abbrev pub mouse_press_size : ℕ
mouse_press_size = 5

-- An entry of `mouse_press`.
abbrev pub pressed : List Bool → ℕ → Bool
pressed m b = elim (get_elem? m b) [ Option.none ↦ false | Option.some held ↦ held ]

abbrev is_zero : ℤ → Bool
is_zero z = leb_ℤ z (pos 0) && leb_ℤ (pos 0) z

-- `!=` between a mode and the last one, of which there is none at first.
abbrev pub changes : Option Bool → Bool → Bool
changes (Option.some true) b = not b
changes (Option.some false) b = b
changes Option.none b = true

-- Only in a build with __APPLE__; callers test for that.
unfoldable pub sync_cursor_composition : World → Bool → World
sync_cursor_composition w relative_mode =
    if w.config.apple && changes w.last_mode relative_mode
    then record w { last_mode = Option.some relative_mode; display_cursor = relative_mode }
    else w

unfoldable pub passthrough_rel : World → ℤ → ℤ → World
unfolding emit sync_cursor_composition
passthrough_rel w delta_x delta_y =
    let v = record (sync_cursor_composition w true) {
      mouse_left_button_timeout = disable_left_button_delay;
    } in
    if w.config.mouse then emit v (move_mouse delta_x delta_y) else w

-- `touch_port_t::operator bool`.
unfoldable pub is_set : TouchPort → Bool
is_set t =
    not (is_zero t.width)
    && not (is_zero t.height)
    && not (is_zero t.env_width)
    && not (is_zero t.env_height)

-- `peek` and `pop` of the touch port's event.
unfoldable pub refresh_touch_port : World → World
refresh_touch_port w = elim w.touch_port_event [
  | Option.none ↦ w
  | Option.some t ↦ record w { touch_port_event = Option.none; touch_port = t }
]

module _ (fl : Floats) where
  -- One axis of `client_to_touchport`: the port's size and offset, the client's offset, the value and
  -- the size of the client's surface.
  unfoldable pub to_touchport_axis : TouchPort → ℤ → ℤ → ℕ → ℕ → ℕ → ℕ
  to_touchport_axis t extent offset client_offset val size =
      let scalar = fl.div (fl.from_int extent) size in
      let x = fl.mul (fl.clamp val (fl.from_int (pos 0)) size) scalar in
      let x₁ = fl.clamp x client_offset (fl.sub (fl.mul size scalar) client_offset) in
      let x₂ = fl.mul (fl.sub x₁ client_offset) t.scalar_inv in
      fl.div (fl.add x₂ (fl.mul (fl.from_int offset) t.scalar_tpcoords)) t.scalar_tpcoords

  unfoldable pub client_to_touchport : TouchPort → ℕ → ℕ → ℕ → ℕ → Option (ℕ × ℕ)
  unfolding to_touchport_axis is_set
  client_to_touchport t x y width height =
      if is_set t
      then Option.some (
        to_touchport_axis t t.width t.offset_x t.client_offset_x x width,
        to_touchport_axis t t.height t.offset_y t.client_offset_y y height,
      )
      else Option.none

  -- The last part of the handler, with the dimensions that it chooses for the port.
  unfoldable pub send_abs : World → ℕ × ℕ → World
  unfolding emit
  send_abs w (x, y) =
      let t = w.touch_port in
      let logical = not (is_zero t.env_logical_width) && not (is_zero t.env_logical_height) in
      let dim_x = if logical then t.env_logical_width else t.env_width in
      let dim_y = if logical then t.env_logical_height else t.env_height in
      emit w (abs_mouse t.offset_x t.offset_y dim_x dim_y x y)

  -- An absolute position makes the release of the left button a delayed one again.
  unfoldable pub enable_delay : World → World
  enable_delay w =
      if w.mouse_left_button_timeout == disable_left_button_delay
      then record w { mouse_left_button_timeout = enable_left_button_delay }
      else w

  unfoldable pub passthrough_abs : World → ℤ → ℤ → ℤ → ℤ → World
  unfolding enable_delay sync_cursor_composition refresh_touch_port
  passthrough_abs w x y width height =
      let v = enable_delay (sync_cursor_composition w false) in
      let u = refresh_touch_port v in
      let coords =
        client_to_touchport u.touch_port (fl.from_int x) (fl.from_int y) (fl.from_int width)
          (fl.from_int height) in
      if not w.config.mouse
      then w
      else if is_zero width || is_zero height
      then v
      else elim coords [ Option.none ↦ u | Option.some c ↦ send_abs u c ]

module _ (lim : Limelight) where
  -- The closure that releases the left button 10 ms later, unless it was pressed again.
  unfoldable pub run_left_release : World → World
  unfolding emit
  run_left_release w =
      if pressed w.mouse_press lim.button_left
      then w
      else record (emit w (button_mouse lim.button_left true)) {
        mouse_press = set w.mouse_press lim.button_left false;
        mouse_left_button_timeout = enable_left_button_delay;
      }

  -- The handler's calls, once the state of the button is stored.
  unfoldable pub send_button : World → Bool → ℕ → World
  unfolding emit schedule
  send_button w release button =
      let t = w.mouse_left_button_timeout in
      let (id, later) = schedule w 10 Task.left_release in
      if button == lim.button_left && release && t == enable_left_button_delay
      then record later { mouse_left_button_timeout = id }
      else if button == lim.button_right && not release && ltb disable_left_button_delay t
      then record (emit (emit w (button_mouse button false)) (button_mouse button true)) {
        mouse_press = set w.mouse_press button false;
      }
      else emit w (button_mouse button release)

  unfoldable pub passthrough_button : World → Bool → ℕ → World
  passthrough_button w release button =
      let tracked = ltb 0 button && ltb button mouse_press_size in
      let stored = record w { mouse_press = set w.mouse_press button (not release) } in
      let same = if pressed w.mouse_press button then not release else release in
      if not w.config.mouse
      then w
      else if tracked && same
      then w
      else send_button (if tracked then stored else w) release button

-- The loop of `reset_mouse_buttons`, from the button `b` on.
unfoldable pub release_buttons : World → ℕ → List Bool → World
unfolding emit
release_buttons w b [] = w
release_buttons w b (held ∷ m) =
    release_buttons (if held then emit w (button_mouse b true) else w) (b + 1) m

unfoldable pub all_up : List Bool → List Bool
all_up [] = []
all_up (held ∷ m) = false ∷ all_up m

unfoldable pub reset_mouse_buttons : World → World
unfolding release_buttons all_up
reset_mouse_buttons w =
    let w' = release_buttons w 0 w.mouse_press in record w' { mouse_press = all_up w.mouse_press }
