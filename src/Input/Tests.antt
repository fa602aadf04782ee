-- ===== src/Input/Tests.antt =====
-- input.cpp: states and packets on which the theorems apply.
use mathlib.Core.Option.{Option}
use mathlib.Core.Bool.{false≢true}
use solari.Base.{
  ℕ, zero, suc, ◌+◌, ◌<◌, ◌≡◌, ◌≢◌, refl, sym, true, false, arith, List, [], ◌∷◌, get_elem?, ◌==◌,
}
use solari.Base.Int.{ℤ, pos, negsuc, pos_part, ◌+ℤ◌}
use solari.Input.State.{
  ButtonState, Modifiers, neutral, Gamepad, Limelight, Floats, TouchPort, Config, World, is_pressed,
  button_mouse,
}
use solari.Input.Keyboard.{KeyboardPacket, reset_keyboard_keys}
use solari.Input.Keyboard.Held.{held_key}
use solari.Input.Keyboard.Reset as KeyReset
use solari.Input.Keyboard.Reset.{reset-run, pressed-passthrough}
use solari.Input.Mouse.{passthrough_button, mouse_press_size, pressed}
use solari.Input.Mouse.Scroll.Total.{run_scroll, total_scroll, sum, IsRest, run_scroll_total}
use solari.Input.Mouse.Held.{InSync, held_button, waits}
use solari.Input.Mouse.Run as MouseRun
use solari.Input.Mouse.Run.{run-InSync}
use solari.Input.Gamepad.{Backend}
use solari.Input.Gamepad.Slots.{Owned}
use solari.Input.Gamepad.Owners as GamepadRun
use solari.Input.Gamepad.Owners.{run-Owned}
use solari.Input.Packet.{Packet}
use solari.Input.Batch.{batch_queue}
use solari.Input.Batch.Merge.{Batched, batch_queue-Batched}
use solari.Input.Session.{Session, reset, reset_input_state}
use solari.Input.Session.Queue.{drain, drain-empty}
use solari.Input.Session.Reset.{reset_input_state-releases, reset-left_held}

abbrev lim : Limelight
lim = record {
  button_left = 1;
  button_right = 3;
  touch_event_move = 3;
  touch_event_hover = 0;
  rot_unknown = 65535;
}

-- Whole numbers in place of floats.
abbrev fl : Floats
fl = record {
  from_int = λ z. pos_part z;
  add = λ a b. a + b;
  sub = λ a b. a;
  mul = λ a b. a;
  div = λ a b. a;
  clamp = λ v lo hi. v;
  le = λ a b. a == b;
  equal = λ a b. a == b;
  to_int = λ a. pos a;
  cos = λ a. a;
  sin = λ a. a;
  norm = λ a b. a + b;
  radians = λ a. a;
  eighth = 1;
  add_quarter = λ a. a + 1;
}

abbrev willing : Backend
willing = record { alloc_fails = λ es id index. false; rebind_fails = λ es id index. false }

abbrev config : Config
config = record {
  mouse = true;
  keyboard = true;
  controller = true;
  high_resolution_scrolling = false;
  key_rightalt_to_key_win = false;
  key_repeat_delay = pos 500;
  key_repeat_period = 40;
  back_button_timeout = pos 2000;
  keybindings = (0x10, 0xA0) ∷ (0x11, 0xA2) ∷ [];
  apple = false;
}

abbrev port : TouchPort
port = record {
  offset_x = pos 0;
  offset_y = pos 0;
  width = pos 1920;
  height = pos 1080;
  env_width = pos 1920;
  env_height = pos 1080;
  client_offset_x = 0;
  client_offset_y = 0;
  scalar_inv = 1;
  scalar_tpcoords = 1;
  env_logical_width = pos 1920;
  env_logical_height = pos 1080;
}

abbrev no_modifiers : Modifiers
no_modifiers = record { shift = false; ctrl = false; alt = false }

abbrev bare : Gamepad
bare = record {
  gamepad_state = neutral;
  back_timeout_id = 0;
  id = Option.none;
  back_button_state = ButtonState.none;
}

abbrev idle : World
idle = record {
  config = config;
  key_press = [];
  key_press_repeat_id = 0;
  mouse_press = false ∷ false ∷ false ∷ false ∷ false ∷ [];
  gamepad_mask = false ∷ false ∷ [];
  last_mode = Option.none;
  display_cursor = true;
  task_pool = record { tasks = []; timer_tasks = [] };
  next_task = 0;
  now = 1000;
  out = [];
  shortcut_flags = no_modifiers;
  left_alt_pressed = false;
  right_alt_pressed = false;
  gamepads = bare ∷ bare ∷ bare ∷ [];
  touch_port_event = Option.some port;
  touch_port = port;
  mouse_left_button_timeout = 0;
  accumulated_vscroll_delta = pos 0;
  accumulated_hscroll_delta = pos 0;
}

quiet_buttons : (b : ℕ) → pressed idle.mouse_press b ≡ false
quiet_buttons zero = refl
quiet_buttons (suc zero) = refl
quiet_buttons (suc (suc zero)) = refl
quiet_buttons (suc (suc (suc zero))) = refl
quiet_buttons (suc (suc (suc (suc zero)))) = refl
quiet_buttons (suc (suc (suc (suc (suc b))))) = refl

idle-InSync : InSync lim idle
unfolding held_button
idle-InSync = record {
  size = refl;
  left = λ held. absurd (false≢true held);
  others = λ b small positive ne. sym (quiet_buttons b);
}

-- The left button goes down and up in absolute mode, then the worker releases it; the right one stays.
abbrev clicks : List MouseRun.Step
clicks =
    MouseRun.abs (pos 10) (pos 20) (pos 1920) (pos 1080)
    ∷ MouseRun.click false 1
    ∷ MouseRun.click true 1
    ∷ MouseRun.worker 1010
    ∷ MouseRun.click false 3
    ∷ []

run-InSync_example : InSync lim (MouseRun.run lim fl idle clicks)
run-InSync_example = run-InSync lim (omega arith) (omega arith) fl idle clicks idle-InSync

abbrev key_down : ℕ → KeyboardPacket
key_down k = record { release = false; key_code = k; modifiers = no_modifiers; flags = 0 }

abbrev key_up : ℕ → KeyboardPacket
key_up k = record { release = true; key_code = k; modifiers = no_modifiers; flags = 0 }

abbrev typing : List KeyReset.Step
typing =
    KeyReset.packet (key_down 0x8010)
    ∷ KeyReset.packet (key_down 0x8041)
    ∷ KeyReset.repeat 0x41 0 no_modifiers
    ∷ KeyReset.packet (key_up 0x8041)
    ∷ []

reset-run_example :
    (held_key (reset_keyboard_keys (KeyReset.run idle typing)).out 0xA0 ≡ false)
    × (is_pressed (reset_keyboard_keys (KeyReset.run idle typing)).key_press 0xA0 ≡ false)
unfolding held_key
reset-run_example = reset-run idle typing (λ j. refl) (tt, (tt, (omega arith, (tt, tt)))) 0xA0

abbrev wheel : List ℤ
wheel = pos 50 ∷ pos 100 ∷ negsuc 259 ∷ []

run_scroll_total_example :
    let v = run_scroll idle wheel in
    (total_scroll v.out +ℤ v.accumulated_vscroll_delta
      ≡ total_scroll idle.out +ℤ idle.accumulated_vscroll_delta +ℤ sum wheel)
    × IsRest v.accumulated_vscroll_delta
run_scroll_total_example = run_scroll_total idle wheel refl (omega arith, omega arith)

idle-Owned : Owned idle
idle-Owned = record {
  marked = λ i k g here has. absurd (no_slot i k g here has);
  apart = λ i j k g h here there has has'. absurd (no_slot i k g here has);
}
  where
    no_slot :
        (i k : ℕ) (g : Gamepad)
        → get_elem? idle.gamepads i ≡ Option.some g
        → g.id ≡ Option.some k
        → ⊥
    no_slot zero k g here has = ground arith
    no_slot (suc zero) k g here has = ground arith
    no_slot (suc (suc zero)) k g here has = ground arith
    no_slot (suc (suc (suc i))) k g here has = ground arith

-- Two controllers come, the second one goes, and the third takes its slot.
abbrev plugging : List GamepadRun.Step
plugging =
    GamepadRun.arrival 0
    ∷ GamepadRun.controller 1 true neutral
    ∷ GamepadRun.controller 1 false neutral
    ∷ GamepadRun.controller 2 true neutral
    ∷ GamepadRun.home 2
    ∷ []

run-Owned_example : Owned (GamepadRun.run willing idle plugging)
run-Owned_example = run-Owned willing idle plugging idle-Owned

abbrev first_packet : Packet
first_packet = Packet.abs_mouse_move (pos 1) (pos 1) (pos 100) (pos 100)

abbrev queue : List Packet
queue =
    Packet.abs_mouse_move (pos 2) (pos 2) (pos 100) (pos 100)
    ∷ Packet.keyboard (key_down 0x41)
    ∷ Packet.abs_mouse_move (pos 3) (pos 3) (pos 100) (pos 100)
    ∷ []

batch_queue-Batched_example :
    let (sent, rest) = batch_queue lim first_packet queue in
    Batched lim first_packet queue sent rest
batch_queue-Batched_example = batch_queue-Batched lim first_packet queue

abbrev loaded : Session
loaded = record { world = idle; input_queue = first_packet ∷ queue }

drain-empty_example : (drain lim fl willing 4 loaded).input_queue ≡ []
drain-empty_example = drain-empty lim fl willing 4 loaded (omega arith)

-- The right button is held.
abbrev right_down : World
right_down = record idle {
  mouse_press = false ∷ false ∷ false ∷ true ∷ false ∷ [];
  out = button_mouse 3 false ∷ [];
}

right_down-InSync : InSync lim right_down
unfolding held_button waits
right_down-InSync = record { size = refl; left = λ held. absurd (false≢true held); others = same }
  where
    same :
        (b : ℕ)
        → b < mouse_press_size
        → 0 < b
        → b ≢ 1
        → held_button right_down.out b ≡ pressed right_down.mouse_press b
    same zero small positive ne = refl
    same (suc zero) small positive ne = refl
    same (suc (suc zero)) small positive ne = refl
    same (suc (suc (suc zero))) small positive ne = refl
    same (suc (suc (suc (suc b)))) small positive ne = ground arith

reset_input_state-releases_example : held_button (reset_input_state right_down).out 3 ≡ false
unfolding waits
reset_input_state-releases_example =
    reset_input_state-releases lim right_down 3 right_down-InSync refl (omega arith) (omega arith)

abbrev left_down : World
left_down = record idle {
  mouse_press = false ∷ true ∷ false ∷ false ∷ false ∷ [];
  out = button_mouse 1 false ∷ [];
}

reset-left_held_example :
    let v = reset (passthrough_button lim left_down true 1) in
    (v.task_pool.timer_tasks ≡ []) × (held_button (reset_input_state v).out 1 ≡ true)
unfolding held_button
reset-left_held_example =
    reset-left_held lim left_down refl (omega arith) (omega arith) refl refl refl refl refl refl
