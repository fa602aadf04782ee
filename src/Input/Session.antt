-- ===== src/Input/Session.antt =====
-- input.cpp: the queue of a session's packets, the tasks of the worker, and the reset of a session.
pub mod Reset
pub mod Queue
use mathlib.Core.Option.{Option}
use solari.Base.{
  ℕ, ◌-◌, ◌*◌, ◌/◌, ◌%◌, ◌^◌, ◌+◌, List, [], ◌∷◌, ◌++◌, Bool, true, false, ◌==◌, if◌then◌else◌,
}
use solari.TaskPool
use solari.TaskPool.{TaskPool}
use solari.Input.State.{
  Limelight, Floats, GamepadState, World, Event, Task, reset_modifiers, emit, cancel_task,
}
use solari.Input.State
use solari.Input.Packet.{Packet, ControllerPacket}
use solari.Input.Keyboard
use solari.Input.Mouse
use solari.Input.Mouse.Scroll
use solari.Input.Gamepad
use solari.Input.Gamepad.{Backend}
use solari.Input.Pointer
use solari.Input.Batch

-- The state with the session's `input_queue`, the oldest packet first.
pub record Session : Type 0 where
  pub world : World
  pub input_queue : List Packet

-- Bit `n` of a mask.
unfoldable pub bit : ℕ → ℕ → Bool
bit mask n = mask / 2 ^ n % 2 == 1

-- BACK is 0x0020 and HOME is 0x0400.
unfoldable pub gamepad_state : ControllerPacket → GamepadState
unfolding bit
gamepad_state c = record {
  back = bit c.button_flags 5;
  home = bit c.button_flags 10;
  other_buttons =
      c.button_flags
      - (c.button_flags / 32 % 2) * 32
      - (c.button_flags / 1024 % 2) * 1024
      + c.button_flags2 * 65536;
  axes = c.axes;
}

-- `passthrough` of the control stream's thread.
unfoldable pub enqueue : Session → Packet → Session
enqueue s p =
    let pool = TaskPool.push s.world.task_pool Task.passthrough_next in
    record { world = record (s.world) { task_pool = pool }; input_queue = s.input_queue ++ p ∷ [] }

unfoldable pub reset_input_state : World → World
unfolding emit
reset_input_state w =
    let v = Gamepad.reset_gamepads (Keyboard.reset_keyboard_keys (Mouse.reset_mouse_buttons w)) in
    if w.config.apple then emit v reset_modifiers else v

-- `reset`: the two delayed tasks are cancelled at once, the rest is done by the worker.
unfoldable pub reset : World → World
unfolding cancel_task
reset w =
    let v = cancel_task (cancel_task w w.key_press_repeat_id) w.mouse_left_button_timeout in
    record v { task_pool = TaskPool.push v.task_pool Task.reset_input_state }

module _ (lim : Limelight) (fl : Floats) (backend : Backend) where
  -- The `switch` of `passthrough_next_message`.
  unfoldable pub dispatch : World → Packet → World
  dispatch w (Packet.rel_mouse_move x y) = Mouse.passthrough_rel w x y
  dispatch w (Packet.abs_mouse_move x y width height) = Mouse.passthrough_abs fl w x y width height
  dispatch w (Packet.mouse_button release b) = Mouse.passthrough_button lim w release b
  dispatch w (Packet.scroll a b) = Scroll.passthrough_scroll w a
  dispatch w (Packet.hscroll a) = Scroll.passthrough_hscroll w a
  dispatch w (Packet.keyboard p) = Keyboard.passthrough w p
  dispatch w (Packet.unicode text) = if w.config.keyboard then emit w (Event.unicode text) else w
  dispatch w (Packet.multi_controller c) =
      Gamepad.passthrough_controller backend w c.controller_number
        (bit c.active_gamepad_mask c.controller_number) (gamepad_state c)
  dispatch w (Packet.touch t) = Pointer.passthrough_touch lim fl w t
  dispatch w (Packet.pen p) = Pointer.passthrough_pen lim fl w p
  dispatch w (Packet.controller_arrival n) = Gamepad.passthrough_arrival backend w n
  dispatch w (Packet.controller_touch t) =
      Gamepad.passthrough_touch fl w t.controller_number t.event_type t.pointer_id t.values
  dispatch w (Packet.controller_motion m) =
      Gamepad.passthrough_motion w m.controller_number m.motion_type m.values
  dispatch w (Packet.controller_battery n state percentage) =
      Gamepad.passthrough_battery w n state percentage

  unfoldable pub passthrough_next_message : Session → Session
  passthrough_next_message s = elim s.input_queue [
    | [] ↦ s
    | p ∷ queue ↦
        let (sent, rest) = Batch.batch_queue lim p queue in
        record { world = dispatch s.world sent; input_queue = rest }
  ]

  -- What the worker runs.
  unfoldable pub run_task : Session → Task → Session
  run_task s Task.left_release = record s { world = Mouse.run_left_release lim s.world }
  run_task s (Task.repeat_key k flags m) = record s {
    world = Keyboard.run_repeat_key s.world k flags m;
  }
  run_task s (Task.home_button index) = record s { world = Gamepad.run_home_button s.world index }
  run_task s Task.passthrough_next = passthrough_next_message s
  run_task s Task.reset_input_state = record s { world = reset_input_state s.world }
