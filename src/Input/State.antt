-- ===== src/Input/State.antt =====
-- input.cpp: the process-wide state, the state of one session's `input_t`, and the calls made of the
-- platform backend, of the mail system and of the task pool.

use mathlib.Core.Option.{Option}
use solari.Base.{ℕ, suc, List, [], ◌∷◌, Bool, false, ◌==◌, if◌then◌else◌}
use solari.Base.Int.{ℤ}
use solari.TaskPool
use solari.TaskPool.{TaskPool}

-- `button_state_e`.
pub data ButtonState : Type 0 where
  none down up : ButtonState

-- The bits of `shortcutFlags`, and those of a packet's modifiers, that the code reads.
pub record Modifiers : Type 0 where
  pub shift : Bool
  pub ctrl : Bool
  pub alt : Bool

-- `platf::gamepad_state_t`: of the button mask the code reads the bits BACK and HOME alone.
pub record GamepadState : Type 0 where
  pub back : Bool
  pub home : Bool
  pub other_buttons : ℕ
  pub axes : List ℤ

abbrev pub neutral : GamepadState
neutral = record { back = false; home = false; other_buttons = 0; axes = [] }

-- `gamepad_t`: an id of -1 is `none`; the task id is an address, 0 for none.
pub record Gamepad : Type 0 where
  pub gamepad_state : GamepadState
  pub back_timeout_id : ℕ
  pub id : Option ℕ
  pub back_button_state : ButtonState

-- Constants of moonlight-common-c, whose headers the repository takes in as a submodule.
pub record Limelight : Type 0 where
  pub button_left : ℕ
  pub button_right : ℕ
  pub touch_event_move : ℕ
  pub touch_event_hover : ℕ
  pub rot_unknown : ℕ

-- The arithmetic of `float`, over the bit patterns of its values. `norm` is the root of the sum of two
-- squares; `radians` turns degrees into an angle; the last two are an eighth of a turn, and an angle
-- with a quarter of a turn added.
pub record Floats : Type 0 where
  pub from_int : ℤ → ℕ
  pub add : ℕ → ℕ → ℕ
  pub sub : ℕ → ℕ → ℕ
  pub mul : ℕ → ℕ → ℕ
  pub div : ℕ → ℕ → ℕ
  pub clamp : ℕ → ℕ → ℕ → ℕ
  pub le : ℕ → ℕ → Bool
  pub equal : ℕ → ℕ → Bool
  pub to_int : ℕ → ℤ
  pub cos : ℕ → ℕ
  pub sin : ℕ → ℕ
  pub norm : ℕ → ℕ → ℕ
  pub radians : ℕ → ℕ
  pub eighth : ℕ
  pub add_quarter : ℕ → ℕ

-- `touch_port_t`; the client offsets and the two scalars are floats.
pub record TouchPort : Type 0 where
  pub offset_x : ℤ
  pub offset_y : ℤ
  pub width : ℤ
  pub height : ℤ
  pub env_width : ℤ
  pub env_height : ℤ
  pub client_offset_x : ℕ
  pub client_offset_y : ℕ
  pub scalar_inv : ℕ
  pub scalar_tpcoords : ℕ
  pub env_logical_width : ℤ
  pub env_logical_height : ℤ

-- `platf::touch_port_t`.
pub record Area : Type 0 where
  pub offset_x : ℤ
  pub offset_y : ℤ
  pub width : ℤ
  pub height : ℤ

-- `absolute_pointer_data_t`; the coordinates and the axes of the contact area are floats.
pub record AbsolutePointer : Type 0 where
  pub touch_port : Area
  pub x : ℕ
  pub y : ℕ
  pub rotation : ℕ
  pub major : ℕ
  pub minor : ℕ

-- What the code asks of the platform backend (`platf`) and of the mail system.
pub data Event : Type 0 where
  move_mouse : ℤ → ℤ → Event
  abs_mouse : ℤ → ℤ → ℤ → ℤ → ℕ → ℕ → Event
  button_mouse : ℕ → Bool → Event
  scroll hscroll : ℤ → Event
  keyboard_update : ℕ → Bool → ℕ → Event
  unicode : List ℕ → Event
  gamepad_update : Option ℕ → GamepadState → Event
  gamepad_cancel_touches : ℕ → ℕ → Event
  alloc_gamepad free_gamepad rebind_gamepad : ℕ → Event
  gamepad_battery : ℕ → ℕ → ℕ → ℕ → Event
  gamepad_touch : ℕ → ℕ → ℕ → ℕ → List ℕ → Event
  touch_update : AbsolutePointer → ℕ → ℕ → ℕ → Event
  pen_update : AbsolutePointer → ℕ → ℕ → ℕ → ℕ → ℕ → Event
  gamepad_motion : ℕ → ℕ → ℕ → List ℕ → Event
  switch_display : ℕ → Event
  reset_modifiers : Event

-- The closures that the code hands to the task pool.
pub data Task : Type 0 where
  left_release : Task
  repeat_key : ℕ → ℕ → Modifiers → Task
  home_button : ℕ → Task
  passthrough_next : Task
  reset_input_state : Task

-- `config::input`; `apple` stands for a build with __APPLE__.
pub record Config : Type 0 where
  pub mouse : Bool
  pub keyboard : Bool
  pub controller : Bool
  pub high_resolution_scrolling : Bool
  pub key_rightalt_to_key_win : Bool
  pub key_repeat_delay : ℤ
  pub key_repeat_period : ℕ
  pub back_button_timeout : ℤ
  pub keybindings : List (ℕ × ℕ)
  pub apple : Bool

-- The file's statics with one `input_t`. `out` lists the calls made so far, the newest first.
pub record World : Type 0 where
  pub config : Config
  pub key_press : List (ℕ × Bool)
  pub key_press_repeat_id : ℕ
  pub mouse_press : List Bool
  pub gamepad_mask : List Bool
  pub last_mode : Option Bool
  pub display_cursor : Bool
  pub task_pool : TaskPool Task
  pub next_task : ℕ
  pub now : ℕ
  pub out : List Event
  -- `input_t`
  pub shortcut_flags : Modifiers
  pub left_alt_pressed : Bool
  pub right_alt_pressed : Bool
  pub gamepads : List Gamepad
  pub touch_port_event : Option TouchPort
  pub touch_port : TouchPort
  pub mouse_left_button_timeout : ℕ
  pub accumulated_vscroll_delta : ℤ
  pub accumulated_hscroll_delta : ℤ

unfoldable pub emit : World → Event → World
emit w e = record w { out = e ∷ w.out }

-- `task_pool.pushDelayed`: addresses of new tasks are above 1, so no task is named by the pseudo
-- addresses 0 (`nullptr`, ENABLE_LEFT_BUTTON_DELAY) and 1 (DISABLE_LEFT_BUTTON_DELAY).
unfoldable pub schedule : World → ℕ → Task → ℕ × World
schedule w duration task = (
  suc (suc w.next_task),
  record w {
    task_pool = TaskPool.push_delayed w.task_pool w.now duration (suc (suc w.next_task)) task;
    next_task = suc w.next_task;
  },
)

unfoldable pub cancel_task : World → ℕ → World
cancel_task w id = record w { task_pool = (TaskPool.cancel w.task_pool id).1 }

-- The entry of a `std::unordered_map<_, bool>`; a missing key reads as false, as `operator[]` makes it.
unfoldable pub is_pressed : List (ℕ × Bool) → ℕ → Bool
is_pressed [] k = false
is_pressed ((j, b) ∷ m) k = if j == k then b else is_pressed m k

unfoldable pub set_pressed : List (ℕ × Bool) → ℕ → Bool → List (ℕ × Bool)
set_pressed [] k b = (k, b) ∷ []
set_pressed ((j, c) ∷ m) k b = if j == k then (k, b) ∷ m else (j, c) ∷ set_pressed m k b
