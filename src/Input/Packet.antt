-- ===== src/Input/Packet.antt =====
-- input.cpp: the packets of the input stream, with the fields that the code reads, and the limits of
-- their 16-bit amounts. A packet's type (its magic number) is its constructor.
use solari.Base.{ℕ, List, Bool, not, ◌&&◌, if◌then◌else◌}
use solari.Base.Int.{ℤ, pos, negsuc, ◌+ℤ◌, ◌-ℤ◌, leb_ℤ, ltb_ℤ}
use solari.Input.Keyboard.{KeyboardPacket}

-- `NV_MULTI_CONTROLLER_PACKET`; `axes` are the triggers and the sticks.
pub record ControllerPacket : Type 0 where
  pub controller_number : ℕ
  pub active_gamepad_mask : ℕ
  pub button_flags : ℕ
  pub button_flags2 : ℕ
  pub axes : List ℤ

-- `SS_TOUCH_PACKET`, `SS_PEN_PACKET`, `SS_CONTROLLER_TOUCH_PACKET`, `SS_CONTROLLER_MOTION_PACKET`; the
-- position and the other amounts are the bit patterns of floats, those of a controller in `values`.
pub record TouchPacket : Type 0 where
  pub event_type : ℕ
  pub rotation : ℕ
  pub pointer_id : ℕ
  pub x : ℕ
  pub y : ℕ
  pub pressure_or_distance : ℕ
  pub contact_area_major : ℕ
  pub contact_area_minor : ℕ

pub record PenPacket : Type 0 where
  pub event_type : ℕ
  pub tool_type : ℕ
  pub pen_buttons : ℕ
  pub tilt : ℕ
  pub rotation : ℕ
  pub x : ℕ
  pub y : ℕ
  pub pressure_or_distance : ℕ
  pub contact_area_major : ℕ
  pub contact_area_minor : ℕ

pub record ControllerTouchPacket : Type 0 where
  pub controller_number : ℕ
  pub event_type : ℕ
  pub pointer_id : ℕ
  pub values : List ℕ

pub record MotionPacket : Type 0 where
  pub controller_number : ℕ
  pub motion_type : ℕ
  pub values : List ℕ

pub data Packet : Type 0 where
  rel_mouse_move : ℤ → ℤ → Packet
  abs_mouse_move : ℤ → ℤ → ℤ → ℤ → Packet
  mouse_button : Bool → ℕ → Packet
  scroll : ℤ → ℤ → Packet
  hscroll : ℤ → Packet
  keyboard : KeyboardPacket → Packet
  unicode : List ℕ → Packet
  multi_controller : ControllerPacket → Packet
  touch : TouchPacket → Packet
  pen : PenPacket → Packet
  controller_arrival : ℕ → Packet
  controller_touch : ControllerTouchPacket → Packet
  controller_motion : MotionPacket → Packet
  controller_battery : ℕ → ℕ → ℕ → Packet

-- The values of `short`.
abbrev pub fits_short : ℤ → Bool
fits_short z = leb_ℤ (negsuc 32767) z && leb_ℤ z (pos 32767)

-- `__builtin_add_overflow` into a `short`: whether the sum overflows, and the sum as it is stored.
unfoldable pub add_overflow : ℤ → ℤ → Bool × ℤ
add_overflow a b =
    let sum = a +ℤ b in
    (
      not (fits_short sum),
      if fits_short sum
          then sum
          else if ltb_ℤ (pos 0) sum
          then sum -ℤ pos 65536
          else sum +ℤ pos 65536,
    )
