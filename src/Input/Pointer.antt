-- ===== src/Input/Pointer.antt =====
-- input.cpp: touch and pen packets.
use mathlib.Core.Option.{Option}
use solari.Base.{ℕ, ◌%◌, not, ◌||◌, ◌==◌, if◌then◌else◌}
use solari.Base.Int.{pos}
use solari.Input.State.{
  Limelight, Floats, TouchPort, Area, AbsolutePointer, World, emit, touch_update, pen_update,
}
use solari.Input.Packet.{TouchPacket, PenPacket}
use solari.Input.Mouse.{refresh_touch_port, client_to_touchport}

module _ (fl : Floats) where
  unfoldable pub from_clamped_netfloat : ℕ → ℕ
  from_clamped_netfloat f = fl.clamp f (fl.from_int (pos 0)) (fl.from_int (pos 1))

  unfoldable pub multiply_polar_by_cartesian_scalar : ℕ → ℕ → ℕ × ℕ → ℕ
  multiply_polar_by_cartesian_scalar r angle (scalar_x, scalar_y) =
      let x = fl.mul (fl.mul r (fl.cos angle)) scalar_x in
      let y = fl.mul (fl.mul r (fl.sin angle)) scalar_y in fl.norm x y

  -- `monitor_touch_port`, with the coordinates that it normalises in place.
  unfoldable pub monitor_touch_port : TouchPort → ℕ × ℕ → Option (Area × ℕ × ℕ)
  monitor_touch_port t (x, y) =
      let w = fl.div (fl.mul (fl.from_int t.width) t.scalar_inv) t.scalar_tpcoords in
      let h = fl.div (fl.mul (fl.from_int t.height) t.scalar_inv) t.scalar_tpcoords in
      let area : Area = record {
        offset_x = t.offset_x;
        offset_y = t.offset_y;
        width = fl.to_int w;
        height = fl.to_int h;
      } in
      if fl.le w (fl.from_int (pos 0)) || fl.le h (fl.from_int (pos 0))
      then Option.none
      else Option.some (
        area,
        fl.div (fl.sub x (fl.from_int t.offset_x)) w,
        fl.div (fl.sub y (fl.from_int t.offset_y)) h,
      )

  -- A share of the surface of 65535 by 65535 that the packets' positions are on.
  unfoldable pub on_surface : ℕ → ℕ
  unfolding from_clamped_netfloat
  on_surface f = fl.mul (from_clamped_netfloat f) (fl.from_int (pos 65535))

module _ (lim : Limelight) (fl : Floats) where
  -- With no minor axis the touch is taken as a circle.
  unfoldable pub scale_client_contact_area : ℕ × ℕ → ℕ → ℕ × ℕ → ℕ × ℕ
  unfolding multiply_polar_by_cartesian_scalar
  scale_client_contact_area (major, first_minor) rotation scalar =
      let angle = if rotation == lim.rot_unknown then fl.eighth else fl.radians rotation in
      let minor = if fl.equal first_minor (fl.from_int (pos 0)) then major else first_minor in
      (
        multiply_polar_by_cartesian_scalar fl major angle scalar,
        multiply_polar_by_cartesian_scalar fl minor (fl.add_quarter angle) scalar,
      )

  -- The end of `prepare_absolute_pointer_data`, for a valid port.
  unfoldable pub pointer_data : Area × ℕ × ℕ → ℕ → ℕ → ℕ → AbsolutePointer
  unfolding on_surface
  pointer_data (area, x, y) rotation major minor =
      let turned = if rotation == lim.rot_unknown then rotation else rotation % 360 in
      let full = fl.from_int (pos 65535) in
      let scalar : ℕ × ℕ =
        (fl.div (fl.from_int area.width) full, fl.div (fl.from_int area.height) full) in
      let contact =
        scale_client_contact_area (on_surface fl major, on_surface fl minor) turned scalar in
      record {
        touch_port = area;
        x = x;
        y = y;
        rotation = turned;
        major = contact.0;
        minor = contact.1;
      }

  -- Position, rotation and contact axes of a packet; the touch port is read anew in any case but that
  -- of a disabled mouse.
  unfoldable pub prepare_absolute_pointer_data :
      World → ℕ → ℕ → ℕ → ℕ → ℕ → Option AbsolutePointer × World
  unfolding on_surface
  prepare_absolute_pointer_data w x y rotation major minor =
      let v = refresh_touch_port w in
      let full = fl.from_int (pos 65535) in
      let coords =
        client_to_touchport fl v.touch_port (on_surface fl x) (on_surface fl y) full full in
      if not w.config.mouse then (Option.none, w) else elim coords [
        | Option.none ↦ (Option.none, v)
        | Option.some c ↦ elim (monitor_touch_port fl v.touch_port c) [
          | Option.none ↦ (Option.none, v)
          | Option.some port ↦ (Option.some (pointer_data port rotation major minor), v)
        ]
      ]

  unfoldable pub passthrough_touch : World → TouchPacket → World
  unfolding emit from_clamped_netfloat
  passthrough_touch w t =
      let (prepared, v) =
        prepare_absolute_pointer_data w t.x t.y t.rotation t.contact_area_major
          t.contact_area_minor in
      let pressure = from_clamped_netfloat fl t.pressure_or_distance in
      elim prepared [
        | Option.none ↦ v
        | Option.some d ↦ emit v (touch_update d t.event_type t.pointer_id pressure)
      ]

  unfoldable pub passthrough_pen : World → PenPacket → World
  unfolding emit from_clamped_netfloat
  passthrough_pen w p =
      let (prepared, v) =
        prepare_absolute_pointer_data w p.x p.y p.rotation p.contact_area_major
          p.contact_area_minor in
      let pressure = from_clamped_netfloat fl p.pressure_or_distance in
      elim prepared [
        | Option.none ↦ v
        | Option.some d ↦
            emit v (pen_update d p.event_type p.tool_type p.pen_buttons p.tilt pressure)
      ]
