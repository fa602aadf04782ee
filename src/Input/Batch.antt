-- ===== src/Input/Batch.antt =====
-- input.cpp: the batching of a packet with later ones of the queue.
pub mod Merge
pub mod Overflow
use solari.Base.{ℕ, List, [], ◌∷◌, Bool, true, false, not, ◌&&◌, ◌||◌, ◌==◌, if◌then◌else◌}
use solari.Base.Int.{ℤ, leb_ℤ}
use solari.Input.State.{Limelight}
use solari.Input.Packet.{
  Packet, ControllerPacket, TouchPacket, PenPacket, ControllerTouchPacket, MotionPacket,
  rel_mouse_move, abs_mouse_move, scroll, hscroll, multi_controller, touch, pen, controller_touch,
  controller_motion, add_overflow,
}

-- `batch_result_e`; a batched packet is the new content of the one that it was batched into.
pub data BatchResult : Type 0 where
  batched : Packet → BatchResult
  not_batchable : BatchResult
  terminate_batch : BatchResult

abbrev pub same_int : ℤ → ℤ → Bool
same_int a b = leb_ℤ a b && leb_ℤ b a

unfoldable pub batch_rel : ℤ → ℤ → ℤ → ℤ → BatchResult
unfolding add_overflow
batch_rel x y x' y' =
    let (over_x, sum_x) = add_overflow x x' in
    let (over_y, sum_y) = add_overflow y y' in
    if not over_x
    then terminate_batch
    else if not over_y
    then terminate_batch
    else batched (rel_mouse_move sum_x sum_y)

unfoldable pub batch_abs : ℤ → ℤ → ℤ → ℤ → ℤ → ℤ → BatchResult
batch_abs width height x' y' width' height' =
    if not (same_int width width') || not (same_int height height')
    then terminate_batch
    else batched (abs_mouse_move x' y' width' height')

unfoldable pub batch_scroll : ℤ → ℤ → BatchResult
unfolding add_overflow
batch_scroll a a' =
    let (over, sum) = add_overflow a a' in
    if not over then terminate_batch else batched (scroll sum sum)

unfoldable pub batch_hscroll : ℤ → ℤ → BatchResult
unfolding add_overflow
batch_hscroll a a' =
    let (over, sum) = add_overflow a a' in
    if not over then terminate_batch else batched (hscroll sum)

unfoldable pub batch_controller : ControllerPacket → ControllerPacket → BatchResult
batch_controller d s =
    if not (d.active_gamepad_mask == s.active_gamepad_mask)
    then terminate_batch
    else if not (d.controller_number == s.controller_number)
    then not_batchable
    else if not (d.button_flags == s.button_flags) || not (d.button_flags2 == s.button_flags2)
    then terminate_batch
    else batched (multi_controller s)

module _ (lim : Limelight) where
  -- LI_TOUCH_EVENT_MOVE or LI_TOUCH_EVENT_HOVER.
  abbrev pub moves : ℕ → Bool
  moves event_type = event_type == lim.touch_event_move || event_type == lim.touch_event_hover

  unfoldable pub batch_touch : TouchPacket → TouchPacket → BatchResult
  batch_touch d s =
      if not (moves d.event_type)
      then terminate_batch
      else if not (moves s.event_type)
      then terminate_batch
      else if not (d.pointer_id == s.pointer_id)
      then not_batchable
      else if not (d.event_type == s.event_type)
      then terminate_batch
      else batched (touch s)

  unfoldable pub batch_pen : PenPacket → PenPacket → BatchResult
  batch_pen d s =
      if not (moves d.event_type)
      then terminate_batch
      else if not (d.event_type == s.event_type)
      then terminate_batch
      else if not (d.pen_buttons == s.pen_buttons)
      then terminate_batch
      else if not (d.tool_type == s.tool_type)
      then terminate_batch
      else batched (pen s)

  unfoldable pub batch_controller_touch :
      ControllerTouchPacket → ControllerTouchPacket → BatchResult
  batch_controller_touch d s =
      if not (moves d.event_type)
      then terminate_batch
      else if not (d.controller_number == s.controller_number)
      then not_batchable
      else if not (moves s.event_type)
      then terminate_batch
      else if not (d.pointer_id == s.pointer_id)
      then not_batchable
      else if not (d.event_type == s.event_type)
      then terminate_batch
      else batched (controller_touch s)

  unfoldable pub batch_motion : MotionPacket → MotionPacket → BatchResult
  batch_motion d s =
      if not (d.controller_number == s.controller_number)
      then not_batchable
      else if not (d.motion_type == s.motion_type)
      then not_batchable
      else batched (controller_motion s)

  -- `batch` of two headers: packets of different types, and of the types that it does not list, end
  -- the batch.
  unfoldable pub batch : Packet → Packet → BatchResult
  batch (rel_mouse_move x y) (rel_mouse_move x' y') = batch_rel x y x' y'
  batch (abs_mouse_move x y width height) (abs_mouse_move x' y' width' height') =
      batch_abs width height x' y' width' height'
  batch (scroll a b) (scroll a' b') = batch_scroll a a'
  batch (hscroll a) (hscroll a') = batch_hscroll a a'
  batch (multi_controller d) (multi_controller s) = batch_controller d s
  batch (touch d) (touch s) = batch_touch d s
  batch (pen d) (pen s) = batch_pen d s
  batch (controller_touch d) (controller_touch s) = batch_controller_touch d s
  batch (controller_motion d) (controller_motion s) = batch_motion d s
  batch _ _ = terminate_batch

  -- The loop of `passthrough_next_message` over the rest of the queue: the packet to send, and what
  -- stays queued.
  unfoldable pub batch_queue : Packet → List Packet → Packet × List Packet
  batch_queue p [] = (p, [])
  batch_queue p (q ∷ qs) = elim (batch p q) [
    | terminate_batch ↦ (p, q ∷ qs)
    | batched p' ↦ batch_queue p' qs
    | not_batchable ↦ let (sent, rest) = batch_queue p qs in (sent, q ∷ rest)
  ]
