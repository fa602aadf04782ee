-- ===== src/Input/Keyboard.antt =====
-- input.cpp: keyboard packets, shortcuts, key repeat, and the release of held keys.
pub mod Held
pub mod Reset
use mathlib.Core.Option
use mathlib.Core.Option.{Option}
use solari.Base.{
  ℕ, ◌+◌, ◌-◌, ◌*◌, ◌/◌, ◌%◌, List, [], ◌∷◌, Bool, true, false, not, ◌&&◌, ◌||◌, ltb, leb, ◌==◌,
  if◌then◌else◌,
}
use solari.Base.Int.{ℤ, pos, ltb_ℤ, pos_part}
use solari.Input.State.{
  Modifiers, World, Config, Event, Task, keyboard_update, switch_display, emit, schedule,
  cancel_task, is_pressed, set_pressed,
}

-- VKEY_SHIFT and the codes beside it.
abbrev vkey_shift : ℕ
vkey_shift = 0x10

abbrev vkey_control : ℕ
vkey_control = 0x11

abbrev vkey_menu : ℕ
vkey_menu = 0x12

abbrev vkey_lmenu : ℕ
vkey_lmenu = 0xA4

abbrev vkey_rmenu : ℕ
vkey_rmenu = 0xA5

-- `(key_press_id_t) vk << 8 | flags`: the flags fill the eight bits that the shift leaves empty.
unfoldable pub make_kpid : ℕ → ℕ → ℕ
make_kpid vk flags = vk * 256 + flags % 256

unfoldable pub vk_from_kpid : ℕ → ℕ
vk_from_kpid kpid = kpid / 256 % 65536

unfoldable pub flags_from_kpid : ℕ → ℕ
flags_from_kpid kpid = kpid % 256

-- `find` in `config::input.keybindings`.
unfoldable pub find_binding : List (ℕ × ℕ) → ℕ → Option ℕ
find_binding [] k = Option.none
find_binding ((j, v) ∷ m) k = if j == k then Option.some v else find_binding m k

-- A binding's value is cut to the 16 bits of a `short`.
unfoldable pub map_keycode : Config → ℕ → ℕ
map_keycode c keycode = elim (find_binding c.keybindings keycode) [
  | Option.none ↦ keycode
  | Option.some v ↦ v % 65536
]

unfoldable pub is_shift : ℕ → Bool
is_shift k = k == vkey_shift || k == 0xA0 || k == 0xA1

unfoldable pub is_control : ℕ → Bool
is_control k = k == vkey_control || k == 0xA2 || k == 0xA3

unfoldable pub is_menu : ℕ → Bool
is_menu k = k == vkey_menu || k == vkey_lmenu || k == vkey_rmenu

unfoldable pub is_modifier : ℕ → Bool
unfolding is_shift is_control is_menu
is_modifier k = is_shift k || is_control k || is_menu k

unfoldable pub update_shortcut_flags : Modifiers → ℕ → Bool → Modifiers
unfolding is_shift is_control is_menu
update_shortcut_flags flags k release =
    if is_shift k
    then record flags { shift = not release }
    else if is_control k
    then record flags { ctrl = not release }
    else if is_menu k
    then record flags { alt = not release }
    else flags

-- VK_F1 to VK_F13 switch the display, VKEY_N shows or hides the cursor; the flag is the result `1`.
unfoldable pub apply_shortcut : World → ℕ → Bool × World
unfolding emit
apply_shortcut w k =
    if leb 0x70 k && leb k 0x7C
    then (true, emit w (switch_display (k - 0x70)))
    else if k == 0x4E
    then (true, record w { display_cursor = not w.display_cursor })
    else (false, w)

-- One of the conditional modifier calls of `send_key_and_modifiers`.
unfoldable pub send_modifier : World → Bool → ℕ → Bool → ℕ → World
unfolding emit
send_modifier w wanted k release flags =
    if wanted then emit w (keyboard_update k release flags) else w

unfoldable pub send_modifiers : World → Modifiers → Bool → ℕ → World
unfolding send_modifier
send_modifiers w synthetic release flags =
    let w₁ = send_modifier w synthetic.shift vkey_shift release flags in
    let w₂ = send_modifier w₁ synthetic.ctrl vkey_control release flags in
    send_modifier w₂ synthetic.alt vkey_menu release flags

unfoldable pub send_key_and_modifiers : World → ℕ → Bool → ℕ → Modifiers → World
unfolding send_modifiers emit
send_key_and_modifiers w k true flags synthetic =
    emit w (keyboard_update (map_keycode w.config k) true flags)
send_key_and_modifiers w k false flags synthetic =
    let w₁ = send_modifiers w synthetic false flags in
    let w₂ = emit w₁ (keyboard_update (map_keycode w.config k) false flags) in
    send_modifiers w₂ synthetic true flags

-- The body of the repeat task.
unfoldable pub run_repeat_key : World → ℕ → ℕ → Modifiers → World
unfolding schedule
run_repeat_key w k flags synthetic =
    let sent = send_key_and_modifiers w k false flags synthetic in
    let (id, w') = schedule sent w.config.key_repeat_period (Task.repeat_key k flags synthetic) in
    if is_pressed w.key_press (make_kpid k flags)
    then record w' { key_press_repeat_id = id }
    else record w { key_press_repeat_id = 0 }

-- `NV_KEYBOARD_PACKET`.
pub record KeyboardPacket : Type 0 where
  pub release : Bool
  pub key_code : ℕ
  pub modifiers : Modifiers
  pub flags : ℕ

-- `left_alt_pressed` and `right_alt_pressed`.
unfoldable pub track_alt : World → ℕ → Bool → World
track_alt w k release =
    if k == vkey_lmenu
    then record w { left_alt_pressed = not release }
    else if k == vkey_rmenu
    then record w { right_alt_pressed = not release }
    else w

-- The modifiers that the packet asks for and that are not pressed.
unfoldable pub synthetic_modifiers : World → KeyboardPacket → ℕ → Modifiers
synthetic_modifiers w p k =
    let wanted = not p.release && not (is_modifier k) in
    let meta = w.config.key_rightalt_to_key_win && w.right_alt_pressed && not w.left_alt_pressed in
    record {
      shift = wanted && not w.shortcut_flags.shift && p.modifiers.shift;
      ctrl = wanted && not w.shortcut_flags.ctrl && p.modifiers.ctrl;
      alt = wanted && not w.shortcut_flags.alt && (p.modifiers.alt && not meta);
    }

-- The repeat task of a key that has just gone down takes the place of the last one.
unfoldable pub start_repeat : World → ℕ → ℕ → Modifiers → World
unfolding schedule cancel_task
start_repeat w k flags synthetic =
    let w₁ = if w.key_press_repeat_id == 0 then w else cancel_task w w.key_press_repeat_id in
    let (id, w₂) =
      schedule w₁ (pos_part w.config.key_repeat_delay) (Task.repeat_key k flags synthetic) in
    if ltb_ℤ (pos 0) w.config.key_repeat_delay then record w₂ { key_press_repeat_id = id } else w₁

-- The end of the handler: the new state of the key, the calls, and the shortcut flags.
unfoldable pub apply_key : World → KeyboardPacket → ℕ → Modifiers → World
apply_key w p k synthetic =
    let w₁ = record w {
      key_press = set_pressed w.key_press (make_kpid k p.flags) (not p.release);
    } in
    let w₂ = send_key_and_modifiers w₁ k p.release p.flags synthetic in
    record w₂ {
      shortcut_flags = update_shortcut_flags w₂.shortcut_flags (map_keycode w₂.config k) p.release;
    }

-- A key goes down that was up.
unfoldable pub press_key : World → KeyboardPacket → ℕ → Modifiers → World
press_key w p k synthetic =
    let f = w.shortcut_flags in
    let (applied, w') = apply_shortcut w k in
    if f.shift && f.ctrl && f.alt && applied
    then w'
    else apply_key (start_repeat w k p.flags synthetic) p k synthetic

unfoldable pub passthrough : World → KeyboardPacket → World
passthrough w p =
    let k = p.key_code % 256 in
    let w' = track_alt w k p.release in
    let synthetic = synthetic_modifiers w' p k in
    let pressed = is_pressed w'.key_press (make_kpid k p.flags) in
    if not w.config.keyboard
    then w
    else if pressed && p.release
    then apply_key w' p k synthetic
    else if not pressed && not p.release
    then press_key w' p k synthetic
    else w'

-- The loop of `reset_keyboard_keys` over the map: its calls, and what it leaves in the map.
unfoldable pub release_key : World → ℕ → Bool → World
unfolding emit
release_key w kpid pressed =
    let code = map_keycode w.config (vk_from_kpid kpid % 256) in
    if pressed then emit w (keyboard_update code true (flags_from_kpid kpid)) else w

unfoldable pub release_keys : World → List (ℕ × Bool) → World
unfolding release_key
release_keys w [] = w
release_keys w ((kpid, pressed) ∷ m) = release_keys (release_key w kpid pressed) m

unfoldable pub clear_pressed : List (ℕ × Bool) → List (ℕ × Bool)
clear_pressed [] = []
clear_pressed ((kpid, pressed) ∷ m) = (kpid, false) ∷ clear_pressed m

unfoldable pub reset_keyboard_keys : World → World
unfolding release_keys clear_pressed
reset_keyboard_keys w =
    let w' = release_keys w w.key_press in record w' { key_press = clear_pressed w.key_press }
