-- ===== src/Input/Keyboard/Reset.antt =====
-- input.cpp: the keyboard handlers keep the held keys tracked, so a reset releases all of them.
use mathlib.Core.Bool.{false≢true}
use solari.Base.{
  ℕ, ◌%◌, ◌<◌, ◌≡◌, refl, sym, subst, ◌∙◌, ap, inl, inr, List, [], ◌∷◌, Bool, true, false, not,
  ◌&&◌, All, arith, ◌==◌, if◌then◌else◌, Bool-cases,
}
use solari.Input.State.{Modifiers, World, is_pressed, set_pressed}
use solari.Input.Keyboard.{
  KeyboardPacket, make_kpid, vk_from_kpid, map_keycode, apply_shortcut, run_repeat_key, track_alt,
  synthetic_modifiers, start_repeat, apply_key, press_key, passthrough, release_key, release_keys,
  clear_pressed, reset_keyboard_keys,
}
use solari.Input.Keyboard.Held.{
  held_key, target, Tracked, Quiet-Tracked, start_repeat-Quiet, track_alt-Quiet,
  apply_shortcut-Quiet, press-Tracked, mark-Tracked, release-Tracked, is_pressed-set_pressed,
  send-Frame,
}

apply_key-Tracked :
    (w : World) (p : KeyboardPacket) (k : ℕ) (synthetic : Modifiers)
    → k < 256
    → Tracked w
    → Tracked (apply_key w p k synthetic)
unfolding apply_key
apply_key-Tracked w p k synthetic small t = elim (Bool-cases p.release) [
  | inl up ↦ rw up (release-Tracked w k p.flags synthetic small t)
  | inr down ↦
      let id = make_kpid k p.flags in
      let marked = record w { key_press = set_pressed w.key_press id true } in
      let here : is_pressed marked.key_press id ≡ true =
        ground (arith, is_pressed-set_pressed w.key_press id id true) in
      rw down (press-Tracked marked k p.flags synthetic small here (mark-Tracked w id t))
]

press_key-Tracked :
    (w : World) (p : KeyboardPacket) (k : ℕ) (synthetic : Modifiers)
    → k < 256
    → Tracked w
    → Tracked (press_key w p k synthetic)
unfolding press_key
press_key-Tracked w p k synthetic small t =
    let f = w.shortcut_flags in
    let shortcut = Quiet-Tracked (apply_shortcut-Quiet w k) t in
    let repeating = Quiet-Tracked (start_repeat-Quiet w k p.flags synthetic) t in
    let pressed =
      apply_key-Tracked (start_repeat w k p.flags synthetic) p k synthetic small repeating in
    elim (Bool-cases (f.shift && f.ctrl && f.alt && (apply_shortcut w k).0)) [
      | inl e ↦ rw e shortcut
      | inr e ↦ rw e pressed
    ]

-- Keyboard packets keep the keys that the host holds among the targets of the pressed ones.
pub passthrough-Tracked : (w : World) (p : KeyboardPacket) → Tracked w → Tracked (passthrough w p)
unfolding passthrough
passthrough-Tracked w p t =
    let k = p.key_code % 256 in
    let small : k < 256 = omega arith in
    let v = track_alt w k p.release in
    let synthetic = synthetic_modifiers v p k in
    let tv = Quiet-Tracked (track_alt-Quiet w k p.release) t in
    let applied = apply_key-Tracked v p k synthetic small tv in
    let pressed = press_key-Tracked v p k synthetic small tv in
    ground (arith, applied, pressed, tv, t)

-- So does the task that repeats a held key.
pub run_repeat_key-Tracked :
    (w : World) (k flags : ℕ) (synthetic : Modifiers)
    → k < 256
    → Tracked w
    → Tracked (run_repeat_key w k flags synthetic)
unfolding run_repeat_key
run_repeat_key-Tracked w k flags synthetic small t =
    elim (Bool-cases (is_pressed w.key_press (make_kpid k flags))) [
      | inl e ↦ rw e (press-Tracked w k flags synthetic small e t)
      | inr e ↦ rw e t
    ]

release_key_config : (w : World) (kpid : ℕ) (b : Bool) → (release_key w kpid b).config ≡ w.config
unfolding release_key
release_key_config w kpid b = ground arith

release_keys_up :
    (w : World) (m : List (ℕ × Bool)) (j : ℕ)
    → held_key w.out j ≡ false
    → held_key (release_keys w m).out j ≡ false
unfolding release_keys held_key
release_keys_up w [] j h = h
release_keys_up w ((kpid, pressed) ∷ m) j h =
    release_keys_up (release_key w kpid pressed) m j (ground arith)

release_keys_pressed :
    (w : World) (m : List (ℕ × Bool)) (kpid : ℕ)
    → is_pressed m kpid ≡ true
    → held_key (release_keys w m).out (target w kpid) ≡ false
unfolding release_keys is_pressed held_key
release_keys_pressed w [] kpid h = cc
release_keys_pressed w ((i, pressed) ∷ m) kpid h = elim (Bool-cases (i == kpid)) [
  | inl e ↦
      let now_up : held_key (release_key w i pressed).out (target w kpid) ≡ false = ground arith in
      release_keys_up (release_key w i pressed) m (target w kpid) now_up
  | inr e ↦
      let rest : is_pressed m kpid ≡ true = ground arith in
      let same =
        ap (λ c. map_keycode c (vk_from_kpid kpid % 256)) (release_key_config w i pressed) in
      rw (← same) (release_keys_pressed (release_key w i pressed) m kpid rest)
]

clear_pressed_lem : (m : List (ℕ × Bool)) (j : ℕ) → is_pressed (clear_pressed m) j ≡ false
unfolding clear_pressed is_pressed
clear_pressed_lem [] j = refl
clear_pressed_lem ((kpid, pressed) ∷ m) j = ground (arith, clear_pressed_lem m j)

-- After a reset the host holds no key down, and the map has none as pressed.
pub reset_keyboard_keys_lem :
    (w : World)
    → Tracked w
    → (j : ℕ)
    → (held_key (reset_keyboard_keys w).out j ≡ false)
      × (is_pressed (reset_keyboard_keys w).key_press j ≡ false)
unfolding reset_keyboard_keys
reset_keyboard_keys_lem w t j = (
  elim (Bool-cases (held_key w.out j)) [
    | inl held ↦
        let (kpid, pressed, same) = t j held in
        subst (λ k. held_key (release_keys w w.key_press).out k ≡ false) same
          (release_keys_pressed w w.key_press kpid pressed)
    | inr up ↦ release_keys_up w w.key_press j up
  ],
  clear_pressed_lem w.key_press j,
)

-- What reaches the keyboard code: a packet, or the repeat task of a key.
pub data Step : Type 0 where
  packet : KeyboardPacket → Step
  repeat : ℕ → ℕ → Modifiers → Step

unfoldable pub run : World → List Step → World
run w [] = w
run w (packet p ∷ steps) = run (passthrough w p) steps
run w (repeat k flags synthetic ∷ steps) = run (run_repeat_key w k flags synthetic) steps

-- The handler schedules the repeat of key codes of one byte only.
abbrev pub IsByteKey : Step → Type 0
IsByteKey (packet p) = Unit
IsByteKey (repeat k flags synthetic) = k < 256

run-Tracked :
    (w : World) (steps : List Step) → All IsByteKey steps → Tracked w → Tracked (run w steps)
unfolding run
run-Tracked w [] small t = t
run-Tracked w (packet p ∷ steps) small t =
    run-Tracked (passthrough w p) steps small.1 (passthrough-Tracked w p t)
run-Tracked w (repeat k flags synthetic ∷ steps) small t =
    run-Tracked (run_repeat_key w k flags synthetic) steps small.1
      (run_repeat_key-Tracked w k flags synthetic small.0 t)

-- From a state in which the host holds no key, after any keyboard packets and key repeats in any
-- order, a reset leaves no key held on the host and none marked as pressed.
pub reset-run :
    (w : World) (steps : List Step)
    → ((j : ℕ) → held_key w.out j ≡ false)
    → All IsByteKey steps
    → (j : ℕ)
    → (held_key (reset_keyboard_keys (run w steps)).out j ≡ false)
      × (is_pressed (reset_keyboard_keys (run w steps)).key_press j ≡ false)
reset-run w steps up small j =
    reset_keyboard_keys_lem (run w steps)
      (run-Tracked w steps small (λ k h. absurd (false≢true (sym (up k) ∙ h)))) j

pressed-apply_key :
    (w : World) (p : KeyboardPacket) (k j : ℕ) (synthetic : Modifiers)
    → is_pressed (apply_key w p k synthetic).key_press j
      ≡ (if make_kpid k p.flags == j then not p.release else is_pressed w.key_press j)
unfolding apply_key
pressed-apply_key w p k j synthetic =
    let id = make_kpid k p.flags in
    let marked = record w { key_press = set_pressed w.key_press id (not p.release) } in
    ap (λ m. is_pressed m j) (send-Frame marked k p.release p.flags synthetic).key_press
    ∙ is_pressed-set_pressed w.key_press id j (not p.release)

track_alt-shortcut_flags :
    (w : World) (k : ℕ) (release : Bool) → (track_alt w k release).shortcut_flags ≡ w.shortcut_flags
unfolding track_alt
track_alt-shortcut_flags w k release = ground arith

-- The map after `press_key`, where no shortcut applies.
pressed-press_key :
    (w : World) (p : KeyboardPacket) (k j : ℕ) (synthetic : Modifiers)
    → (w.shortcut_flags.shift && w.shortcut_flags.ctrl && w.shortcut_flags.alt) ≡ false
    → is_pressed (press_key w p k synthetic).key_press j
      ≡ (if make_kpid k p.flags == j then not p.release else is_pressed w.key_press j)
unfolding press_key
pressed-press_key w p k j synthetic plain =
    let u = start_repeat w k p.flags synthetic in
    let started = (start_repeat-Quiet w k p.flags synthetic).frame.key_press in
    ground (arith, started, pressed-apply_key u p k j synthetic)

-- With the keyboard enabled and not all three shortcut modifiers down, a packet sets the mark of its
-- own key to its direction and leaves the mark of every other key.
pub pressed-passthrough :
    (w : World) (p : KeyboardPacket) (j : ℕ)
    → w.config.keyboard ≡ true
    → (w.shortcut_flags.shift && w.shortcut_flags.ctrl && w.shortcut_flags.alt) ≡ false
    → is_pressed (passthrough w p).key_press j ≡ (
        if make_kpid (p.key_code % 256) p.flags == j
        then not p.release
        else is_pressed w.key_press j)
unfolding passthrough
pressed-passthrough w p j on plain =
    let k = p.key_code % 256 in
    let v = track_alt w k p.release in
    let synthetic = synthetic_modifiers v p k in
    let quiet = (track_alt-Quiet w k p.release).frame.key_press in
    let flags = track_alt-shortcut_flags w k p.release in
    let plain' = ap (λ (f : Modifiers). f.shift && f.ctrl && f.alt) flags ∙ plain in
    ground (
      arith,
      quiet,
      pressed-apply_key v p k j synthetic,
      pressed-press_key v p k j synthetic plain',
    )
