-- ===== src/Input/Keyboard/Held.antt =====
-- input.cpp: which keys the host holds down, and that none stays down after a reset.
use solari.Base.{
  ℕ, ◌%◌, ◌<◌, ◌≡◌, refl, sym, subst, ◌∙◌, ap, ◌⊎◌, inl, inr, List, [], ◌∷◌, Bool, true, false, not,
  arith, ◌==◌, ==_iff, if◌then◌else◌, Bool-cases,
}
use solari.Input.State.{Modifiers, World, Event, keyboard_update, is_pressed, set_pressed}
use solari.Input.Keyboard.{
  make_kpid, vk_from_kpid, flags_from_kpid, map_keycode, apply_shortcut, send_modifier,
  send_key_and_modifiers, track_alt, start_repeat,
}

-- Whether the last call about the key `k` pressed it. The newest call stands first.
unfoldable pub held_key : List Event → ℕ → Bool
held_key [] k = false
held_key (keyboard_update j release flags ∷ es) k = if j == k then not release else held_key es k
held_key (_ ∷ es) k = held_key es k

-- The platform key that a tracked key stands for.
abbrev pub target : World → ℕ → ℕ
target w kpid = map_keycode w.config (vk_from_kpid kpid % 256)

-- Every key that the host holds is the target of a key that the map has as pressed.
abbrev pub Tracked : World → Type 0
Tracked w =
    (k : ℕ)
    → held_key w.out k ≡ true
    → (kpid : ℕ) × (is_pressed w.key_press kpid ≡ true) × (target w kpid ≡ k)

-- The code and the flags come back out of a key identifier.
pub kpid_fields :
    (vk flags : ℕ)
    → vk < 65536
    → flags < 256
    → (vk_from_kpid (make_kpid vk flags) ≡ vk) × (flags_from_kpid (make_kpid vk flags) ≡ flags)
unfolding make_kpid vk_from_kpid flags_from_kpid
kpid_fields vk flags h f = omega arith

vk-make_kpid : (k flags : ℕ) → k < 256 → vk_from_kpid (make_kpid k flags) % 256 ≡ k
unfolding make_kpid vk_from_kpid
vk-make_kpid k flags h = omega arith

pub is_pressed-set_pressed :
    (m : List (ℕ × Bool)) (k j : ℕ) (b : Bool)
    → is_pressed (set_pressed m k b) j ≡ (if k == j then b else is_pressed m j)
unfolding is_pressed set_pressed
is_pressed-set_pressed [] k j b = refl
is_pressed-set_pressed ((i, c) ∷ m) k j b = ground (arith, is_pressed-set_pressed m k j b)

-- A release leaves its key up, and no other key changes.
held_key-send_release :
    (w : World) (k flags : ℕ) (synthetic : Modifiers) (j : ℕ)
    → held_key (send_key_and_modifiers w k true flags synthetic).out j
      ≡ (if map_keycode w.config k == j then false else held_key w.out j)
unfolding send_key_and_modifiers held_key
held_key-send_release w k flags synthetic j = refl

held_key-send_modifier :
    (w : World) (wanted : Bool) (k : ℕ) (release : Bool) (flags j : ℕ)
    → held_key (send_modifier w wanted k release flags).out j
      ≡ (if wanted then (if k == j then not release else held_key w.out j) else held_key w.out j)
unfolding send_modifier held_key
held_key-send_modifier w wanted k release flags j = ground arith

-- A press may leave its own key down; of the others it holds none that was not held.
held_key-send_press :
    (w : World) (k flags : ℕ) (synthetic : Modifiers) (j : ℕ)
    → held_key (send_key_and_modifiers w k false flags synthetic).out j ≡ true
    → (map_keycode w.config k ≡ j) ⊎ (held_key w.out j ≡ true)
unfolding send_key_and_modifiers held_key
held_key-send_press w k flags synthetic j h = ground arith

-- What an operation on the keyboard leaves alone.
pub record Frame (w v : World) : Type 0 where
  pub config : v.config ≡ w.config
  pub key_press : v.key_press ≡ w.key_press

pub send-Frame :
    (w : World) (k : ℕ) (release : Bool) (flags : ℕ) (synthetic : Modifiers)
    → Frame w (send_key_and_modifiers w k release flags synthetic)
unfolding send_key_and_modifiers
send-Frame w k true flags synthetic = record { config = refl; key_press = refl }
send-Frame w k false flags synthetic = ground arith

-- Operations that leave the tracked keys and what the host holds as they are.
pub record Quiet (w v : World) : Type 0 where
  pub frame : Frame w v
  pub held : (j : ℕ) → held_key v.out j ≡ held_key w.out j

pub Quiet-Tracked : {w v : World} → Quiet w v → Tracked w → Tracked v
Quiet-Tracked {w} {v} q t k h =
    let (kpid, pressed, here) = t k (sym (q.held k) ∙ h) in
    (
      kpid,
      subst (λ m. is_pressed m kpid ≡ true) (sym q.frame.key_press) pressed,
      ap (λ c. map_keycode c (vk_from_kpid kpid % 256)) q.frame.config ∙ here,
    )

pub start_repeat-Quiet :
    (w : World) (k flags : ℕ) (synthetic : Modifiers) → Quiet w (start_repeat w k flags synthetic)
unfolding start_repeat held_key
start_repeat-Quiet w k flags synthetic =
    let same : (start_repeat w k flags synthetic).out ≡ w.out = ground arith in
    record { frame = ground arith; held = λ j. ap (λ (es : List Event). held_key es j) same }

pub track_alt-Quiet : (w : World) (k : ℕ) (release : Bool) → Quiet w (track_alt w k release)
unfolding track_alt held_key
track_alt-Quiet w k release =
    let same : (track_alt w k release).out ≡ w.out = ground arith in
    record { frame = ground arith; held = λ j. ap (λ (es : List Event). held_key es j) same }

pub apply_shortcut-Quiet : (w : World) (k : ℕ) → Quiet w (apply_shortcut w k).1
unfolding apply_shortcut held_key
apply_shortcut-Quiet w k = record { frame = ground arith; held = λ j. ground arith }

-- A press of a key that the map has as pressed, from a state in which the others are tracked.
pub press-Tracked :
    (w : World) (k flags : ℕ) (synthetic : Modifiers)
    → k < 256
    → is_pressed w.key_press (make_kpid k flags) ≡ true
    → Tracked w
    → Tracked (send_key_and_modifiers w k false flags synthetic)
press-Tracked w k flags synthetic small pressed t j h =
    let frame = send-Frame w k false flags synthetic in
    let kept = λ (kpid : ℕ) (here : is_pressed w.key_press kpid ≡ true).
      subst (λ m. is_pressed m kpid ≡ true) (sym frame.key_press) here in
    let moved = λ (kpid : ℕ). ap (λ c. map_keycode c (vk_from_kpid kpid % 256)) frame.config in
    elim (held_key-send_press w k flags synthetic j h) [
      | inl own ↦
          let id = make_kpid k flags in
          (
            id,
            kept id pressed,
            moved id ∙ ap (map_keycode w.config) (vk-make_kpid k flags small) ∙ own,
          )
      | inr old ↦ let (kpid, here, same) = t j old in (kpid, kept kpid here, moved kpid ∙ same)
    ]

-- Marking a key as pressed keeps the others.
pub mark-Tracked :
    (w : World) (id : ℕ)
    → Tracked w
    → Tracked (record w { key_press = set_pressed w.key_press id true })
mark-Tracked w id t j h =
    let (kpid, here, same) = t j h in
    (kpid, ground (arith, is_pressed-set_pressed w.key_press id kpid true), same)

released :
    (code flags j : ℕ) (es : List Event)
    → held_key (keyboard_update code true flags ∷ es) j ≡ true
    → (held_key es j ≡ true) × (code ≡ j → ⊥)
unfolding held_key
released code flags j es h = (ground arith, ground arith)

pub release-Tracked :
    (w : World) (k flags : ℕ) (synthetic : Modifiers)
    → k < 256
    → Tracked w
    → Tracked (
        send_key_and_modifiers
          (record w { key_press = set_pressed w.key_press (make_kpid k flags) false })
          k
          true
          flags
          synthetic)
unfolding send_key_and_modifiers
release-Tracked w k flags synthetic small t j h =
    let (old, other) = released (map_keycode w.config k) flags j w.out h in
    let (kpid, here, same) = t j old in
    let id = make_kpid k flags in
    let differs : (id == kpid) ≡ false = elim (Bool-cases (id == kpid)) [
      | inl e ↦ absurd (
          other (
            ap (map_keycode w.config) (sym (vk-make_kpid k flags small))
            ∙ ap (target w) ((==_iff id kpid).0 e)
            ∙ same))
      | inr e ↦ e
    ] in
    (kpid, rw (is_pressed-set_pressed w.key_press id kpid false, differs) here, same)
