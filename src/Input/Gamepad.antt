-- ===== src/Input/Gamepad.antt =====
-- input.cpp: the slots of virtual gamepads, controller packets, and the emulated Home button.
pub mod Slots
pub mod Owners
use mathlib.Core.Option.{Option}
use solari.Base.{
  ℕ, zero, suc, ◌+◌, ◌%◌, List, [], ◌∷◌, Bool, true, false, not, ◌&&◌, ◌||◌, ltb, ◌==◌,
  if◌then◌else◌, get_elem?, set, length, is_some, map,
}
use solari.Base.Int.{ℤ, pos, leb_ℤ, pos_part}
use solari.Input.State.{
  ButtonState, GamepadState, neutral, Gamepad, World, Event, Task, gamepad_update,
  gamepad_cancel_touches, alloc_gamepad, free_gamepad, rebind_gamepad, gamepad_battery,
  gamepad_touch, gamepad_motion, Floats, emit, schedule, cancel_task,
}

-- What the platform answers: whether it refuses to make, or to rebind, a virtual gamepad, given the
-- calls made before, the slot and the client's index.
pub record Backend : Type 0 where
  pub alloc_fails : List Event → ℕ → ℕ → Bool
  pub rebind_fails : List Event → ℕ → ℕ → Bool

-- `alloc_id`: the first free slot is taken. An absent slot is the result -1.
unfoldable pub alloc_id : List Bool → Option (ℕ × List Bool)
alloc_id [] = Option.none
alloc_id (false ∷ m) = Option.some (0, true ∷ m)
alloc_id (true ∷ m) = elim (alloc_id m) [
  | Option.none ↦ Option.none
  | Option.some (x, rest) ↦ Option.some (suc x, true ∷ rest)
]

unfoldable pub free_id : List Bool → ℕ → List Bool
free_id m id = set m id false

-- `free_gamepad`: the device is neutralised and freed, and its slot too.
unfoldable pub free_slot : World → ℕ → World
unfolding emit free_id
free_slot w id =
    let v = emit (emit w (gamepad_update (Option.some id) neutral)) (free_gamepad id) in
    record v { gamepad_mask = free_id w.gamepad_mask id }

-- The entry of `input->gamepads`, and its update.
unfoldable pub put_gamepad : World → ℕ → Gamepad → World
put_gamepad w index g = record w { gamepads = set w.gamepads index g }

module _ (backend : Backend) where
  -- The last part of `alloc_gamepad`: the platform makes the device, or the slot is given back.
  unfoldable pub claim_slot : World → ℕ → Gamepad → ℕ → List Bool → Option ℕ × World
  unfolding emit put_gamepad free_id
  claim_slot w index g id mask =
      let taken = record (emit w (alloc_gamepad id)) { gamepad_mask = mask } in
      if backend.alloc_fails w.out id index
      then (Option.none, record taken { gamepad_mask = free_id mask id })
      else (Option.some id, put_gamepad taken index (record g { id = Option.some id }))

  unfoldable pub alloc : World → ℕ → Option ℕ × World
  alloc w index = elim (get_elem? w.gamepads index) [
    | Option.none ↦ (Option.none, w)
    | Option.some g ↦ elim g.id [
      | Option.some id ↦ (Option.some id, w)
      | Option.none ↦ elim (alloc_id w.gamepad_mask) [
        | Option.none ↦ (Option.none, w)
        | Option.some (id, mask) ↦ claim_slot w index g id mask
      ]
    ]
  ]

  -- `PSS_CONTROLLER_ARRIVAL_PACKET`.
  unfoldable pub passthrough_arrival : World → ℕ → World
  passthrough_arrival w controller_number =
      if w.config.controller then (alloc w controller_number).1 else w

  -- The loop of `rebind_input` over the session's gamepads, from the index `index` on.
  unfoldable pub rebind_gamepads : World → ℕ → List Gamepad → List Gamepad × World
  unfolding emit free_id
  rebind_gamepads w index [] = ([], w)
  rebind_gamepads w index (g ∷ gs) = elim g.id [
    | Option.none ↦ let (rest, v) = rebind_gamepads w (index + 1) gs in (g ∷ rest, v)
    | Option.some id ↦
        let asked = emit w (rebind_gamepad id) in
        let lost = backend.rebind_fails w.out id index in
        let u = if lost then record asked { gamepad_mask = free_id w.gamepad_mask id } else asked in
        let (rest, v) = rebind_gamepads u (index + 1) gs in
        ((if lost then record g { id = Option.none } else g) ∷ rest, v)
  ]

  unfoldable pub rebind_input : World → World
  unfolding rebind_gamepads
  rebind_input w = let (gs, v) = rebind_gamepads w 0 w.gamepads in record v { gamepads = gs }

-- The `switch` on `back_button_state`: the state that replaces it, and the buttons to send.
unfoldable pub force_back : ButtonState → GamepadState → ButtonState × GamepadState
force_back ButtonState.up s =
    (if s.back then ButtonState.up else ButtonState.none, record s { back = false })
force_back ButtonState.down s =
    (if s.back then ButtonState.none else ButtonState.down, record s { back = true })
force_back ButtonState.none s = (ButtonState.none, s)

-- The Back button has changed: its going down starts the Home timer, its going up stops it.
unfoldable pub back_changed : World → ℕ → Gamepad → Bool → Gamepad × World
unfolding schedule cancel_task
back_changed w index g true =
    let (id, v) = schedule w (pos_part w.config.back_button_timeout) (Task.home_button index) in
    if leb_ℤ (pos 0) w.config.back_button_timeout
    then (record g { back_timeout_id = id }, v)
    else (g, w)
back_changed w index g false =
    if g.back_timeout_id == 0
    then (g, w)
    else (record g { back_timeout_id = 0 }, cancel_task w g.back_timeout_id)

-- The buttons as they are sent, with the Home timer started or stopped where Back has changed.
unfoldable pub back_step : World → ℕ → Gamepad → GamepadState → Gamepad × World
back_step w index g state =
    let (forced, sent) = force_back g.back_button_state state in
    let changed = if sent.back then not g.gamepad_state.back else g.gamepad_state.back in
    let g₁ = record g { back_button_state = forced } in
    let (g₂, v) = if changed then back_changed w index g₁ sent.back else (g₁, w) in
    (record g₂ { gamepad_state = sent }, v)

-- The last part of the handler, for an allocated gamepad.
unfoldable pub update_gamepad : World → ℕ → Gamepad → GamepadState → World
unfolding emit put_gamepad
update_gamepad w index g state =
    let (h, v) = back_step w index g state in
    put_gamepad (emit v (gamepad_update g.id h.gamepad_state)) index h

unfoldable pub update_allocated : World → ℕ → GamepadState → World
update_allocated w index state = elim (get_elem? w.gamepads index) [
  | Option.none ↦ w
  | Option.some g ↦ if is_some g.id then update_gamepad w index g state else w
]

-- `PNV_MULTI_CONTROLLER_PACKET`; `active` is the controller's bit of `activeGamepadMask`.
module _ (backend : Backend) where
  unfoldable pub passthrough_controller : World → ℕ → Bool → GamepadState → World
  unfolding put_gamepad
  passthrough_controller w index active state = elim (get_elem? w.gamepads index) [
    | Option.none ↦ w
    | Option.some g ↦ if not w.config.controller then w else elim g.id [
      | Option.none ↦ if active then update_allocated (alloc backend w index).1 index state else w
      | Option.some id ↦
          if active
          then update_allocated w index state
          else put_gamepad (free_slot w id) index (record g { id = Option.none })
    ]
  ]

-- `PSS_CONTROLLER_BATTERY_PACKET`.
unfoldable pub passthrough_battery : World → ℕ → ℕ → ℕ → World
unfolding emit
passthrough_battery w index battery_state percentage = elim (get_elem? w.gamepads index) [
  | Option.none ↦ w
  | Option.some g ↦ elim g.id [
    | Option.none ↦ w
    | Option.some id ↦
        if w.config.controller
        then emit w (gamepad_battery id index battery_state percentage)
        else w
  ]
]

-- `PSS_CONTROLLER_TOUCH_PACKET`: the position and the pressure are clamped to the range of 0 to 1.
unfoldable pub passthrough_touch : Floats → World → ℕ → ℕ → ℕ → List ℕ → World
unfolding emit
passthrough_touch fl w index event_type pointer_id values =
    let unit = λ (v : ℕ). fl.clamp v (fl.from_int (pos 0)) (fl.from_int (pos 1)) in
    elim (get_elem? w.gamepads index) [
      | Option.none ↦ w
      | Option.some g ↦ elim g.id [
        | Option.none ↦ w
        | Option.some id ↦
            if w.config.controller
            then emit w (gamepad_touch id index event_type pointer_id (map unit values))
            else w
      ]
    ]

-- `PSS_CONTROLLER_MOTION_PACKET`.
unfoldable pub passthrough_motion : World → ℕ → ℕ → List ℕ → World
unfolding emit
passthrough_motion w index motion_type values = elim (get_elem? w.gamepads index) [
  | Option.none ↦ w
  | Option.some g ↦ elim g.id [
    | Option.none ↦ w
    | Option.some id ↦
        if w.config.controller then emit w (gamepad_motion id index motion_type values) else w
  ]
]

-- The body of the Home timer: Back is forced up, Home goes down and up again.
unfoldable pub run_home_button : World → ℕ → World
unfolding emit put_gamepad
run_home_button w index = elim (get_elem? w.gamepads index) [
  | Option.none ↦ w
  | Option.some g ↦
      let s₁ = record g.gamepad_state { back = false } in
      let s₂ = record s₁ { home = true } in
      let s₃ = record s₂ { home = false } in
      let v =
        emit (emit (emit w (gamepad_update g.id s₁)) (gamepad_update g.id s₂))
          (gamepad_update g.id s₃) in
      put_gamepad v index
        (record g { gamepad_state = s₃; back_button_state = ButtonState.up; back_timeout_id = 0 })
]

-- The start of both loops over the session's gamepads: its Home timer is cancelled.
unfoldable pub cancel_home : World → Gamepad → World
unfolding cancel_task
cancel_home w g = if g.back_timeout_id == 0 then w else cancel_task w g.back_timeout_id

-- `destroy_gamepads` over one session's gamepads.
unfoldable pub destroy_all : World → List Gamepad → World
unfolding cancel_home
destroy_all w [] = w
destroy_all w (g ∷ gs) =
    let v = cancel_home w g in
    destroy_all (elim g.id [ Option.none ↦ v | Option.some id ↦ free_slot v id ]) gs

unfoldable pub cleared : Gamepad → Option ℕ → Gamepad
cleared g id = record {
  gamepad_state = neutral;
  back_timeout_id = 0;
  id = id;
  back_button_state = ButtonState.none;
}

unfoldable pub clear_all : List Gamepad → List Gamepad
unfolding cleared
clear_all [] = []
clear_all (g ∷ gs) = cleared g Option.none ∷ clear_all gs

unfoldable pub destroy_gamepads : World → World
unfolding destroy_all clear_all
destroy_gamepads w = record (destroy_all w w.gamepads) { gamepads = clear_all w.gamepads }

-- `reset_gamepads`: the devices stay, in their neutral state and without touches.
unfoldable pub neutralise_one : World → ℕ → Gamepad → World
unfolding cancel_home emit
neutralise_one w index g =
    let v = cancel_home w g in
    elim g.id [
      | Option.none ↦ v
      | Option.some id ↦
          emit (emit v (gamepad_update (Option.some id) neutral)) (gamepad_cancel_touches id index)
    ]

unfoldable pub neutralise : World → ℕ → List Gamepad → World
unfolding neutralise_one
neutralise w index [] = w
neutralise w index (g ∷ gs) = neutralise (neutralise_one w index g) (index + 1) gs

unfoldable pub keep_ids : List Gamepad → List Gamepad
unfolding cleared
keep_ids [] = []
keep_ids (g ∷ gs) = cleared g g.id ∷ keep_ids gs

unfoldable pub reset_gamepads : World → World
unfolding neutralise keep_ids
reset_gamepads w = record (neutralise w 0 w.gamepads) { gamepads = keep_ids w.gamepads }
