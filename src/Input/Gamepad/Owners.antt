-- ===== src/Input/Gamepad/Owners.antt =====
-- input.cpp: controller packets and the Home timer keep every slot with one owner.
use mathlib.Core.Option.{some, none, some-injective}
use native.Mathlib.Decide.{ℕ_discrete}
use solari.Base.{
  ℕ, ◌≡◌, ◌≢◌, refl, sym, ap, ◌∙◌, subst, Bool, false, arith, List, [], ◌∷◌, inl, inr, Bool-cases,
  Option-cases, set, get_elem?, get_elem?-lt, get_elem?-set_self, get_elem?-set_ne, is_some,
}
use solari.Input.State.{ButtonState, Gamepad, GamepadState, World}
use solari.Input.Gamepad.{
  Backend, free_slot, put_gamepad, alloc, passthrough_arrival, back_changed, back_step,
  update_gamepad, update_allocated, passthrough_controller, run_home_button,
}
use solari.Input.Gamepad.Slots.{Owned, alloc-Owned}

-- `v` is `w` with the gamepad at `index` replaced by one that has the same slot, and no slot changes.
record SameSlots (w v : World) (index : ℕ) (g h : Gamepad) : Type 0 where
  here : get_elem? w.gamepads index ≡ some g
  slot : h.id ≡ g.id
  gamepads : v.gamepads ≡ set w.gamepads index h
  mask : v.gamepad_mask ≡ w.gamepad_mask

module _ (w v : World) (index : ℕ) (g h : Gamepad) (s : SameSlots w v index g h) where
  -- A gamepad of `v` has the slot of the gamepad of `w` at the same index.
  slot_before :
      (i k : ℕ) (f : Gamepad)
      → get_elem? v.gamepads i ≡ some f
      → f.id ≡ some k
      → (f' : Gamepad) × (get_elem? w.gamepads i ≡ some f') × (f'.id ≡ some k)
  slot_before i k f e q = elim (ℕ_discrete index i) [
    | yes same ↦
        let self = get_elem?-set_self w.gamepads index h (get_elem?-lt w.gamepads index s.here) in
        let at_i = ap (λ gs. get_elem? gs i) (sym s.gamepads) ∙ e in
        let at_index = subst (λ z. get_elem? (set w.gamepads index h) z ≡ some f) (sym same) at_i in
        let is_h = some-injective h f (sym self ∙ at_index) in
        (
          g,
          subst (λ z. get_elem? w.gamepads z ≡ some g) same s.here,
          sym s.slot ∙ ap (λ (r : Gamepad). r.id) is_h ∙ q,
        )
    | no differs ↦ (
      f,
      sym (get_elem?-set_ne w.gamepads index i h differs)
          ∙ ap (λ gs. get_elem? gs i) (sym s.gamepads)
          ∙ e,
      q,
    )
  ]

  SameSlots-Owned : Owned w → Owned v
  SameSlots-Owned o = record {
    marked = λ i k f e q.
        let (f', e', q') = slot_before i k f e q in
        ap (λ m. get_elem? m k) s.mask ∙ o.marked i k f' e' q';
    apart = λ i j k f f₂ e e₂ q q₂.
        let (f', e', q') = slot_before i k f e q in
        let (f₂', e₂', q₂') = slot_before j k f₂ e₂ q₂ in o.apart i j k f' f₂' e' e₂' q' q₂';
  }

back_step_frame :
    (w : World) (index : ℕ) (g : Gamepad) (state : GamepadState)
    → let (h, v) = back_step w index g state in
      (h.id ≡ g.id) × (v.gamepads ≡ w.gamepads) × (v.gamepad_mask ≡ w.gamepad_mask)
unfolding back_step back_changed
back_step_frame w index g state = ground arith

update_gamepad-Owned :
    (w : World) (index : ℕ) (g : Gamepad) (state : GamepadState)
    → get_elem? w.gamepads index ≡ some g
    → Owned w
    → Owned (update_gamepad w index g state)
unfolding update_gamepad
update_gamepad-Owned w index g state e o =
    let (h, v) = back_step w index g state in
    let frame = back_step_frame w index g state in
    SameSlots-Owned w (update_gamepad w index g state) index g h
      (record {
        here = e;
        slot = frame.0;
        gamepads = ap (λ gs. set gs index h) frame.1;
        mask = frame.2;
      })
      o

update_allocated-Owned :
    (w : World) (index : ℕ) (state : GamepadState)
    → Owned w
    → Owned (update_allocated w index state)
unfolding update_allocated
update_allocated-Owned w index state o = elim (Option-cases (get_elem? w.gamepads index)) [
  | inl e ↦ rw (e, update_allocated) o
  | inr (g, e) ↦ elim (Bool-cases (is_some g.id)) [
    | inl has ↦ rw (e, has, update_allocated) (update_gamepad-Owned w index g state e o)
    | inr lacks ↦ rw (e, lacks, update_allocated) o
  ]
]

-- Removing a gamepad frees its slot, which no other gamepad has.
module _ (w : World) (index id : ℕ) (g : Gamepad) (here : get_elem? w.gamepads index ≡ some g)
    (has : g.id ≡ some id) (o : Owned w) where
  removed : World
  removed = put_gamepad (free_slot w id) index (record g { id = none })

  other_before :
      (i k : ℕ) (f : Gamepad)
      → get_elem? removed.gamepads i ≡ some f
      → f.id ≡ some k
      → (get_elem? w.gamepads i ≡ some f) × (id ≢ k)
  unfolding removed put_gamepad free_slot
  other_before i k f e q = elim (ℕ_discrete index i) [
    | yes same ↦
        let bare = record g { id = none } in
        let self = get_elem?-set_self w.gamepads index bare (get_elem?-lt w.gamepads index here) in
        let at_index = subst (λ z. get_elem? (set w.gamepads index bare) z ≡ some f) (sym same) e in
        let is_bare = some-injective bare f (sym self ∙ at_index) in
        let no_slot : none ≡ some k = ap (λ (r : Gamepad). r.id) is_bare ∙ q in cc
    | no differs ↦
        let before =
          sym (get_elem?-set_ne w.gamepads index i (record g { id = none }) differs) ∙ e in
        (before, λ same. differs (o.apart index i id g f here before has (q ∙ ap some (sym same))))
  ]

  removed-Owned : Owned removed
  unfolding removed put_gamepad free_slot
  removed-Owned = record {
    marked = λ i k f e q.
        let (e', differs) = other_before i k f e q in
        get_elem?-set_ne w.gamepad_mask id k false differs ∙ o.marked i k f e' q;
    apart = λ i j k f h e e' q q'.
        o.apart i j k f h (other_before i k f e q).0 (other_before j k h e' q').0 q q';
  }

-- A controller packet keeps every slot of the session with one owner, whether it makes, updates or
-- removes a gamepad, or is refused.
pub passthrough_controller-Owned :
    (backend : Backend) (w : World) (index : ℕ) (active : Bool) (state : GamepadState)
    → Owned w
    → Owned (passthrough_controller backend w index active state)
unfolding passthrough_controller removed
passthrough_controller-Owned backend w index active state o =
    let result = passthrough_controller backend w index active state in
    elim (Option-cases (get_elem? w.gamepads index)) [
      | inl e ↦ let same : result ≡ w = ground arith in subst Owned (sym same) o
      | inr (g, e) ↦ elim (Bool-cases w.config.controller) [
        | inr off ↦ let same : result ≡ w = ground arith in subst Owned (sym same) o
        | inl on ↦ elim (Option-cases g.id) [
          | inl free ↦
              let v = (alloc backend w index).1 in
              let updated = update_allocated-Owned v index state (alloc-Owned backend w index o) in
              elim (Bool-cases active) [
                | inr gone ↦ let same : result ≡ w = ground arith in subst Owned (sym same) o
                | inl here ↦
                    let same : result ≡ update_allocated v index state = ground arith in
                    subst Owned (sym same) updated
              ]
          | inr (id, has) ↦ elim (Bool-cases active) [
            | inl here ↦
                let same : result ≡ update_allocated w index state = ground arith in
                subst Owned (sym same) (update_allocated-Owned w index state o)
            | inr gone ↦
                let same : result ≡ removed w index id g e has o = ground arith in
                subst Owned (sym same) (removed-Owned w index id g e has o)
          ]
        ]
      ]
    ]

passthrough_arrival-Owned :
    (backend : Backend) (w : World) (index : ℕ)
    → Owned w
    → Owned (passthrough_arrival backend w index)
unfolding passthrough_arrival
passthrough_arrival-Owned backend w index o = elim (Bool-cases w.config.controller) [
  | inl on ↦
      let same : passthrough_arrival backend w index ≡ (alloc backend w index).1 = ground arith in
      subst Owned (sym same) (alloc-Owned backend w index o)
  | inr off ↦
      let same : passthrough_arrival backend w index ≡ w = ground arith in subst Owned (sym same) o
]

run_home_button-Owned : (w : World) (index : ℕ) → Owned w → Owned (run_home_button w index)
unfolding run_home_button put_gamepad
run_home_button-Owned w index o = elim (Option-cases (get_elem? w.gamepads index)) [
  | inl e ↦ rw (e, run_home_button) o
  | inr (g, e) ↦
      let sent = record g.gamepad_state { back = false; home = false } in
      let h = record g {
        gamepad_state = sent;
        back_button_state = ButtonState.up;
        back_timeout_id = 0;
      } in
      rw (e, run_home_button)
        (SameSlots-Owned w _ index g h
          (record { here = e; slot = refl; gamepads = refl; mask = refl }) o)
]

-- What reaches the gamepads of a session.
pub data Step : Type 0 where
  arrival : ℕ → Step
  controller : ℕ → Bool → GamepadState → Step
  home : ℕ → Step

unfoldable pub run : Backend → World → List Step → World
run b w [] = w
run b w (arrival i ∷ steps) = run b (passthrough_arrival b w i) steps
run b w (controller i active state ∷ steps) =
    run b (passthrough_controller b w i active state) steps
run b w (home i ∷ steps) = run b (run_home_button w i) steps

-- Whatever the platform answers: after any controller arrivals, controller packets and Home timers,
-- every slot that a gamepad of the session has is marked as taken, and no two gamepads share one.
pub run-Owned : (b : Backend) (w : World) (steps : List Step) → Owned w → Owned (run b w steps)
unfolding run
run-Owned b w [] o = o
run-Owned b w (arrival i ∷ steps) o =
    run-Owned b (passthrough_arrival b w i) steps (passthrough_arrival-Owned b w i o)
run-Owned b w (controller i active state ∷ steps) o =
    run-Owned b (passthrough_controller b w i active state) steps
      (passthrough_controller-Owned b w i active state o)
run-Owned b w (home i ∷ steps) o =
    run-Owned b (run_home_button w i) steps (run_home_button-Owned w i o)
