-- ===== src/Sessions/Quiet.antt =====
-- process.cpp: no call that the running app makes configures the display.
use solari.Base.{
  ℕ, zero, suc, ◌≡◌, refl, List, [], ◌∷◌, Bool, true, false, not, ◌&&◌, ◌⊎◌, ◌-◌, ◌==◌, ltb, arith,
  inl, inr, Bool-cases, Option-cases, if◌then◌else◌, get_elem?,
}
use solari.Base.Int.{ℤ, pos, ltb_ℤ}
use solari.Base.Text.{Text}
use solari.Process.State.{
  Cmd, LaunchSession, Event, did, failed, undid, spawned, launched, terminate_gamepads,
  revert_display, request_exit, sleep, terminate_group, configure_display, ended,
  streaming_will_start, streaming_will_stop, terminate_gamepads_of, Host, Proc, emit, is_empty,
  show_ℤ,
}
use solari.Process.{
  forget, select, working_dir, wait_group, terminate_process_group, undo_one, undo_preps,
  end_processes, terminate, prepare_one, prepare, spawn_all, launch, start, execute, running,
  find_app,
}
use solari.Process.Launch.{passed, prepare_one-cases}

-- Whether the display was configured, and not reverted since.
abbrev pub is_configured : List Event → Bool
is_configured [] = false
is_configured (configure_display ∷ log) = true
is_configured (revert_display ∷ log) = false
is_configured (e ∷ log) = is_configured log

-- The display is configured only if it was before.
pub record Quiet (p q : Proc) : Type 0 where
  pub before : is_configured q.log ≡ true → is_configured p.log ≡ true

pub Quiet-refl : (p : Proc) → Quiet p p
Quiet-refl p = record { before = λ h. h }

pub Quiet-trans : {p q r : Proc} → Quiet p q → Quiet q r → Quiet p r
Quiet-trans f g = record { before = λ h. f.before (g.before h) }

pub Quiet-if : (b : Bool) {p q r : Proc} → Quiet p q → Quiet p r → Quiet p (if b then q else r)
Quiet-if true f g = f
Quiet-if false f g = g

-- A call other than the one that configures the display.
abbrev pub IsPlain : Event → Type 0
IsPlain configure_display = ⊥
IsPlain e = Unit

pub Quiet-emit : (p : Proc) (e : Event) → IsPlain e → Quiet p (emit p e)
unfolding emit
Quiet-emit p configure_display plain = elim plain [ ]
Quiet-emit p (did c dir) plain = record { before = λ h. h }
Quiet-emit p (failed c dir) plain = record { before = λ h. h }
Quiet-emit p (undid c dir) plain = record { before = λ h. h }
Quiet-emit p (spawned c dir) plain = record { before = λ h. h }
Quiet-emit p (launched c dir) plain = record { before = λ h. h }
Quiet-emit p terminate_gamepads plain = record { before = λ h. h }
Quiet-emit p revert_display plain = record { before = λ h. cc }
Quiet-emit p request_exit plain = record { before = λ h. h }
Quiet-emit p sleep plain = record { before = λ h. h }
Quiet-emit p terminate_group plain = record { before = λ h. h }
Quiet-emit p (ended id) plain = record { before = λ h. h }
Quiet-emit p streaming_will_start plain = record { before = λ h. h }
Quiet-emit p streaming_will_stop plain = record { before = λ h. h }
Quiet-emit p (terminate_gamepads_of cert) plain = record { before = λ h. h }

pub revert-Quiet : (p q : Proc) → Quiet p (emit q revert_display)
unfolding emit
revert-Quiet p q = record { before = λ h. cc }

forget-Quiet : (p : Proc) → Quiet p (forget p)
unfolding forget emit
forget-Quiet p = elim (Bool-cases (not (is_empty p.app.name) && ltb_ℤ (pos 0) p.app_id)) [
  | inl e ↦ record { before = λ h. absurd (ground arith) }
  | inr e ↦ record { before = λ h. ground arith }
]

-- Five tests, of which the first three choose alike.
one_of_four {ℓ} :
    {A : Type ℓ} (a b c d e : Bool) (x y z w : A)
    → let r =
        if a then x else if b then x else if c then x else if d then y else if e then z else w in
      (r ≡ x) ⊎ (r ≡ y) ⊎ (r ≡ z) ⊎ (r ≡ w)
one_of_four true b c d e x y z w = inl refl
one_of_four false true c d e x y z w = inl refl
one_of_four false false true d e x y z w = inl refl
one_of_four false false false true e x y z w = inr (inl refl)
one_of_four false false false false true x y z w = inr (inr (inl refl))
one_of_four false false false false false x y z w = inr (inr (inr refl))

module _ (host : Host) where
  wait_group-Quiet : (seconds : ℕ) (p : Proc) → Quiet p (wait_group host seconds p)
  unfolding wait_group
  wait_group-Quiet zero p = Quiet-refl p
  wait_group-Quiet (suc seconds) p =
      Quiet-if (host.group_running p.log)
        (Quiet-trans (Quiet-emit p sleep tt) (wait_group-Quiet seconds (emit p sleep)))
        (Quiet-refl p)

  terminate_process_group-Quiet : (p : Proc) → Quiet p (terminate_process_group host p)
  unfolding terminate_process_group
  terminate_process_group-Quiet p =
      let asked = Quiet-emit p request_exit tt in
      let waited = Quiet-trans asked (wait_group-Quiet _ (emit p request_exit)) in
      let before =
        Quiet-if _ (Quiet-if (host.request_group_exit p.log) waited asked) (Quiet-refl p) in
      Quiet-if _ (Quiet-trans before (Quiet-emit _ terminate_group tt)) (Quiet-refl p)

  undo_one-Quiet : (p : Proc) (it : ℕ) (c : Cmd) → Quiet p (undo_one host p it c)
  unfolding undo_one emit
  undo_one-Quiet p it c =
      Quiet-if (is_empty c.undo_cmd) (record { before = λ h. h }) (record { before = λ h. h })

  undo_preps-Quiet : (n : ℕ) (p : Proc) → Quiet p (undo_preps host n p)
  unfolding undo_preps
  undo_preps-Quiet zero p = Quiet-refl p
  undo_preps-Quiet (suc n) p = elim (Option-cases (get_elem? p.app.prep_cmds n)) [
    | inl e ↦ rw (undo_preps, e) (Quiet-refl p)
    | inr (c, e) ↦
        rw (undo_preps, e)
          (Quiet-trans (undo_one-Quiet p n c) (undo_preps-Quiet n (undo_one host p n c)))
  ]

  end_processes-Quiet : (p : Proc) → Quiet p (end_processes host p)
  unfolding end_processes emit
  end_processes-Quiet p =
      let q : Proc = record p { placebo = false; log = terminate_gamepads ∷ p.log } in
      let ended_group = terminate_process_group-Quiet q in
      record { before = λ h. ended_group.before h }

  pub terminate-Quiet : (p : Proc) → Quiet p (terminate host p)
  unfolding terminate
  terminate-Quiet p =
      let q = end_processes host p in
      Quiet-trans (end_processes-Quiet p)
        (Quiet-trans (undo_preps-Quiet q.prep_it q) (forget-Quiet (undo_preps host q.prep_it q)))

  running-cases :
      (p : Proc)
      → (running host p ≡ (p.app_id, p))
        ⊎ (running host p ≡ (p.app_id, record p { placebo = true }))
        ⊎ (running host p ≡ (pos 0, terminate host p))
        ⊎ (running host p ≡ (pos 0, p))
  unfolding running
  running-cases p =
      let soon = ltb (host.now p.log - p.app_launch_time) 5 in
      one_of_four p.placebo (p.app.wait_all && p.process_group && host.group_running p.log)
        (p.process && host.process_running p.log)
        (p.app.auto_detach && p.process && host.process_exit_code p.log == 0 && soon) p.process _ _
        _ _

  pub running-Quiet : (p : Proc) → Quiet p (running host p).1
  running-Quiet p =
      let detached : Quiet p (record p { placebo = true }) = record { before = λ h. h } in
      elim (running-cases p) [
        | inl e ↦ rw e (Quiet-refl p)
        | inr (inl e) ↦ rw e detached
        | inr (inr (inl e)) ↦ rw e (terminate-Quiet p)
        | inr (inr (inr e)) ↦ rw e (Quiet-refl p)
      ]

  prepare_one-Quiet : (p : Proc) (c : Cmd) → Quiet p (prepare_one host p c).1
  prepare_one-Quiet p c =
      let dir = working_dir host p c.do_cmd in
      let next : Quiet p (passed p) = record { before = λ h. h } in
      elim (prepare_one-cases host p c) [
        | inl (skip, e) ↦ rw e next
        | inr (inl e) ↦ rw e (Quiet-emit p (failed c dir) tt)
        | inr (inr e) ↦ rw e (Quiet-trans next (Quiet-emit (passed p) (did c dir) tt))
      ]

  prepare-Quiet : (p : Proc) (cs : List Cmd) → Quiet p (prepare host p cs).1
  unfolding prepare
  prepare-Quiet p [] = Quiet-refl p
  prepare-Quiet p (c ∷ cs) =
      let (goes_on, q) = prepare_one host p c in
      elim (Bool-cases goes_on) [
        | inl e ↦ rw e (Quiet-trans (prepare_one-Quiet p c) (prepare-Quiet q cs))
        | inr e ↦ rw e (prepare_one-Quiet p c)
      ]

  spawn_all-Quiet : (p : Proc) (cmds : List Text) → Quiet p (spawn_all host p cmds)
  unfolding spawn_all
  spawn_all-Quiet p [] = Quiet-refl p
  spawn_all-Quiet p (cmd ∷ cmds) =
      let e = spawned cmd (working_dir host p cmd) in
      Quiet-trans (Quiet-emit p e tt) (spawn_all-Quiet (emit p e) cmds)

  launch-Quiet : (p : Proc) → Quiet p (launch host p).1
  unfolding launch emit
  launch-Quiet p = elim (Bool-cases (is_empty p.app.cmd)) [
    | inl e ↦ rw (launch, e) (record { before = λ h. h })
    | inr e ↦ rw (launch, e) (record { before = λ h. h })
  ]

  start-Quiet : (p : Proc) → Quiet p (start host p).1
  unfolding start
  start-Quiet p =
      let (ready, q) = prepare host p p.app.prep_cmds in
      let (runs, r) = launch host (spawn_all host q p.app.detached) in
      let prepared = prepare-Quiet p p.app.prep_cmds in
      let spawns = spawn_all-Quiet q p.app.detached in
      let tried =
        Quiet-trans prepared
          (Quiet-trans spawns (launch-Quiet (spawn_all host q p.app.detached))) in
      elim (Bool-cases ready) [
        | inr e ↦ rw e (Quiet-trans prepared (terminate-Quiet q))
        | inl e ↦ elim (Bool-cases runs) [
          | inr f ↦ rw (e, f) (Quiet-trans tried (terminate-Quiet r))
          | inl f ↦ rw (e, f) (record { before = λ h. tried.before h })
        ]
      ]

  pub execute-Quiet : (p : Proc) (id : ℤ) (s : LaunchSession) → Quiet p (execute host p id s).1
  unfolding execute select
  execute-Quiet p id s =
      let q = terminate host p in
      elim (Option-cases (find_app (show_ℤ id) q.apps)) [
        | inl e ↦ rw (execute, e) (terminate-Quiet p)
        | inr (app, e) ↦
            let v = select q id app s in
            let chosen : Quiet q v = record { before = λ h. h } in
            rw (execute, e) (Quiet-trans (terminate-Quiet p) (Quiet-trans chosen (start-Quiet v)))
      ]
