-- ===== src/Process/Launch/Life.antt =====
-- process.cpp: the prep commands of an app are undone when it does not start, and when it ends.
use solari.Base.{
  ◌≡◌, ◌≢◌, refl, sym, subst, List, [], ◌∷◌, Bool, true, false, ◌&&◌, ◌||◌, ◌⊎◌, arith, Bool-cases,
  Option-cases, inl, inr, if◌then◌else◌,
}
use mathlib.Core.Bool.{false≢true}
use solari.Base.Int.{ℤ, pos, negsuc, ltb_ℤ}
use solari.Base.Text.{Text}
use solari.Process.State.{LaunchSession, spawned, launched, Host, Proc, emit, is_empty, show_ℤ}
use solari.Process.{
  working_dir, find_app, terminate, started, prepare, spawn_all, launch, select, start, execute,
  running,
}
use solari.Process.Stack.{
  first, Outstanding, beside, Stacked, Frame, Frame-refl, Frame-trans, Frame-emit, Frame-Stacked,
  terminate-Outstanding,
}
use solari.Process.Launch.{prepare-Prepared}

-- Whether an app counts as running.
abbrev pub is_active : Proc → Bool
is_active p = p.placebo || p.process

abbrev pub Grouped : Proc → Type 0
Grouped p = p.process_group ≡ true → p.process ≡ true

-- The state between two calls.
pub record Live (p : Proc) : Type 0 where
  pub stacked : Stacked p
  pub covered : (is_active p ≡ true) ⊎ (p.prep_it ≡ 0)
  pub grouped : Grouped p
  pub identified : is_active p ≡ true → ltb_ℤ (pos 0) p.app_id ≡ true

-- A state with nothing outstanding and no app.
abbrev pub Ended : Proc → Type 0
Ended p =
    Outstanding p.log []
    × (p.prep_it ≡ 0)
    × (p.placebo ≡ false)
    × (p.process ≡ false)
    × (p.process_group ≡ false)

-- The answer of `execute` and the state after it.
abbrev pub Started : ℤ × Proc → Type 0
Started (r, q) = Live q × (r ≢ pos 0 → Ended q)

-- The answer of `running` and the state after it.
abbrev pub Answered : ℤ × Proc → Type 0
Answered (r, q) = Live q × (ltb_ℤ (pos 0) r ≡ false → Ended q)

-- The last of four tests holds.
one_of_three {ℓ} :
    {A : Type ℓ} (a b c d : Bool) (x y z w : A)
    → d ≡ true
    → let r = if a then x else if b then x else if c then y else if d then z else w in
      (r ≡ x) ⊎ (r ≡ y) ⊎ (r ≡ z)
one_of_three true b c d x y z w h = inl refl
one_of_three false true c d x y z w h = inl refl
one_of_three false false true d x y z w h = inr (inl refl)
one_of_three false false false true x y z w h = inr (inr refl)
one_of_three false false false false x y z w h = cc

module _ (host : Host) where
  pub Ended-Live : (p : Proc) → Ended p → Live p
  Ended-Live p (o, n, placebo, process, group) = record {
    stacked = record {
      within = ground arith;
      outstanding = subst (λ k. Outstanding p.log (first k p.app.prep_cmds)) (sym n) o;
    };
    covered = inr n;
    grouped = λ h. cc;
    identified = λ active. absurd (false≢true (ground arith));
  }

  spawn_all-Frame : (p : Proc) (cmds : List Text) → Frame p (spawn_all host p cmds)
  unfolding spawn_all
  spawn_all-Frame p [] = Frame-refl p
  spawn_all-Frame p (cmd ∷ cmds) =
      let e = spawned cmd (working_dir host p cmd) in
      Frame-trans (Frame-emit p e tt) (spawn_all-Frame (emit p e) cmds)

  abbrev Launched : Proc → Bool × Proc → Type 0
  Launched p (runs, q) =
      Stacked q
      × (q.app_id ≡ p.app_id)
      × (runs ≡ true → is_active q ≡ true)
      × (Grouped p → Grouped q)

  -- The launch of the app itself keeps the stack; if it succeeds, the app counts as running.
  launch-Launched : (p : Proc) → Stacked p → Launched p (launch host p)
  unfolding launch emit
  launch-Launched p s =
      let runs = started (host.run_error p.log p.app.cmd) in
      let tried = emit p (launched p.app.cmd (working_dir host p p.app.cmd)) in
      elim (Bool-cases (is_empty p.app.cmd)) [
        | inl e ↦
            let same : launch host p ≡ (true, record p { placebo = true }) = ground arith in
            subst (Launched p) (sym same)
              (record { within = s.within; outstanding = s.outstanding }, refl, λ h. refl, λ g. g)
        | inr e ↦
            let q : Proc = record tried { process = runs; process_group = runs } in
            let same : launch host p ≡ (runs, q) = ground arith in
            subst (Launched p) (sym same) (
              record { within = s.within; outstanding = beside tt s.outstanding },
              refl,
              λ h. ground arith,
              λ g h. h,
            )
      ]

  failed-Started : (q : Proc) → Stacked q → Started (negsuc 0, terminate host q)
  failed-Started q s =
      let end = terminate-Outstanding host q s in (Ended-Live (terminate host q) end, λ ne. end)

  start-Started :
      (p : Proc)
      → Stacked p
      → p.prep_it ≡ 0
      → ltb_ℤ (pos 0) p.app_id ≡ true
      → Grouped p
      → Started (start host p)
  unfolding start
  start-Started p s n positive grouped =
      let (ready, q) = prepare host p p.app.prep_cmds in
      let prepared = prepare-Prepared host p [] p.app.prep_cmds refl n s.outstanding in
      let spawns = spawn_all-Frame q p.app.detached in
      let (runs, r) = launch host (spawn_all host q p.app.detached) in
      let (kept, same_id, active, keeps) =
        launch-Launched (spawn_all host q p.app.detached) (Frame-Stacked spawns prepared.stacked) in
      let known : ltb_ℤ (pos 0) r.app_id ≡ true =
        rw (same_id, spawns.app_id, prepared.app_id) positive in
      elim (Bool-cases ready) [
        | inr bad ↦
            let same : start host p ≡ (negsuc 0, terminate host q) = ground arith in
            subst Started (sym same) (failed-Started q prepared.stacked)
        | inl good ↦ elim (Bool-cases runs) [
          | inr bad ↦
              let same : start host p ≡ (negsuc 0, terminate host r) = ground arith in
              subst Started (sym same) (failed-Started r kept)
          | inl ran ↦
              let v : Proc = record r { app_launch_time = host.now r.log } in
              let same : start host p ≡ (pos 0, v) = ground arith in
              let live : Live v = record {
                stacked = record { within = kept.within; outstanding = kept.outstanding };
                covered = inl (active ran);
                grouped = keeps (
                    rw
                      (
                        spawns.process, spawns.process_group, prepared.process,
                        prepared.process_group,
                      )
                      grouped);
                identified = λ h. known;
              } in
              subst Started (sym same) (live, λ ne. absurd (ne refl))
        ]
      ]

  -- An app's launch succeeds, with the app running; or it fails, with nothing left to undo.
  pub execute-Started :
      (p : Proc) (id : ℤ) (session : LaunchSession)
      → Live p
      → ltb_ℤ (pos 0) id ≡ true
      → Started (execute host p id session)
  unfolding execute select
  execute-Started p id session l positive =
      let q = terminate host p in
      let end = terminate-Outstanding host p l.stacked in
      elim (Option-cases (find_app (show_ℤ id) q.apps)) [
        | inl e ↦
            let same : execute host p id session ≡ (pos 404, q) = ground arith in
            subst Started (sym same) (Ended-Live q end, λ ne. end)
        | inr (app, e) ↦
            let v = select q id app session in
            let same : execute host p id session ≡ start host v = ground arith in
            subst Started (sym same) (
              start-Started v (record { within = omega arith; outstanding = end.0 }) refl positive
                (Ended-Live q end).grouped)
      ]

  -- What `running` does while the process handle is valid.
  running-process :
      (p : Proc)
      → p.placebo ≡ false
      → p.process ≡ true
      → (running host p ≡ (p.app_id, p))
        ⊎ (running host p ≡ (p.app_id, record p { placebo = true }))
        ⊎ (running host p ≡ (pos 0, terminate host p))
  unfolding running
  running-process p e ran =
      rw (e, running)
        (one_of_three (p.app.wait_all && p.process_group && host.group_running p.log) _ _ _ _ _ _ _
          ran)

  -- While an app counts as running, its id is the answer; else nothing is left to undo.
  pub running-Answered : (p : Proc) → Live p → Answered (running host p)
  unfolding running
  running-Answered p l = elim (Bool-cases p.placebo) [
    | inl e ↦
        let same : running host p ≡ (p.app_id, p) = ground arith in
        subst Answered (sym same) (l, λ zero_id. absurd (positive (ground arith) zero_id))
    | inr e ↦ elim (Bool-cases p.process) [
      | inl ran ↦
          let v : Proc = record p { placebo = true } in
          let known = positive (ground arith) in
          let live : Live v = record {
            stacked = record { within = l.stacked.within; outstanding = l.stacked.outstanding };
            covered = inl refl;
            grouped = l.grouped;
            identified = λ h. l.identified (ground arith);
          } in
          let end = terminate-Outstanding host p l.stacked in
          elim (running-process p e ran) [
            | inl same ↦ subst Answered (sym same) (l, λ zero_id. absurd (known zero_id))
            | inr (inl same) ↦ subst Answered (sym same) (live, λ zero_id. absurd (known zero_id))
            | inr (inr same) ↦
                subst Answered (sym same) (Ended-Live (terminate host p) end, λ h. end)
          ]
      | inr gone ↦
          let group : p.process_group ≡ false = ground (arith, l.grouped) in
          let same : running host p ≡ (pos 0, p) = ground arith in
          let none_left : p.prep_it ≡ 0 = ground (arith, l.covered) in
          subst Answered (sym same) (
            l,
            λ h. (
              subst (λ n. Outstanding p.log (first n p.app.prep_cmds)) none_left
                  l.stacked.outstanding,
              none_left,
              e,
              gone,
              group,
            ),
          )
    ]
  ]
    where
      positive : is_active p ≡ true → ltb_ℤ (pos 0) p.app_id ≢ false
      positive active zero_id = ground (arith, l.identified)
