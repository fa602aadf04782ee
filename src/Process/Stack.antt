-- ===== src/Process/Stack.antt =====
-- process.cpp: the calls of an app's prep commands read as a stack, against `_app_prep_it`.
use solari.Base.{
  ℕ, zero, suc, ◌≤◌, ◌≡◌, refl, sym, ◌∙◌, subst, List, [], ◌∷◌, none, some, Bool, true, false, not,
  ◌&&◌, arith, ◌⊎◌, length, get_elem?, Bool-cases, Option-cases, inl, inr, if◌then◌else◌,
  le_of_get_elem?-none,
}
use solari.Base.Int.{pos, ltb_ℤ}
use solari.Base.Text.{Text}
use solari.Process.State.{
  Cmd, App, Event, did, undid, terminate_gamepads, request_exit, sleep, terminate_group, Host, Proc,
  emit, is_empty,
}
use solari.Process.{
  wait_group, terminate_process_group, undo_one, undo_preps, forget, end_processes, terminate,
  working_dir,
}

pub Text-cases : (t : Text) → (t ≡ []) ⊎ (is_empty t ≡ false)
Text-cases [] = inl refl
Text-cases (c ∷ t) = inr refl

-- The first `n` commands, the last of them first.
abbrev pub first : ℕ → List Cmd → List Cmd
first zero cs = []
first (suc n) cs = elim (get_elem? cs n) [ none ↦ first n cs | some c ↦ c ∷ first n cs ]

abbrev pub IsOther : Event → Type 0
IsOther (did c dir) = ⊥
IsOther (undid c dir) = ⊥
IsOther e = Unit

-- The calls, the newest first, leave the commands `cs` to be undone, the newest first: each call of a
-- command's first part puts it on the stack, and the top alone can be undone. Of a command with an
-- empty part that part is not called.
pub data Outstanding : List Event → List Cmd → Type 0 where
  nothing : Outstanding [] []
  done :
      {log : List Event} {cs : List Cmd} {c : Cmd} {dir : Text}
      → Outstanding log cs
      → Outstanding (did c dir ∷ log) (c ∷ cs)
  undone :
      {log : List Event} {cs : List Cmd} {c : Cmd} {dir : Text}
      → Outstanding log (c ∷ cs)
      → Outstanding (undid c dir ∷ log) cs
  no_do :
      {log : List Event} {cs : List Cmd} {c : Cmd}
      → c.do_cmd ≡ []
      → Outstanding log cs
      → Outstanding log (c ∷ cs)
  no_undo :
      {log : List Event} {cs : List Cmd} {c : Cmd}
      → c.undo_cmd ≡ []
      → Outstanding log (c ∷ cs)
      → Outstanding log cs
  beside :
      {log : List Event} {cs : List Cmd} {e : Event}
      → IsOther e
      → Outstanding log cs
      → Outstanding (e ∷ log) cs

-- What `_app_prep_it` stands for.
pub record Stacked (p : Proc) : Type 0 where
  pub within : p.prep_it ≤ length p.app.prep_cmds
  pub outstanding : Outstanding p.log (first p.prep_it p.app.prep_cmds)

-- Calls that are of no prep command.
pub record Frame (p q : Proc) : Type 0 where
  pub app : q.app ≡ p.app
  pub prep_it : q.prep_it ≡ p.prep_it
  pub app_id : q.app_id ≡ p.app_id
  pub apps : q.apps ≡ p.apps
  pub placebo : q.placebo ≡ p.placebo
  pub process : q.process ≡ p.process
  pub process_group : q.process_group ≡ p.process_group
  pub outstanding : (cs : List Cmd) → Outstanding p.log cs → Outstanding q.log cs

pub Frame-refl : (p : Proc) → Frame p p
Frame-refl p = record {
  app = refl;
  prep_it = refl;
  app_id = refl;
  apps = refl;
  placebo = refl;
  process = refl;
  process_group = refl;
  outstanding = λ cs o. o;
}

pub Frame-trans : {p q r : Proc} → Frame p q → Frame q r → Frame p r
Frame-trans f g = record {
  app = g.app ∙ f.app;
  prep_it = g.prep_it ∙ f.prep_it;
  app_id = g.app_id ∙ f.app_id;
  apps = g.apps ∙ f.apps;
  placebo = g.placebo ∙ f.placebo;
  process = g.process ∙ f.process;
  process_group = g.process_group ∙ f.process_group;
  outstanding = λ cs o. g.outstanding cs (f.outstanding cs o);
}

pub Frame-emit : (p : Proc) (e : Event) → IsOther e → Frame p (emit p e)
unfolding emit
Frame-emit p e other = record {
  app = refl;
  prep_it = refl;
  app_id = refl;
  apps = refl;
  placebo = refl;
  process = refl;
  process_group = refl;
  outstanding = λ cs o. beside other o;
}

pub Frame-if : (b : Bool) {p q r : Proc} → Frame p q → Frame p r → Frame p (if b then q else r)
Frame-if true f g = f
Frame-if false f g = g

pub Frame-Stacked : {p q : Proc} → Frame p q → Stacked p → Stacked q
Frame-Stacked {p} {q} f s = record {
  within = ground (arith, f.prep_it, f.app, s.within);
  outstanding =
      subst (λ n. Outstanding q.log (first n q.app.prep_cmds)) (sym f.prep_it)
        (subst (λ (a : App). Outstanding q.log (first p.prep_it a.prep_cmds)) (sym f.app)
          (f.outstanding _ s.outstanding));
}

module _ (host : Host) where
  wait_group-Frame : (seconds : ℕ) (p : Proc) → Frame p (wait_group host seconds p)
  unfolding wait_group
  wait_group-Frame zero p = Frame-refl p
  wait_group-Frame (suc seconds) p =
      Frame-if (host.group_running p.log)
        (Frame-trans (Frame-emit p sleep tt) (wait_group-Frame seconds (emit p sleep)))
        (Frame-refl p)

  terminate_process_group-Frame : (p : Proc) → Frame p (terminate_process_group host p)
  unfolding terminate_process_group
  terminate_process_group-Frame p =
      let asked = Frame-emit p request_exit tt in
      let waited = Frame-trans asked (wait_group-Frame _ (emit p request_exit)) in
      let before =
        Frame-if _ (Frame-if (host.request_group_exit p.log) waited asked) (Frame-refl p) in
      Frame-if _ (Frame-trans before (Frame-emit _ terminate_group tt)) (Frame-refl p)

  pub end_processes-Stacked :
      (p : Proc)
      → Stacked p
      → Stacked (end_processes host p)
        × ((end_processes host p).placebo ≡ false)
        × ((end_processes host p).process ≡ false)
        × ((end_processes host p).process_group ≡ false)
  unfolding end_processes emit
  end_processes-Stacked p s =
      let q = record (emit p terminate_gamepads) { placebo = false } in
      let f = terminate_process_group-Frame q in
      let before : Stacked q = record {
        within = s.within;
        outstanding = beside tt s.outstanding;
      } in
      let t = Frame-Stacked f before in
      (record { within = t.within; outstanding = t.outstanding }, f.placebo, refl, refl)

  -- One round of the undoing loop takes the top off.
  undo_one-Outstanding :
      (p : Proc) (n : ℕ) (c : Cmd) (cs : List Cmd)
      → Outstanding p.log (c ∷ cs)
      → Outstanding (undo_one host p n c).log cs
  unfolding undo_one
  undo_one-Outstanding p n c cs o = elim (Text-cases c.undo_cmd) [
    | inl e ↦ rw (e, undo_one) (no_undo e o)
    | inr e ↦
        let same : (undo_one host p n c).log ≡ undid c (working_dir host p c.undo_cmd) ∷ p.log =
          ground arith in
        rw same (undone o)
  ]

  undo_one-app : (p : Proc) (n : ℕ) (c : Cmd) → (undo_one host p n c).app ≡ p.app
  unfolding undo_one
  undo_one-app p n c = ground arith

  undo_one-prep_it : (p : Proc) (n : ℕ) (c : Cmd) → (undo_one host p n c).prep_it ≡ n
  unfolding undo_one
  undo_one-prep_it p n c = ground arith

  undo_one-flags :
      (p : Proc) (n : ℕ) (c : Cmd)
      → ((undo_one host p n c).placebo ≡ p.placebo)
        × ((undo_one host p n c).process ≡ p.process)
        × ((undo_one host p n c).process_group ≡ p.process_group)
  unfolding undo_one
  undo_one-flags p n c = (ground arith, ground arith, ground arith)

  -- The loop of `terminate` undoes all that is outstanding.
  pub undo_preps-Outstanding :
      (n : ℕ) (p : Proc)
      → n ≤ length p.app.prep_cmds
      → p.prep_it ≡ n
      → Outstanding p.log (first n p.app.prep_cmds)
      → Outstanding (undo_preps host n p).log [] × ((undo_preps host n p).prep_it ≡ 0)
  unfolding undo_preps
  undo_preps-Outstanding zero p h e o = (o, e)
  undo_preps-Outstanding (suc n) p h e o = elim (Option-cases (get_elem? p.app.prep_cmds n)) [
    | inl q ↦ absurd (omega (arith, le_of_get_elem?-none p.app.prep_cmds n q))
    | inr (c, q) ↦
        let v = undo_one host p n c in
        let app = undo_one-app p n c in
        let left = undo_one-Outstanding p n c (first n p.app.prep_cmds) (rw (q, first) at o) in
        let same : undo_preps host (suc n) p ≡ undo_preps host n v = ground arith in
        rw same (
          undo_preps-Outstanding n v (ground arith) (undo_one-prep_it p n c)
            (subst (λ (a : App). Outstanding v.log (first n a.prep_cmds)) (sym app) left))
  ]

pub forget-Outstanding :
    (p : Proc) (cs : List Cmd) → Outstanding p.log cs → Outstanding (forget p).log cs
unfolding forget
forget-Outstanding p cs o =
    elim (Bool-cases (not (is_empty p.app.name) && ltb_ℤ (pos 0) p.app_id)) [
      | inl e ↦ rw (e, forget) (beside tt o)
      | inr e ↦ rw (e, forget) o
    ]

forget-prep_it : (p : Proc) → (forget p).prep_it ≡ p.prep_it
unfolding forget
forget-prep_it p = ground arith

forget-flags :
    (p : Proc)
    → ((forget p).placebo ≡ p.placebo)
      × ((forget p).process ≡ p.process)
      × ((forget p).process_group ≡ p.process_group)
unfolding forget
forget-flags p = (ground arith, ground arith, ground arith)

module _ (host : Host) where
  undo_preps-flags :
      (n : ℕ) (p : Proc)
      → ((undo_preps host n p).placebo ≡ p.placebo)
        × ((undo_preps host n p).process ≡ p.process)
        × ((undo_preps host n p).process_group ≡ p.process_group)
  unfolding undo_preps
  undo_preps-flags zero p = (refl, refl, refl)
  undo_preps-flags (suc n) p = elim (Option-cases (get_elem? p.app.prep_cmds n)) [
    | inl e ↦ rw (e, undo_preps) (refl, refl, refl)
    | inr (c, e) ↦
        let same : undo_preps host (suc n) p ≡ undo_preps host n (undo_one host p n c) =
          ground arith in
        let rest = undo_preps-flags n (undo_one host p n c) in
        let one = undo_one-flags host p n c in
        rw same (rest.0 ∙ one.0, rest.1 ∙ one.1, rest.2 ∙ one.2)
  ]

  -- After `terminate` nothing is outstanding, and no app counts as running.
  pub terminate-Outstanding :
      (p : Proc)
      → Stacked p
      → Outstanding (terminate host p).log []
        × ((terminate host p).prep_it ≡ 0)
        × ((terminate host p).placebo ≡ false)
        × ((terminate host p).process ≡ false)
        × ((terminate host p).process_group ≡ false)
  unfolding terminate
  terminate-Outstanding p s =
      let q = end_processes host p in
      let (t, placebo, process, group) = end_processes-Stacked host p s in
      let (o, zero_it) = undo_preps-Outstanding host q.prep_it q t.within refl t.outstanding in
      let flags = undo_preps-flags q.prep_it q in
      let kept = forget-flags (undo_preps host q.prep_it q) in
      (
        forget-Outstanding _ [] o,
        forget-prep_it _ ∙ zero_it,
        kept.0 ∙ flags.0 ∙ placebo,
        kept.1 ∙ flags.1 ∙ process,
        kept.2 ∙ flags.2 ∙ group,
      )
