-- ===== src/Process/Launch.antt =====
-- process.cpp: the loop over the prep commands of an app that is launched.
pub mod Life
use solari.Base.{
  ℕ, zero, suc, ◌+◌, ◌≤◌, ◌<◌, ◌≡◌, ◌≢◌, refl, sym, ap, ◌∙◌, subst, List, [], ◌∷◌, ◌++◌, Option,
  none, some, Bool, true, false, not, ◌&&◌, ◌||◌, ◌⊎◌, ◌==◌, arith, length, length-append,
  get_elem?, get_elem?-append_length, Bool-cases, Option-cases, inl, inr, if◌then◌else◌, All, leb,
}
use mathlib.Core.List.{append_assoc, append-nil}
use solari.Base.Int.{ℤ, pos, negsuc, ltb_ℤ, pos_part}
use solari.Base.Text.{Text}
use solari.Process.State.{
  Cmd, App, LaunchSession, Event, did, failed, undid, spawned, launched, terminate_gamepads, Host,
  RunError, no_error, permission_denied, other, Proc, emit, is_empty, show_ℤ,
}
use solari.Process.{
  working_dir, find_app, terminate, prepare_one, prepare, spawn_all, launch, select, start, execute,
  running, make,
}
use solari.Process.Stack.{
  first, Outstanding, nothing, done, no_do, beside, Stacked, Frame, Frame-refl, Frame-trans,
  Frame-emit, Frame-if, Frame-Stacked, terminate-Outstanding, Text-cases,
}

abbrev pub passed : Proc → Proc
passed p = record p { prep_it = suc p.prep_it }

-- A prep command of two tests: it is skipped, or it fails, or it is done.
choose {ℓ} :
    {A : Type ℓ} (a b : Bool) (x y z : A)
    → ((a ≡ true) × ((if a then x else if b then y else z) ≡ x))
      ⊎ ((if a then x else if b then y else z) ≡ y)
      ⊎ ((if a then x else if b then y else z) ≡ z)
choose true b x y z = inl (refl, refl)
choose false true x y z = inr (inl refl)
choose false false x y z = inr (inr refl)

empty_eq : (t : Text) → is_empty t ≡ true → t ≡ []
empty_eq [] e = refl
empty_eq (c ∷ t) e = cc

module _ (host : Host) where
  -- What a loop over prep commands keeps.
  pub record Prepared (p q : Proc) : Type 0 where
    pub stacked : Stacked q
    pub app : q.app ≡ p.app
    pub app_id : q.app_id ≡ p.app_id
    pub process : q.process ≡ p.process
    pub process_group : q.process_group ≡ p.process_group

  Prepared-from :
      (p q : Proc) (log : List Event)
      → Prepared (record p { prep_it = suc p.prep_it; log = log }) q
      → Prepared p q
  Prepared-from p q log r = record {
    stacked = r.stacked;
    app = r.app;
    app_id = r.app_id;
    process = r.process;
    process_group = r.process_group;
  }

  pub prepare_one-cases :
      (p : Proc) (c : Cmd)
      → let dir = working_dir host p c.do_cmd in
        ((is_empty c.do_cmd ≡ true) × (prepare_one host p c ≡ (true, passed p)))
        ⊎ (prepare_one host p c ≡ (false, emit p (failed c dir)))
        ⊎ (prepare_one host p c ≡ (true, emit (passed p) (did c dir)))
  unfolding prepare_one emit
  prepare_one-cases p c = choose (is_empty c.do_cmd) _ _ _ _

  first-append :
      (pre cs : List Cmd) (c : Cmd) (cmds : List Cmd) (n : ℕ)
      → cmds ≡ pre ++ c ∷ cs
      → n ≡ length pre
      → first (suc n) cmds ≡ c ∷ first n cmds
  first-append pre cs c cmds n e m =
      let here : get_elem? cmds n ≡ some c = rw (e, m) (get_elem?-append_length pre c cs) in
      rw (here, first) refl

  -- The loop, after the commands `pre`.
  pub prepare-Prepared :
      (p : Proc) (pre cs : List Cmd)
      → p.app.prep_cmds ≡ pre ++ cs
      → p.prep_it ≡ length pre
      → Outstanding p.log (first p.prep_it p.app.prep_cmds)
      → Prepared p (prepare host p cs).1
  unfolding prepare emit
  prepare-Prepared p pre [] e n o = record {
    stacked = record {
      within = ground (arith, ap length e, length-append pre []);
      outstanding = o;
    };
    app = refl;
    app_id = refl;
    process = refl;
    process_group = refl;
  }
  prepare-Prepared p pre (c ∷ cs) e n o =
      let dir = working_dir host p c.do_cmd in
      let top = first-append pre cs c p.app.prep_cmds p.prep_it e n in
      let longer = e ∙ sym (append_assoc pre (c ∷ []) cs) in
      let size : suc p.prep_it ≡ length (pre ++ c ∷ []) =
        omega (arith, length-append pre (c ∷ [])) in
      let room = length-append pre (c ∷ cs) in
      elim (prepare_one-cases p c) [
        | inl (skip, q) ↦
            let same : (prepare host p (c ∷ cs)).1 ≡ (prepare host (passed p) cs).1 =
              ground arith in
            rw same (
              Prepared-from p _ p.log (
                prepare-Prepared (passed p) (pre ++ c ∷ []) cs longer size
                  (rw top (no_do (empty_eq c.do_cmd skip) o))))
        | inr (inl q) ↦
            let same : (prepare host p (c ∷ cs)).1 ≡ emit p (failed c dir) = ground arith in
            rw same (record {
              stacked = record { within = ground (arith, ap length e); outstanding = beside tt o };
              app = refl;
              app_id = refl;
              process = refl;
              process_group = refl;
            })
        | inr (inr q) ↦
            let v = emit (passed p) (did c dir) in
            let same : (prepare host p (c ∷ cs)).1 ≡ (prepare host v cs).1 = ground arith in
            rw same (
              Prepared-from p _ v.log
                (prepare-Prepared v (pre ++ c ∷ []) cs longer size (rw top (done o))))
      ]
