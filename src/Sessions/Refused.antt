-- ===== src/Sessions/Refused.antt =====
-- nvhttp.cpp: a launch that is refused leaves the display as it was, or reverted.
use solari.Base.{
  ◌≡◌, refl, subst, List, [], ◌∷◌, Bool, true, false, not, ◌&&◌, ◌||◌, inl, inr, Option-cases, ℕ,
  ◌+◌, ◌%◌, ◌==◌, if◌then◌else◌,
}
use mathlib.Core.Bool.{true≢false}
use solari.Base.Int.{ℤ, pos, ltb_ℤ}
use solari.Process.{running}
use solari.Process.State.{
  Host, Proc, emit, ended, terminate_gamepads, streaming_will_stop, revert_display,
  configure_display,
}
use solari.Sessions.{
  Pending, Slot, Server, Args, Video, Reply, refused, accepted, clear_slots, clear_if, clear,
  join_last, join, is_some, no_slots, emit_if, answers_zero, run_app, execute_app, launch_app,
  launch_session, launch_id, launch, or_false,
}
use solari.Sessions.Quiet.{
  is_configured, Quiet, Quiet-refl, Quiet-trans, Quiet-if, Quiet-emit, revert-Quiet, running-Quiet,
  execute-Quiet,
}
use solari.Sessions.Cancel.{if-keeps}

-- If the request is refused, the display is configured only if it was before.
abbrev pub Restores : Proc → Reply × Server → Type 0
Restores p (refused r, w) = Quiet p w.proc
Restores p (accepted, w) = Unit

-- From a state after the display was configured, if `alone`, a refusal reverts it, or it was not.
reverted :
    (p : Proc) (alone : Bool) (v : Server)
    → (alone ≡ false → Quiet p v.proc)
    → Quiet p (emit_if alone revert_display v).proc
reverted p true v f = revert-Quiet p v.proc
reverted p false v f = f refl

module _ (host : Host) (video : Video) where
  join_last-Quiet : (p : Proc) → Quiet p (join_last host video p)
  unfolding join_last
  join_last-Quiet p =
      let (r, q) = running host p in
      let idle = answers_zero r in
      let alone = if idle then emit q terminate_gamepads else q in
      let ready =
        Quiet-trans (running-Quiet host p)
          (Quiet-if idle (Quiet-emit q terminate_gamepads tt) (Quiet-refl q)) in
      Quiet-trans
        (Quiet-if (video.config_revert_on_disconnect || idle) (revert-Quiet p alone) ready)
        (Quiet-emit _ streaming_will_stop tt)

  join-Quiet : (n : ℕ) (p : Proc) (s : Slot) → Quiet p (join host video n p s).1
  unfolding join
  join-Quiet n p s =
      let reset = Quiet-emit p (ended s.id) tt in
      Quiet-if ((n + 4294967295) % 4294967296 == 0)
        (Quiet-trans reset (join_last-Quiet (emit p (ended s.id)))) reset

  clear_slots-Quiet :
      (test : Slot → Bool) (ss : List Slot) (c : ℕ × Proc)
      → Quiet c.1 (clear_slots host video test ss c).2
  unfolding clear_slots
  clear_slots-Quiet test [] c = Quiet-refl c.1
  clear_slots-Quiet test (s ∷ ss) c =
      if-keeps (λ (r : List Slot × ℕ × Proc). Quiet c.1 r.2) (test s) _ _
        (λ e.
          Quiet-trans (join-Quiet c.0 c.1 s)
            (clear_slots-Quiet test ss (join host video c.0 c.1 s)))
        (λ e. clear_slots-Quiet test ss c)

  launch_app-Restores :
      (p : Proc) (w : Server) (id : ℤ) (s : Pending) (alone : Bool)
      → (alone ≡ false → Quiet p w.proc)
      → Restores p (launch_app host video w id s alone)
  unfolding launch_app execute_app
  launch_app-Restores p w id s alone f =
      let (r, v) = execute_app host video w id s in
      if-keeps (Restores p) (not (ltb_ℤ (pos 0) id)) _ _ (λ e. tt)
        (λ e.
          if-keeps (Restores p) (not (answers_zero r)) _ _
            (λ g.
              reverted p alone v (λ h. Quiet-trans (f h) (execute-Quiet host w.proc id s.session)))
            (λ g. tt))

  launch_session-Restores :
      (p : Proc) (w : Server) (id : ℤ) (s : Pending) (mandatory : Bool)
      → Quiet p w.proc
      → Restores p (launch_session host video w id s mandatory)
  unfolding launch_session clear clear_if
  launch_session-Restores p w id s mandatory f =
      let counted = clear host video false w in
      let alone = no_slots counted in
      let cleared =
        Quiet-trans f
          (clear_slots-Quiet (λ t. false || t.stopping) w.slots (w.running_sessions, w.proc)) in
      let prepared = emit_if alone configure_display counted in
      let same = unprepared alone counted cleared in
      if-keeps (Restores p) (alone && video.probe_fails prepared.proc.log) _ _
        (λ e. reverted p alone prepared same)
        (λ e.
          if-keeps (Restores p) (not s.has_cipher && mandatory) _ _
            (λ g. reverted p alone prepared same)
            (λ g. launch_app-Restores p prepared id s alone same))
    where
      unprepared :
          (b : Bool) (c : Server)
          → Quiet p c.proc
          → b ≡ false
          → Quiet p (emit_if b configure_display c).proc
      unprepared true c q e = absurd (true≢false e)
      unprepared false c q e = q

  launch_id-Restores :
      (w : Server) (a : Args) (id : ℤ) → Restores w.proc (launch_id host video w a id)
  unfolding launch_id run_app
  launch_id-Restores w a id =
      let (current, v) = run_app host video w in
      let local = or_false a.local_audio in
      let ran = running-Quiet host w.proc in
      if-keeps (Restores w.proc) (not (a.rikey && a.rikeyid && is_some a.local_audio)) _ _
        (λ e. Quiet-refl w.proc)
        (λ e.
          if-keeps (Restores w.proc) (ltb_ℤ (pos 0) current) _ _ (λ f. ran)
            (λ f.
              launch_session-Restores w.proc (record v { host_audio = local }) id
                (a.make_launch_session local) a.encryption_mandatory ran))

  launch-Restores : (w : Server) (a : Args) → Restores w.proc (launch host video w a)
  unfolding launch
  launch-Restores w a = elim (Option-cases a.appid) [
    | inl e ↦ rw (launch, e) (Quiet-refl w.proc)
    | inr (id, e) ↦ rw (launch, e) (launch_id-Restores w a id)
  ]

-- In any state, whatever the system answers: after a launch that is refused, for whatever reason, the
-- display is configured, and not reverted since, only if it was before the request.
pub launch-refused :
    (host : Host) (video : Video) (w v : Server) (a : Args) (code : ℤ)
    → launch host video w a ≡ (refused code, v)
    → is_configured v.proc.log ≡ true
    → is_configured w.proc.log ≡ true
launch-refused host video w v a code e c =
    let restores : Quiet w.proc v.proc =
      subst (Restores w.proc) e (launch-Restores host video w a) in
    restores.before c
