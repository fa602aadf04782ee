-- ===== src/Process/History.antt =====
-- process.cpp: the calls that nvhttp.cpp and confighttp.cpp make on the running app, one after another.
use solari.Base.{◌≡◌, ap, refl, List, [], ◌∷◌, some, true, false, arith, All}
use solari.Base.Int.{ℤ, pos, ltb_ℤ}
use solari.Base.Text.{Text}
use solari.Process.State.{App, Cmd, no_error, show_ℤ, LaunchSession, Event, Host, Proc}
use solari.Process.{
  spawn_all, find_app, select, start, started, launch, prepare, prepare_one, terminate, execute,
  running, make,
}
use solari.Process.Stack.{nothing, terminate-Outstanding}
use solari.Process.Launch.Life.{Live, Ended, Ended-Live, execute-Started, running-Answered}

-- A call: `/launch`, a query of the state, or a request to end the app.
pub data Call : Type 0 where
  executes : ℤ → LaunchSession → Call
  asks ends : Call

-- A launch names an app by a positive number.
abbrev pub IsValid : Call → Type 0
IsValid (executes id session) = ltb_ℤ (pos 0) id ≡ true
IsValid asks = Unit
IsValid ends = Unit

module _ (host : Host) where
  unfoldable pub call : Proc → Call → Proc
  call p (executes id session) = (execute host p id session).1
  call p asks = (running host p).1
  call p ends = terminate host p

  -- The state after a list of calls, the newest first.
  unfoldable pub state : Proc → List Call → Proc
  unfolding call
  state p [] = p
  state p (c ∷ cs) = call (state p cs) c

pub make-Ended : (env : List (Text × Text)) (apps : List App) → Ended (make env apps)
unfolding make
make-Ended env apps = (nothing, refl, refl, refl, refl)

-- After any list of calls whose launches name apps by positive numbers: the log of the prep commands,
-- read as a stack, leaves exactly the commands before `_app_prep_it` to be undone, the last one first;
-- while no app counts as running there are none; a valid handle of a process group goes with one of a
-- process; and while an app counts as running, `_app_id` is positive.
pub state-Live :
    (host : Host) (env : List (Text × Text)) (apps : List App) (calls : List Call)
    → All IsValid calls
    → Live (state host (make env apps) calls)
unfolding state call
state-Live host env apps [] v = Ended-Live host (make env apps) (make-Ended env apps)
state-Live host env apps (executes id session ∷ cs) (v, vs) =
    (execute-Started host _ id session (state-Live host env apps cs vs) v).0
state-Live host env apps (asks ∷ cs) (v, vs) =
    (running-Answered host _ (state-Live host env apps cs vs)).0
state-Live host env apps (ends ∷ cs) (v, vs) =
    Ended-Live host _ (terminate-Outstanding host _ (state-Live host env apps cs vs).stacked)

-- After any list of calls whose launches name apps by positive numbers: if `running` answers 0, then all
-- prep commands that ran are undone, in the reverse order, and no app counts as running.
pub running-idle :
    (host : Host) (env : List (Text × Text)) (apps : List App) (calls : List Call)
    → All IsValid calls
    → (running host (state host (make env apps) calls)).0 ≡ pos 0
    → Ended (running host (state host (make env apps) calls)).1
running-idle host env apps calls v idle =
    (running-Answered host _ (state-Live host env apps calls v)).1 (ap (ltb_ℤ (pos 0)) idle)

-- A system on which every command that runs ends well.
pub record Smooth (host : Host) : Type 0 where
  pub runs : (log : List Event) (cmd : Text) → host.run_error log cmd ≡ no_error
  pub waits : (log : List Event) (cmd : Text) → host.wait_fails log cmd ≡ false
  pub exits : (log : List Event) (cmd : Text) → host.exit_code log cmd ≡ 0

prepare_one-Smooth :
    (host : Host) (p : Proc) (c : Cmd) → Smooth host → (prepare_one host p c).0 ≡ true
unfolding prepare_one
prepare_one-Smooth host p c smooth =
    ground
      (arith, smooth.runs p.log c.do_cmd, smooth.waits p.log c.do_cmd, smooth.exits p.log c.do_cmd)

prepare-Smooth :
    (host : Host) (p : Proc) (cs : List Cmd) → Smooth host → (prepare host p cs).0 ≡ true
unfolding prepare
prepare-Smooth host p [] smooth = refl
prepare-Smooth host p (c ∷ cs) smooth = ground (
  arith,
  prepare_one-Smooth host p c smooth,
  prepare-Smooth host (prepare_one host p c).1 cs smooth,
)

launch-Smooth : (host : Host) (p : Proc) → Smooth host → (launch host p).0 ≡ true
unfolding launch started
launch-Smooth host p smooth = ground (arith, smooth.runs p.log p.app.cmd)

start-Smooth : (host : Host) (p : Proc) → Smooth host → (start host p).0 ≡ pos 0
unfolding start
start-Smooth host p smooth =
    let (ready, q) = prepare host p p.app.prep_cmds in
    ground (
      arith,
      prepare-Smooth host p p.app.prep_cmds smooth,
      launch-Smooth host (spawn_all host q p.app.detached) smooth,
    )

-- On a system where every command starts and exits with 0, the launch of an app that is in the list
-- after `terminate` answers 0, in any state.
pub execute-launches :
    (host : Host) (p : Proc) (id : ℤ) (session : LaunchSession) (app : App)
    → Smooth host
    → find_app (show_ℤ id) (terminate host p).apps ≡ some app
    → (execute host p id session).0 ≡ pos 0
unfolding execute
execute-launches host p id session app smooth found =
    rw (found, execute) (start-Smooth host (select (terminate host p) id app session) smooth)
