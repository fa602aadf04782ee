-- ===== src/Process.antt =====
-- process.cpp, process.h: the applications that a client launches, with the commands that prepare the
-- host for one and those that undo the preparation.
pub mod State
pub mod History
pub mod Stack
pub mod Launch
mod Tests
use mathlib.Core.Option
use solari.Base.{
  ℕ, zero, suc, ◌+◌, ◌-◌, ◌*◌, ◌%◌, List, [], ◌∷◌, ◌++◌, Option, none, some, Bool, true, false, not,
  ◌&&◌, ◌||◌, ltb, ◌==◌, if◌then◌else◌, get_elem?,
}
use solari.Base.Int.{ℤ, pos, negsuc, ltb_ℤ}
use solari.Base.Text.{has_prefix, Text, codes, decimal, same_text}
use solari.Process.State.{
  Cmd, App, LaunchSession, Event, did, failed, undid, spawned, launched, terminate_gamepads,
  revert_display, request_exit, sleep, terminate_group, configure_display, ended, RunError,
  no_error, permission_denied, other, Host, Proc, emit, is_empty, show_ℤ, put_env, show_bool,
  set_audio, stream_env,
}

-- `find_if` over the apps, by id.
unfoldable pub find_app : Text → List App → Option App
find_app id [] = none
find_app id (a ∷ apps) = if same_text a.id id then some a else find_app id apps

-- The end of `terminate`: the display goes back if an app has run.
unfoldable pub forget : Proc → Proc
unfolding emit
forget p =
    let q = record p { pipe = none } in
    let shown = not (is_empty p.app.name) && ltb_ℤ (pos 0) p.app_id in
    record (if shown then emit q revert_display else q) { app_id = negsuc 0 }

unfoldable pub started : RunError → Bool
started no_error = true
started permission_denied = false
started other = false

-- `execute` after the app is found: its state, up to the prep commands.
unfoldable pub select : Proc → ℤ → App → LaunchSession → Proc
unfolding stream_env
select p id app s =
    let wants_output = not (is_empty app.output) && not (same_text app.output (codes "null")) in
    record p {
      app_id = id;
      app = app;
      prep_it = 0;
      env = stream_env id app s p.env;
      pipe = if wants_output then some app.output else p.pipe;
    }

-- Whether `find` finds the text `part`.
unfoldable pub contains : Text → Text → Bool
unfolding has_prefix
contains part [] = is_empty part
contains part (c ∷ t) = has_prefix part (c ∷ t) || contains part t

module _ (host : Host) where
  -- The directory of the program that a command names; its environment is not read.
  unfoldable pub find_working_directory : Text → Text
  unfolding contains
  find_working_directory cmd = elim (host.split cmd) [
    | none ↦ []
    | some [] ↦ []
    | some (target ∷ args) ↦
        let path = if host.is_absolute target then target else host.search_path target in
        if contains (codes "://") target
        then []
        else if not (host.is_absolute target) && is_empty path
        then []
        else host.parent_path path
  ]

  -- The directory that a command of the app runs in.
  unfoldable pub working_dir : Proc → Text → Text
  working_dir p cmd =
      if is_empty p.app.working_dir then find_working_directory cmd else p.app.working_dir

  -- The polling loop of `terminate_process_group`, with `seconds` left of the timeout.
  unfoldable pub wait_group : ℕ → Proc → Proc
  wait_group zero p = p
  wait_group (suc seconds) p =
      let rest = wait_group seconds (emit p sleep) in if host.group_running p.log then rest else p

  unfoldable pub terminate_process_group : Proc → Proc
  unfolding wait_group emit
  terminate_process_group p =
      let timed = ltb_ℤ (pos 0) p.app.exit_timeout in
      let seconds : ℕ = elim p.app.exit_timeout [ pos n ↦ n | negsuc n ↦ 0 ] in
      let asked = emit p request_exit in
      let waited = if host.request_group_exit p.log then wait_group seconds asked else asked in
      if p.process_group && host.group_running p.log
      then emit (if timed then waited else p) terminate_group
      else p

  -- One round of the loop of `terminate`, after `_app_prep_it` went back to `it`.
  unfoldable pub undo_one : Proc → ℕ → Cmd → Proc
  unfolding emit
  undo_one p it c =
      let back = record p { prep_it = it } in
      if is_empty c.undo_cmd then back else emit back (undid c (working_dir p c.undo_cmd))

  unfoldable pub undo_preps : ℕ → Proc → Proc
  unfolding undo_one
  undo_preps zero p = p
  undo_preps (suc n) p = elim (get_elem? p.app.prep_cmds n) [
    | none ↦ p
    | some c ↦ undo_preps n (undo_one p n c)
  ]

  -- The beginning of `terminate`: the app's processes end.
  unfoldable pub end_processes : Proc → Proc
  unfolding emit
  end_processes p =
      record (terminate_process_group (record (emit p terminate_gamepads) { placebo = false })) {
        process = false;
        process_group = false;
      }

  unfoldable pub terminate : Proc → Proc
  terminate p = let q = end_processes p in forget (undo_preps q.prep_it q)

  -- One prep command: whether the launch goes on.
  unfoldable pub prepare_one : Proc → Cmd → Bool × Proc
  unfolding emit
  prepare_one p c =
      let dir = working_dir p c.do_cmd in
      let passed = record p { prep_it = suc p.prep_it } in
      let refused : Bool = elim (host.run_error p.log c.do_cmd) [
        | no_error ↦ false
        | permission_denied ↦ not (is_empty p.app.cmd)
        | other ↦ true
      ] in
      let bad = host.wait_fails p.log c.do_cmd || not (host.exit_code p.log c.do_cmd == 0) in
      if is_empty c.do_cmd
      then (true, passed)
      else if refused || bad
      then (false, emit p (failed c dir))
      else (true, emit passed (did c dir))

  unfoldable pub prepare : Proc → List Cmd → Bool × Proc
  prepare p [] = (true, p)
  prepare p (c ∷ cs) =
      let (goes_on, q) = prepare_one p c in
      let rest = prepare q cs in if goes_on then rest else (false, q)

  -- The detached commands; one that does not start is passed over.
  unfoldable pub spawn_all : Proc → List Text → Proc
  unfolding emit
  spawn_all p [] = p
  spawn_all p (cmd ∷ cmds) = spawn_all (emit p (spawned cmd (working_dir p cmd))) cmds

  -- The app itself: whether it starts.
  unfoldable pub launch : Proc → Bool × Proc
  unfolding emit
  launch p =
      let tried = emit p (launched p.app.cmd (working_dir p p.app.cmd)) in
      let runs = started (host.run_error p.log p.app.cmd) in
      if is_empty p.app.cmd
      then (true, record p { placebo = true })
      else (runs, record tried { process = runs; process_group = runs })

  -- The rest of `execute`, with the guard that terminates on failure.
  unfoldable pub start : Proc → ℤ × Proc
  start p =
      let (ready, q) = prepare p p.app.prep_cmds in
      let (runs, r) = launch (spawn_all q p.app.detached) in
      if not ready
      then (negsuc 0, terminate q)
      else if not runs
      then (negsuc 0, terminate r)
      else (pos 0, record r { app_launch_time = host.now r.log })

  unfoldable pub execute : Proc → ℤ → LaunchSession → ℤ × Proc
  execute p id s =
      let q = terminate p in
      elim (find_app (show_ℤ id) q.apps) [
        | none ↦ (pos 404, q)
        | some app ↦ start (select q id app s)
      ]

  -- A child that was never started has not the exit code 0.
  unfoldable pub running : Proc → ℤ × Proc
  running p =
      let soon = ltb (host.now p.log - p.app_launch_time) 5 in
      if p.placebo
      then (p.app_id, p)
      else if p.app.wait_all && p.process_group && host.group_running p.log
      then (p.app_id, p)
      else if p.process && host.process_running p.log
      then (p.app_id, p)
      else if p.app.auto_detach && p.process && host.process_exit_code p.log == 0 && soon
      then (p.app_id, record p { placebo = true })
      else if p.process
      then (pos 0, terminate p)
      else (pos 0, p)

abbrev pub no_app : App
no_app = record {
  prep_cmds = [];
  detached = [];
  name = [];
  cmd = [];
  working_dir = [];
  output = [];
  id = [];
  elevated = false;
  auto_detach = false;
  wait_all = false;
  exit_timeout = pos 0;
}

-- The constructor of `proc_t`.
unfoldable pub make : List (Text × Text) → List App → Proc
make env apps = record {
  app_id = pos 0;
  env = env;
  apps = apps;
  app = no_app;
  app_launch_time = 0;
  placebo = false;
  process = false;
  process_group = false;
  pipe = none;
  prep_it = 0;
  log = [];
}

-- `refresh` puts what it parsed, if it could, in the place of the whole state.
unfoldable pub refresh : Proc → Option (List (Text × Text) × List App) → Proc
refresh p none = p
refresh p (some (env, apps)) = record (make env apps) { log = p.log }
