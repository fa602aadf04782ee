-- ===== src/Process/Tests.antt =====
-- process.cpp: an app with two prep commands, on systems that answer always alike.
use solari.Base.{◌≡◌, refl, List, [], ◌∷◌, some, true, false, ℕ}
use solari.Base.Int.{pos}
use solari.Base.Text
use solari.Base.Text.{Text, codes}
use solari.Process
use solari.Process.State
use solari.Process.State.{
  Cmd, App, LaunchSession, Event, did, failed, undid, launched, terminate_gamepads, revert_display,
  Host, no_error, Proc, show_ℤ,
}
use solari.Process.{terminate, execute, running, make, refresh, find_app}
use solari.Process.Launch.Life.{Live}
use solari.Process.History
use solari.Process.History.{
  Call, executes, asks, ends, state, state-Live, running-idle, execute-launches, Smooth,
}

-- Every command starts and exits with `code`; no process is found running.
abbrev host : ℕ → Host
host code = record {
  run_error = λ log cmd. no_error;
  wait_fails = λ log cmd. false;
  exit_code = λ log cmd. code;
  split = λ cmd. some (cmd ∷ []);
  is_absolute = λ path. true;
  search_path = λ path. path;
  parent_path = λ path. codes "/";
  group_running = λ log. false;
  request_group_exit = λ log. false;
  process_running = λ log. false;
  process_exit_code = λ log. 0;
  now = λ log. 100;
}

abbrev mount : Cmd
mount = record { do_cmd = codes "mount"; undo_cmd = codes "unmount"; elevated = false }

abbrev notify : Cmd
notify = record { do_cmd = codes "notify"; undo_cmd = []; elevated = false }

abbrev game : App
game = record {
  prep_cmds = mount ∷ notify ∷ [];
  detached = [];
  name = codes "Game";
  cmd = codes "game";
  working_dir = codes "/home";
  output = [];
  id = codes "7";
  elevated = false;
  auto_detach = false;
  wait_all = false;
  exit_timeout = pos 5;
}

abbrev session : LaunchSession
session = record {
  width = pos 1920;
  height = pos 1080;
  fps = pos 60;
  enable_hdr = false;
  gcmap = pos 0;
  host_audio = false;
  enable_sops = true;
  surround_info = 196610;
  surround_params = [];
}

abbrev calls : List Call
calls = asks ∷ executes (pos 7) session ∷ []

state-Live_example : Live (state (host 0) (make [] (game ∷ [])) calls)
state-Live_example = state-Live (host 0) [] (game ∷ []) calls (tt, (refl, tt))

abbrev fresh : Proc
fresh = make [] (game ∷ [])

idle_after : (running (host 0) (state (host 0) fresh calls)).0 ≡ pos 0
unfolding make state History.call execute terminate Process.end_processes
    Process.terminate_process_group Process.wait_group Process.undo_preps Process.undo_one
    Process.forget State.emit find_app show_ℤ Process.select Process.start Process.prepare
    Process.prepare_one Process.launch Process.spawn_all Process.started State.stream_env
    Process.working_dir Text.same_text Text.decimal Text.decimal_onto running
idle_after = refl

found : find_app (show_ℤ (pos 7)) (terminate (host 0) fresh).apps ≡ some game
unfolding make execute terminate Process.end_processes Process.terminate_process_group
    Process.wait_group Process.undo_preps Process.undo_one Process.forget State.emit find_app show_ℤ
    Process.select Process.start Process.prepare Process.prepare_one Process.launch
    Process.spawn_all Process.started State.stream_env Process.working_dir Text.same_text
    Text.decimal Text.decimal_onto
found = refl

-- The calls of a launch and of its end, the newest first.
whole_log :
    (terminate (host 0) (execute (host 0) fresh (pos 7) session).1).log
    ≡ revert_display
      ∷ undid mount (codes "/home")
      ∷ terminate_gamepads
      ∷ launched (codes "game") (codes "/home")
      ∷ did notify (codes "/home")
      ∷ did mount (codes "/home")
      ∷ terminate_gamepads
      ∷ []
unfolding make execute terminate Process.end_processes Process.terminate_process_group
    Process.wait_group Process.undo_preps Process.undo_one Process.forget State.emit find_app show_ℤ
    Process.select Process.start Process.prepare Process.prepare_one Process.launch
    Process.spawn_all Process.started State.stream_env Process.working_dir Text.same_text
    Text.decimal Text.decimal_onto
whole_log = refl

execute-launches_example : (execute (host 0) fresh (pos 7) session).0 ≡ pos 0
execute-launches_example = execute-launches (host 0) fresh (pos 7) session game smooth found
  where
    smooth : Smooth (host 0)
    smooth = record { runs = λ log cmd. refl; waits = λ log cmd. refl; exits = λ log cmd. refl }
