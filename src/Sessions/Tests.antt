-- ===== src/Sessions/Tests.antt =====
-- nvhttp.cpp, rtsp.cpp: an app that is launched, resumed and cancelled, and a launch that fails.
use solari.Base.{◌≡◌, refl, List, [], ◌∷◌, some, none, true, false, ℕ}
use solari.Base.Int.{pos, negsuc}
use solari.Base.Text
use solari.Base.Text.{codes}
use solari.Process
use solari.Process.State
use solari.Process.State.{
  Cmd, App, LaunchSession, Event, ended, revert_display, configure_display, terminate_gamepads,
  Host, no_error,
}
use solari.Process.{make}
use solari.Sessions
use solari.Sessions.{Pending, Slot, Server, Args, Video, refused, accepted, launch, resume, initial}
use solari.Sessions.Cancel.{Step, launches, resumes, inserts, starts, stops}
use solari.Sessions.Quiet.{is_configured}
use solari.Sessions.Refused.{launch-refused}

-- Every command starts and exits with `code`; the first process goes on running.
abbrev host : ℕ → Host
host code = record {
  run_error = λ log cmd. no_error;
  wait_fails = λ log cmd. false;
  exit_code = λ log cmd. code;
  split = λ cmd. none;
  is_absolute = λ path. true;
  search_path = λ path. path;
  parent_path = λ path. path;
  group_running = λ log. false;
  request_group_exit = λ log. false;
  process_running = λ log. true;
  process_exit_code = λ log. 0;
  now = λ log. 100;
}

abbrev video : Video
video = record { probe_fails = λ log. false; config_revert_on_disconnect = false }

abbrev mount : Cmd
mount = record { do_cmd = codes "mount"; undo_cmd = codes "unmount"; elevated = false }

abbrev game : App
game = record {
  prep_cmds = mount ∷ [];
  detached = [];
  name = codes "Game";
  cmd = codes "game";
  working_dir = codes "/home";
  output = [];
  id = codes "7";
  elevated = false;
  auto_detach = false;
  wait_all = false;
  exit_timeout = pos 0;
}

abbrev session : LaunchSession
session = record {
  width = pos 1920;
  height = pos 1080;
  fps = pos 60;
  enable_hdr = false;
  gcmap = pos 0;
  host_audio = false;
  enable_sops = true;
  surround_info = 2;
  surround_params = [];
}

abbrev args : Args
args = record {
  rikey = true;
  rikeyid = true;
  local_audio = some false;
  appid = some (pos 7);
  make_launch_session = λ audio. record { id = 1; session = session; has_cipher = true };
  encryption_mandatory = true;
}

abbrev slot : Slot
slot = record { id = 4; stopping = false; cert = [] }

abbrev steps : List Step
steps = resumes args ∷ stops 4 ∷ starts ∷ inserts slot ∷ launches args ∷ []

abbrev fresh : Server
fresh = initial (make [] (game ∷ [])) false

-- The state after a launch that fails in its prep command.
abbrev failed_launch : Server
failed_launch = (launch (host 1) video fresh args).1

launch_fails : launch (host 1) video fresh args ≡ (refused (negsuc 0), failed_launch)
unfolding initial make launch Sessions.launch_id Sessions.launch_session Sessions.launch_app
    Sessions.run_app Sessions.execute_app Sessions.clear Sessions.clear_if Sessions.clear_slots
    Sessions.join Sessions.join_last Sessions.session_raise Process.running Process.execute
    Process.terminate Process.end_processes Process.terminate_process_group Process.wait_group
    Process.undo_preps Process.undo_one Process.forget State.emit Process.find_app State.show_ℤ
    Process.select Process.start Process.prepare Process.prepare_one Process.launch
    Process.spawn_all Process.started State.stream_env Process.working_dir Text.same_text
    Text.decimal Text.decimal_onto
launch_fails = refl

-- No session ends a configuration that an earlier request made.
abbrev shared : Server
shared = record fresh {
  proc = record fresh.proc { log = configure_display ∷ [] };
  slots = slot ∷ [];
  running_sessions = 1;
}

abbrev strict : Args
strict = record args {
  make_launch_session = λ audio. record { id = 1; session = session; has_cipher = false };
}

abbrev refused_launch : Server
refused_launch = (launch (host 0) video shared strict).1

launch_refused : launch (host 0) video shared strict ≡ (refused (pos 403), refused_launch)
unfolding initial make launch Sessions.launch_id Sessions.launch_session Sessions.launch_app
    Sessions.run_app Sessions.execute_app Sessions.clear Sessions.clear_if Sessions.clear_slots
    Sessions.join Sessions.join_last Sessions.session_raise Process.running Process.execute
    Process.terminate Process.end_processes Process.terminate_process_group Process.wait_group
    Process.undo_preps Process.undo_one Process.forget State.emit Process.find_app State.show_ℤ
    Process.select Process.start Process.prepare Process.prepare_one Process.launch
    Process.spawn_all Process.started State.stream_env Process.working_dir Text.same_text
    Text.decimal Text.decimal_onto
launch_refused = refl

still_configured : is_configured refused_launch.proc.log ≡ true
unfolding initial make launch Sessions.launch_id Sessions.launch_session Sessions.launch_app
    Sessions.run_app Sessions.execute_app Sessions.clear Sessions.clear_if Sessions.clear_slots
    Sessions.join Sessions.join_last Sessions.session_raise Process.running Process.execute
    Process.terminate Process.end_processes Process.terminate_process_group Process.wait_group
    Process.undo_preps Process.undo_one Process.forget State.emit Process.find_app State.show_ℤ
    Process.select Process.start Process.prepare Process.prepare_one Process.launch
    Process.spawn_all Process.started State.stream_env Process.working_dir Text.same_text
    Text.decimal Text.decimal_onto
still_configured = refl

launch-refused_example : is_configured shared.proc.log ≡ true
launch-refused_example =
    launch-refused (host 0) video shared refused_launch strict (pos 403) launch_refused
      still_configured
