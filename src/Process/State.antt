-- ===== src/Process/State.antt =====
-- process.cpp, process.h: the state of the running app, and the environment that its commands get.

use solari.Base.{ℕ, ◌+◌, ◌%◌, List, [], ◌∷◌, Option, Bool, true, false, ◌==◌, if◌then◌else◌}
use solari.Base.Int.{ℤ, pos, negsuc}
use solari.Base.Text.{Text, codes, decimal, same_text}

-- `config::prep_cmd_t`.
pub record Cmd : Type 0 where
  pub do_cmd : Text
  pub undo_cmd : Text
  pub elevated : Bool

-- `ctx_t`, but for the image.
pub record App : Type 0 where
  pub prep_cmds : List Cmd
  pub detached : List Text
  pub name : Text
  pub cmd : Text
  pub working_dir : Text
  pub output : Text
  pub id : Text
  pub elevated : Bool
  pub auto_detach : Bool
  pub wait_all : Bool
  pub exit_timeout : ℤ

-- What `execute` reads of `launch_session_t`.
pub record LaunchSession : Type 0 where
  pub width : ℤ
  pub height : ℤ
  pub fps : ℤ
  pub enable_hdr : Bool
  pub gcmap : ℤ
  pub host_audio : Bool
  pub enable_sops : Bool
  pub surround_info : ℕ
  pub surround_params : Text

-- The calls of the platform, of Boost.Process and of the other parts of the server. A prep command
-- that ran is `did` if it and the wait for it succeeded with exit code 0, or else `failed`. `ended` stands for
-- what `join` waits for in a session's threads, and for the reset of its input.
pub data Event : Type 0 where
  did failed undid : Cmd → Text → Event
  spawned : Text → Text → Event
  launched : Text → Text → Event
  terminate_gamepads revert_display : Event
  request_exit sleep terminate_group : Event
  configure_display : Event
  ended : ℕ → Event
  streaming_will_start streaming_will_stop : Event
  terminate_gamepads_of : Text → Event

-- `ec` after `platf::run_command`.
pub data RunError : Type 0 where
  no_error permission_denied other : RunError

-- What the system answers, given all calls made before. `wait_fails` is `ec` after `child.wait(ec)`;
-- `split` is `split_unix` or `split_winmain`, with `none` where it throws.
pub record Host : Type 0 where
  pub run_error : List Event → Text → RunError
  pub wait_fails : List Event → Text → Bool
  pub exit_code : List Event → Text → ℕ
  pub split : Text → Option (List Text)
  pub is_absolute : Text → Bool
  pub search_path : Text → Text
  pub parent_path : Text → Text
  pub group_running : List Event → Bool
  pub request_group_exit : List Event → Bool
  pub process_running : List Event → Bool
  pub process_exit_code : List Event → ℕ
  pub now : List Event → ℕ

-- `proc_t`. `process` and `process_group` say whether the handles are valid; `prep_it` is the distance
-- of `_app_prep_it` from `_app_prep_begin`; `log` lists the calls made so far, the newest first.
pub record Proc : Type 0 where
  pub app_id : ℤ
  pub env : List (Text × Text)
  pub apps : List App
  pub app : App
  pub app_launch_time : ℕ
  pub placebo : Bool
  pub process : Bool
  pub process_group : Bool
  pub pipe : Option Text
  pub prep_it : ℕ
  pub log : List Event

unfoldable pub emit : Proc → Event → Proc
emit p e = record p { log = e ∷ p.log }

abbrev pub is_empty : Text → Bool
is_empty [] = true
is_empty (c ∷ t) = false

-- `std::to_string` of an `int`.
unfoldable pub show_ℤ : ℤ → Text
show_ℤ (pos n) = decimal n
show_ℤ (negsuc n) = b'-' ∷ decimal (n + 1)

-- An assignment to `_env[key]`.
unfoldable pub put_env : Text → Text → List (Text × Text) → List (Text × Text)
put_env k v [] = (k, v) ∷ []
put_env k v ((j, u) ∷ m) = if same_text j k then (k, v) ∷ m else (j, u) ∷ put_env k v m

unfoldable pub show_bool : Bool → Text
show_bool b = if b then codes "true" else codes "false"

-- The number of channels is in the low 16 bits; another number leaves the variable as it was.
unfoldable pub set_audio : LaunchSession → List (Text × Text) → List (Text × Text)
unfolding put_env
set_audio s m =
    let channels = s.surround_info % 65536 in
    let key = codes "SUNSHINE_CLIENT_AUDIO_CONFIGURATION" in
    if channels == 2
    then put_env key (codes "2.0") m
    else if channels == 6
    then put_env key (codes "5.1") m
    else if channels == 8
    then put_env key (codes "7.1") m
    else m

unfoldable pub stream_env : ℤ → App → LaunchSession → List (Text × Text) → List (Text × Text)
unfolding put_env set_audio show_ℤ show_bool
stream_env id app s m₀ =
    let m₁ = put_env (codes "SUNSHINE_APP_ID") (show_ℤ id) m₀ in
    let m₂ = put_env (codes "SUNSHINE_APP_NAME") app.name m₁ in
    let m₃ = put_env (codes "SUNSHINE_CLIENT_WIDTH") (show_ℤ s.width) m₂ in
    let m₄ = put_env (codes "SUNSHINE_CLIENT_HEIGHT") (show_ℤ s.height) m₃ in
    let m₅ = put_env (codes "SUNSHINE_CLIENT_FPS") (show_ℤ s.fps) m₄ in
    let m₆ = put_env (codes "SUNSHINE_CLIENT_HDR") (show_bool s.enable_hdr) m₅ in
    let m₇ = put_env (codes "SUNSHINE_CLIENT_GCMAP") (show_ℤ s.gcmap) m₆ in
    let m₈ = put_env (codes "SUNSHINE_CLIENT_HOST_AUDIO") (show_bool s.host_audio) m₇ in
    let m₉ = put_env (codes "SUNSHINE_CLIENT_ENABLE_SOPS") (show_bool s.enable_sops) m₈ in
    put_env (codes "SUNSHINE_CLIENT_AUDIO_SURROUND_PARAMS") s.surround_params (set_audio s m₉)
