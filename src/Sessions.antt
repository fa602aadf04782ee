-- ===== src/Sessions.antt =====
-- nvhttp.cpp, rtsp.cpp: the requests that launch, resume and cancel a session, the one launch session
-- that waits for its RTSP client, and the set of streaming sessions.
pub mod Quiet
pub mod Refused
pub mod Cancel
mod Tests
use solari.Base.{
  ℕ, zero, suc, List, [], ◌∷◌, Option, none, some, Bool, true, false, not, ◌&&◌, ◌||◌, ◌==◌, ◌+◌,
  ◌%◌, if◌then◌else◌,
}
use solari.Base.Int.{ℤ, pos, negsuc, ltb_ℤ}
use solari.Base.Text.{Text, same_text}
use solari.Process.State.{
  LaunchSession, Event, Host, Proc, emit, revert_display, configure_display, ended,
  terminate_gamepads, terminate_gamepads_of, streaming_will_start, streaming_will_stop,
}
use solari.Process.{execute, running, terminate}

-- What `make_launch_session` returns, as far as the handlers and the RTSP server read it.
pub record Pending : Type 0 where
  pub id : ℕ
  pub session : LaunchSession
  pub has_cipher : Bool

-- A `stream::session_t`, and whether its state is `STOPPING`.
pub record Slot : Type 0 where
  pub id : ℕ
  pub stopping : Bool
  pub cert : Text

-- `proc::proc`, `_session_slots`, `running_sessions` of stream.cpp, `launch_event`, whether `raised_timer` is
-- armed, and `host_audio`.
pub record Server : Type 0 where
  pub proc : Proc
  pub slots : List Slot
  pub running_sessions : ℕ
  pub pending : Option Pending
  pub timer : Bool
  pub host_audio : Bool

-- The arguments that a request has, with the launch session that `make_launch_session` makes of them. An
-- id that is above the range of `int` is not considered.
pub record Args : Type 0 where
  pub rikey : Bool
  pub rikeyid : Bool
  pub local_audio : Option Bool
  pub appid : Option ℤ
  pub make_launch_session : Bool → Pending
  pub encryption_mandatory : Bool

-- Whether `probe_encoders` fails, given all calls made before, and `config::video.dd.config_revert_on_disconnect`.
pub record Video : Type 0 where
  pub probe_fails : List Event → Bool
  pub config_revert_on_disconnect : Bool

-- `refused` is the answer with a status code other than 200.
pub data Reply : Type 0 where
  refused : ℤ → Reply
  accepted : Reply

abbrev pub is_some {ℓ} : {A : Type ℓ} → Option A → Bool
is_some none = false
is_some (some x) = true

-- `insert`: the set has a session once.
unfoldable pub insert_slot : Slot → List Slot → List Slot
insert_slot s [] = s ∷ []
insert_slot s (t ∷ ts) = let rest = insert_slot s ts in if t.id == s.id then t ∷ ts else t ∷ rest

unfoldable pub remove_slot : ℕ → List Slot → List Slot
remove_slot id [] = []
remove_slot id (t ∷ ts) = let rest = remove_slot id ts in if t.id == id then rest else t ∷ rest

unfoldable pub insert : Slot → Server → Server
unfolding insert_slot
insert s w = record w { slots = insert_slot s w.slots }

unfoldable pub remove : ℕ → Server → Server
unfolding remove_slot
remove id w = record w { slots = remove_slot id w.slots }

-- `stream::session::stop`, of a session that runs or already stops.
unfoldable pub stop_slot : ℕ → List Slot → List Slot
stop_slot id [] = []
stop_slot id (t ∷ ts) =
    let rest = stop_slot id ts in
    if t.id == id then record t { stopping = true } ∷ rest else t ∷ rest

unfoldable pub stop : ℕ → Server → Server
unfolding stop_slot
stop id w = record w { slots = stop_slot id w.slots }

-- The end of `stream::session::start`, where it does not fail; the counter has 32 bits.
unfoldable pub start : Server → Server
start w =
    let running = (w.running_sessions + 1) % 4294967296 in
    record w {
      running_sessions = running;
      proc = if running == 1 then emit w.proc streaming_will_start else w.proc;
    }

unfoldable pub session_raise : Pending → Server → Server
session_raise s w = if is_some w.pending then w else record w { pending = some s; timer = true }

-- The closure that `session_raise` hands to the timer.
unfoldable pub session_timeout : Server → Server
session_timeout w = if w.timer then record w { pending = none; timer = false } else w

unfoldable pub session_clear : ℕ → Server → Server
session_clear id w = elim w.pending [
  | none ↦ w
  | some s ↦ if s.id == id then record w { pending = none; timer = false } else w
]

abbrev pub no_slots : Server → Bool
no_slots w = elim w.slots [ [] ↦ true | s ∷ ss ↦ false ]

abbrev pub emit_if : Bool → Event → Server → Server
emit_if b e w = if b then record w { proc = emit w.proc e } else w

abbrev pub answers_zero : ℤ → Bool
answers_zero (pos zero) = true
answers_zero (pos (suc n)) = false
answers_zero (negsuc n) = false

abbrev pub or_false : Option Bool → Bool
or_false none = false
or_false (some b) = b

module _ (host : Host) (video : Video) where
  unfoldable pub run_app : Server → ℤ × Server
  run_app w = let (r, p) = running host w.proc in (r, record w { proc = p })

  -- The callbacks of `join` where no other session runs.
  unfoldable pub join_last : Proc → Proc
  join_last p =
      let (r, q) = running host p in
      let idle = answers_zero r in
      let alone = if idle then emit q terminate_gamepads else q in
      let reverts = video.config_revert_on_disconnect || idle in
      emit (if reverts then emit alone revert_display else alone) streaming_will_stop

  -- `stream::session::join`, and the counter after it, of 32 bits. The threads end in time: the task that ends
  -- the server after ten seconds does not run.
  unfoldable pub join : ℕ → Proc → Slot → ℕ × Proc
  join running_sessions p s =
      let left = (running_sessions + 4294967295) % 4294967296 in
      let reset = emit p (ended s.id) in (left, if left == 0 then join_last reset else reset)

  -- The loop of `clear` and of `clear_by_cert`: the sessions of which `test` holds are stopped and joined.
  unfoldable pub clear_slots : (Slot → Bool) → List Slot → ℕ × Proc → List Slot × ℕ × Proc
  clear_slots test [] c = ([], c.0, c.1)
  clear_slots test (s ∷ ss) c =
      let gone = clear_slots test ss (join c.0 c.1 s) in
      let (kept, n, p) = clear_slots test ss c in if test s then gone else (s ∷ kept, n, p)

  unfoldable pub clear_if : (Slot → Bool) → Server → Server
  unfolding clear_slots
  clear_if test w =
      let (slots, n, p) = clear_slots test w.slots (w.running_sessions, w.proc) in
      record w { slots = slots; running_sessions = n; proc = p }

  unfoldable pub clear : Bool → Server → Server
  unfolding clear_if
  clear all w = clear_if (λ s. all || s.stopping) w

  unfoldable pub clear_by_cert : Text → Server → Server
  unfolding clear_if
  clear_by_cert cert w = clear_if (λ s. same_text s.cert cert) w

  unfoldable pub terminate_sessions : Server → Server
  unfolding clear
  terminate_sessions w = emit_if true terminate_gamepads (clear true w)

  unfoldable pub terminate_sessions_by_cert : Text → Server → Server
  unfolding clear_by_cert
  terminate_sessions_by_cert cert w =
      emit_if true (terminate_gamepads_of cert) (clear_by_cert cert w)

  unfoldable pub execute_app : Server → ℤ → Pending → ℤ × Server
  execute_app w id s = let (r, p) = execute host w.proc id s.session in (r, record w { proc = p })

  -- `launch` from the call of `execute` on; `alone` is whether no session was active.
  unfoldable pub launch_app : Server → ℤ → Pending → Bool → Reply × Server
  unfolding execute_app
  launch_app w id s alone =
      let (r, v) = execute_app w id s in
      if not (ltb_ℤ (pos 0) id)
      then (accepted, session_raise s w)
      else if not (answers_zero r)
      then (refused r, emit_if alone revert_display v)
      else (accepted, session_raise s v)

  -- `launch` from the call of `session_count` on, where it has the arguments and no app runs.
  unfoldable pub launch_session : Server → ℤ → Pending → Bool → Reply × Server
  unfolding launch_app
  launch_session w id s mandatory =
      let counted = clear false w in
      let alone = no_slots counted in
      let prepared = emit_if alone configure_display counted in
      if alone && video.probe_fails prepared.proc.log
      then (refused (pos 503), emit_if alone revert_display prepared)
      else if not s.has_cipher && mandatory
      then (refused (pos 403), emit_if alone revert_display prepared)
      else launch_app prepared id s alone

  unfoldable pub launch_id : Server → Args → ℤ → Reply × Server
  unfolding run_app
  launch_id w a id =
      let (current, v) = run_app w in
      let local = or_false a.local_audio in
      if not (a.rikey && a.rikeyid && is_some a.local_audio)
      then (refused (pos 400), w)
      else if ltb_ℤ (pos 0) current
      then (refused (pos 400), v)
      else launch_session (record v { host_audio = local }) id (a.make_launch_session local)
          a.encryption_mandatory

  unfoldable pub launch : Server → Args → Reply × Server
  launch w a = elim a.appid [ none ↦ (refused (pos 400), w) | some id ↦ launch_id w a id ]

  -- `resume` once the display is prepared.
  unfoldable pub resume_prepared : Server → Args → Pending → Bool → Reply × Server
  resume_prepared w a s alone =
      if alone && video.probe_fails w.proc.log
      then (refused (pos 503), w)
      else if not s.has_cipher && a.encryption_mandatory
      then (refused (pos 403), w)
      else (accepted, session_raise s w)

  -- `resume` from the call of `session_count` on.
  unfoldable pub resume_session : Server → Args → Reply × Server
  unfolding resume_prepared
  resume_session w a =
      let counted = clear false w in
      let alone = no_slots counted in
      let audio : Bool =
        if alone then elim a.local_audio [ none ↦ w.host_audio | some b ↦ b ] else w.host_audio in
      let heard = record counted { host_audio = audio } in
      resume_prepared (emit_if alone configure_display heard) a (a.make_launch_session audio) alone

  unfoldable pub resume : Server → Args → Reply × Server
  unfolding resume_session run_app
  resume w a =
      let (current, v) = run_app w in
      if answers_zero current
      then (refused (pos 503), v)
      else if not (a.rikey && a.rikeyid)
      then (refused (pos 400), v)
      else resume_session v a

  unfoldable pub cancel : Server → Server
  unfolding run_app terminate_sessions
  cancel w =
      let (current, v) = run_app (terminate_sessions w) in
      let stopped = record v { proc = terminate host v.proc } in
      emit_if true revert_display (if ltb_ℤ (pos 0) current then stopped else v)

unfoldable pub initial : Proc → Bool → Server
initial p audio = record {
  proc = p;
  slots = [];
  running_sessions = 0;
  pending = none;
  timer = false;
  host_audio = audio;
}
