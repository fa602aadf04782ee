-- ===== src/Sessions/Cancel.antt =====
-- nvhttp.cpp, rtsp.cpp: whatever requests come before, a cancelled session leaves nothing behind.
use solari.Base.{ℕ, ◌≡◌, refl, List, [], ◌∷◌, Bool, true, false, if◌then◌else◌}
use solari.Base.Text.{Text}
use solari.Process.State.{Host}
use solari.Process.{terminate}
use solari.Process.Launch.Life.{Live}
use solari.Sessions.{
  Slot, Server, Args, Video, Reply, clear, start, terminate_sessions_by_cert, insert, remove, stop,
  session_timeout, session_clear, run_app, launch, resume, cancel,
}

pub if-keeps {ℓ κ} :
    {A : Type ℓ} (P : A → Type κ) (b : Bool) (x y : A)
    → (b ≡ true → P x)
    → (b ≡ false → P y)
    → P (if b then x else y)
if-keeps P true x y f g = f refl
if-keeps P false x y f g = g refl

abbrev Keeps : Reply × Server → Type 0
Keeps (reply, w) = Live w.proc

-- A request to the server, an end of the app that confighttp.cpp or a query asks for, or what the RTSP
-- server and the streaming sessions do between requests.
pub data Step : Type 0 where
  launches resumes : Args → Step
  cancels asks terminates times_out : Step
  inserts : Slot → Step
  starts : Step
  removes stops raised_clears : ℕ → Step
  clears : Bool → Step
  clears_cert : Text → Step

module _ (host : Host) (video : Video) where
  unfoldable pub step : Server → Step → Server
  unfolding run_app
  step w (launches a) = (launch host video w a).1
  step w (resumes a) = (resume host video w a).1
  step w cancels = cancel host video w
  step w asks = (run_app host video w).1
  step w terminates = record w { proc = terminate host w.proc }
  step w times_out = session_timeout w
  step w (inserts s) = insert s w
  step w starts = start w
  step w (removes id) = remove id w
  step w (stops id) = stop id w
  step w (raised_clears id) = session_clear id w
  step w (clears all) = clear host video all w
  step w (clears_cert cert) = terminate_sessions_by_cert host video cert w

  -- The state after a list of steps, the newest first.
  unfoldable pub after : Server → List Step → Server
  unfolding step
  after w [] = w
  after w (s ∷ ss) = step (after w ss) s
