-- ===== src/Input/Session/Queue.antt =====
-- input.cpp: the worker works the packet queue off.
use solari.Base.{ℕ, zero, suc, ◌+◌, ◌≤◌, ◌≡◌, ap, arith, List, [], length, inl, inr, List-cases}
use solari.Input.State.{Limelight, Floats}
use solari.Input.Packet.{Packet}
use solari.Input.Batch.Merge.{Taken, done, take, skip, batch_queue-Batched}
use solari.Input.Gamepad.{Backend}
use solari.Input.Session.{Session, passthrough_next_message}

length-Taken : {qs ms rs : List Packet} → Taken qs ms rs → length ms + length rs ≡ length qs
length-Taken done = omega arith
length-Taken (take t) = omega (arith, length-Taken t)
length-Taken (skip t) = omega (arith, length-Taken t)

module _ (lim : Limelight) (fl : Floats) (backend : Backend) where
  -- `n` runs of the worker's task.
  unfoldable pub drain : ℕ → Session → Session
  drain zero s = s
  drain (suc n) s = drain n (passthrough_next_message lim fl backend s)

  -- A run takes at least one packet off a queue that has any, and only packets that it sends or merges.
  next_shorter :
      (s : Session) (n : ℕ)
      → length s.input_queue ≤ suc n
      → length (passthrough_next_message lim fl backend s).input_queue ≤ n
  unfolding passthrough_next_message
  next_shorter s n h = elim (List-cases s.input_queue) [
    | inl e ↦ ground arith
    | inr (p, queue, e) ↦
        let sizes = length-Taken (batch_queue-Batched lim p queue).taken in
        let total = ap length e in ground arith
  ]

  -- As many runs of the worker's task as there are packets queued leave the queue empty, whatever the
  -- packets are and however they are batched.
  pub drain-empty : (n : ℕ) (s : Session) → length s.input_queue ≤ n → (drain n s).input_queue ≡ []
  unfolding drain
  drain-empty zero s h = elim (List-cases s.input_queue) [
    | inl e ↦ e
    | inr (p, queue, e) ↦ absurd (omega (arith, ap length e))
  ]
  drain-empty (suc n) s h =
      drain-empty n (passthrough_next_message lim fl backend s) (next_shorter s n h)
