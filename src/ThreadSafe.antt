-- ===== src/ThreadSafe.antt =====
-- thread_safe.h: `queue_t`, through which threads hand values to each other. Each operation holds the
-- lock, and is one step.
pub mod Order
pub mod Shared
mod Tests
use solari.Base.{ℕ, List, [], ◌∷◌, ◌++◌, Bool, true, false, not, ◌&&◌, ◌==◌, if◌then◌else◌, length}

-- `running` is `_continue`.
pub record Queue {ℓ} (A : Type ℓ) : Type ℓ where
  pub running : Bool
  pub max_elements : ℕ
  pub queue : List A

-- What a call of `pop` comes to: nothing, as the queue is stopped; a wait for a value, which the pop
-- with a delay gives up after it; or a value.
pub data Popped {ℓ} (A : Type ℓ) : Type ℓ where
  stopped waits : Popped A
  popped : A → Popped A

module _ {ℓ} {A : Type ℓ} where
  -- A full queue is emptied before the value comes in.
  unfoldable pub raise : Queue A → A → Queue A
  raise q a =
      if not q.running
      then q
      else if length q.queue == q.max_elements
      then record q { queue = a ∷ [] }
      else record q { queue = q.queue ++ a ∷ [] }

  unfoldable pub peek : Queue A → Bool
  peek q = q.running && not (length q.queue == 0)

  unfoldable pub pop_queue : Queue A → Popped A × Queue A
  pop_queue q =
      if not q.running
      then (stopped, q)
      else elim q.queue [ [] ↦ (waits, q) | a ∷ rest ↦ (popped a, record q { queue = rest }) ]

  unfoldable pub stop : Queue A → Queue A
  stop q = record q { running = false }
