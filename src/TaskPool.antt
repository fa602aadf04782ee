-- ===== src/TaskPool.antt =====
-- task_pool.h: the queue of immediate and delayed tasks. A task body is an abstract value `A`; the
-- steady clock is the argument `now`; a task's address, by which it is named, is a number.
pub mod Order
pub mod Run
pub mod Pop
pub mod Cancel
mod Tests
use mathlib.Core.Option
use solari.Base.{
  ℕ, ◌+◌, List, [], ◌∷◌, ◌++◌, Option, none, some, Bool, true, false, ◌&&◌, ltb, leb, ◌==◌,
  if◌then◌else◌, is_some,
}

-- An entry of `_timer_tasks`; `task` is `none` once the owning pointer was moved out.
pub record Timer {ℓ} (A : Type ℓ) : Type ℓ where
  pub time : ℕ
  pub id : ℕ
  pub task : Option A

-- The vector `_timer_tasks` is listed from its front (the latest due time) to its back.
pub record TaskPool {ℓ} (A : Type ℓ) : Type ℓ where
  pub tasks : List A
  pub timer_tasks : List (Timer A)

module _ {ℓ} {A : Type ℓ} where
  unfoldable pub empty : TaskPool A
  empty = record { tasks = []; timer_tasks = [] }

  -- `push`: to the back of the immediate queue.
  unfoldable pub push : TaskPool A → A → TaskPool A
  push p a = record p { tasks = p.tasks ++ a ∷ [] }

  -- The loop of `pushDelayed`: before the first entry that is due strictly earlier.
  unfoldable pub insert_timer : Timer A → List (Timer A) → List (Timer A)
  insert_timer t [] = t ∷ []
  insert_timer t (x ∷ xs) = if ltb x.time t.time then t ∷ x ∷ xs else x ∷ insert_timer t xs

  unfoldable pub push_delayed : TaskPool A → ℕ → ℕ → ℕ → A → TaskPool A
  unfolding insert_timer
  push_delayed p now duration id a = record p {
    timer_tasks =
        insert_timer (record { time = now + duration; id = id; task = some a }) p.timer_tasks;
  }

  -- `&*task == task_id`, for an entry that still owns its task.
  unfoldable pub names : ℕ → Timer A → Bool
  names id t = is_some t.task && t.id == id

  -- The second loop of `delay`, over the entries from the front up to the delayed one: one pass of
  -- adjacent swaps from the back to the front, which puts an entry before earlier ones.
  unfoldable pub swap_front : Timer A → List (Timer A) → List (Timer A)
  swap_front x [] = x ∷ []
  swap_front x (y ∷ ys) = if ltb x.time y.time then y ∷ x ∷ ys else x ∷ y ∷ ys

  -- Both loops of `delay`: find the entry, set its due time, and move it towards the front.
  unfoldable pub delay_timer : ℕ → ℕ → List (Timer A) → Option (List (Timer A))
  delay_timer id due [] = none
  delay_timer id due (x ∷ xs) =
      if names id x
      then some (record x { time = due } ∷ xs)
      else Option.map (swap_front x) (delay_timer id due xs)

  unfoldable pub delay : TaskPool A → ℕ → ℕ → ℕ → TaskPool A
  unfolding delay_timer
  delay p now id duration = elim (delay_timer id (now + duration) p.timer_tasks) [
    | none ↦ p
    | some timers ↦ record p { timer_tasks = timers }
  ]

  unfoldable pub erase_timer : ℕ → List (Timer A) → Option (List (Timer A))
  erase_timer id [] = none
  erase_timer id (x ∷ xs) =
      if names id x then some xs else Option.map (λ ys. x ∷ ys) (erase_timer id xs)

  unfoldable pub cancel : TaskPool A → ℕ → Bool × TaskPool A
  unfolding erase_timer
  cancel p id = elim (erase_timer id p.timer_tasks) [
    | none ↦ (false, p)
    | some timers ↦ (true, record p { timer_tasks = timers })
  ]

  -- `pop(task_id)` moves the task out of its entry and leaves the entry where it stands.
  unfoldable pub move_out : ℕ → List (Timer A) → Option (ℕ × Option A × List (Timer A))
  move_out id [] = none
  move_out id (x ∷ xs) =
      if names id x
      then some (x.time, x.task, record x { task = none } ∷ xs)
      else Option.map (λ r. (r.0, r.1, x ∷ r.2)) (move_out id xs)

  unfoldable pub pop_id : TaskPool A → ℕ → Option (ℕ × Option A) × TaskPool A
  unfolding move_out
  pop_id p id = elim (move_out id p.timer_tasks) [
    | none ↦ (none, p)
    | some (due, task, timers) ↦ (some (due, task), record p { timer_tasks = timers })
  ]

  -- `_timer_tasks.back()` with what stands before it.
  unfoldable pub split_last : List (Timer A) → Option (List (Timer A) × Timer A)
  split_last [] = none
  split_last (x ∷ xs) =
      some (elim (split_last xs) [ none ↦ ([], x) | some (front, t) ↦ (x ∷ front, t) ])

  -- `pop()`, in the case that no immediate task waits.
  unfoldable pub pop_timer : TaskPool A → ℕ → Option (Option A) × TaskPool A
  unfolding split_last
  pop_timer p now = elim (split_last p.timer_tasks) [
    | none ↦ (none, p)
    | some (front, t) ↦
        if leb t.time now then (some t.task, record p { timer_tasks = front }) else (none, p)
  ]

  unfoldable pub pop : TaskPool A → ℕ → Option (Option A) × TaskPool A
  unfolding pop_timer
  pop p now = elim p.tasks [
    | [] ↦ pop_timer p now
    | a ∷ rest ↦ (some (some a), record p { tasks = rest })
  ]

  unfoldable pub next : TaskPool A → Option ℕ
  unfolding split_last
  next p = Option.map (λ r. r.1.time) (split_last p.timer_tasks)

  unfoldable pub timer_due : TaskPool A → ℕ → Bool
  unfolding next
  timer_due p now = elim (next p) [ none ↦ false | some due ↦ leb due now ]

  unfoldable pub ready : TaskPool A → ℕ → Bool
  unfolding timer_due
  ready p now = elim p.tasks [ [] ↦ timer_due p now | _ ∷ _ ↦ true ]
