-- ===== src/TaskPool/Run.antt =====
-- task_pool.h: what holds of a pool after any sequence of calls.
use solari.Base.{ℕ, ◌+◌, ◌≡◌, List, [], ◌∷◌, Option, some, arith, Option-cases, inl, inr}
use solari.TaskPool.{
  Timer, TaskPool, push, push_delayed, delay_timer, delay, erase_timer, cancel, move_out, pop_id,
  split_last, pop_timer, pop,
}
use solari.TaskPool.Order.{
  DueBy, IsSorted, NotLater, insert_timer-IsSorted, delay_timer-IsSorted, erase_timer-IsSorted,
  split_last-eq, append-IsSorted,
}

-- The calls of the class's interface.
pub data Call {ℓ} (A : Type ℓ) : Type ℓ where
  pushes : A → Call A
  pushes_delayed : ℕ → ℕ → ℕ → A → Call A
  delays : ℕ → ℕ → ℕ → Call A
  cancels pops_id pops : ℕ → Call A

module _ {ℓ} {A : Type ℓ} where
  move_out-DueBy :
      (id due d : ℕ) (task : Option A) (xs ys : List (Timer A))
      → DueBy due xs
      → move_out id xs ≡ some (d, task, ys)
      → DueBy due ys
  unfolding move_out
  move_out-DueBy id due d task [] ys s e = cc
  move_out-DueBy id due d task (x ∷ xs) ys s e = elim (Option-cases (move_out id xs)) [
    | inl q ↦ ground arith
    | inr ((d', t, zs), q) ↦ ground (arith, move_out-DueBy id due d' t xs zs s.1 q)
  ]

  move_out-IsSorted :
      (id d : ℕ) (task : Option A) (xs ys : List (Timer A))
      → IsSorted xs
      → move_out id xs ≡ some (d, task, ys)
      → IsSorted ys
  unfolding move_out
  move_out-IsSorted id d task [] ys s e = cc
  move_out-IsSorted id d task (x ∷ xs) ys s e = elim (Option-cases (move_out id xs)) [
    | inl q ↦ ground arith
    | inr ((d', t, zs), q) ↦
        ground
          (arith, move_out-IsSorted id d' t xs zs s.1 q, move_out-DueBy id x.time d' t xs zs s.0 q)
  ]

  pop_timer-IsSorted :
      (p : TaskPool A) (now : ℕ) → IsSorted p.timer_tasks → IsSorted (pop_timer p now).1.timer_tasks
  unfolding pop_timer
  pop_timer-IsSorted p now s = elim (Option-cases (split_last p.timer_tasks)) [
    | inl e ↦ rw (e, IsSorted) s
    | inr ((front, t), e) ↦
        let parts = append-IsSorted front t (rw (split_last-eq p.timer_tasks front t e) at s) in
        ground (arith, parts.0)
  ]

  unfoldable pub call : TaskPool A → Call A → TaskPool A
  call p (pushes a) = push p a
  call p (pushes_delayed now duration id a) = push_delayed p now duration id a
  call p (delays now id duration) = delay p now id duration
  call p (cancels id) = (cancel p id).1
  call p (pops_id id) = (pop_id p id).1
  call p (pops now) = (pop p now).1

  -- A call of `delay` does not bring its task forward.
  abbrev pub Postpones : TaskPool A → Call A → Type 0
  Postpones p (delays now id duration) = NotLater id (now + duration) p.timer_tasks
  Postpones p (pushes a) = Unit
  Postpones p c = Unit

  call-IsSorted :
      (p : TaskPool A) (c : Call A)
      → IsSorted p.timer_tasks
      → Postpones p c
      → IsSorted (call p c).timer_tasks
  unfolding call push push_delayed delay cancel pop_id pop
  call-IsSorted p (pushes a) s h = s
  call-IsSorted p (pushes_delayed now duration id a) s h = insert_timer-IsSorted _ p.timer_tasks s
  call-IsSorted p (delays now id duration) s h =
      elim (Option-cases (delay_timer id (now + duration) p.timer_tasks)) [
        | inl e ↦ rw (e, IsSorted) s
        | inr (ys, e) ↦
            rw (e, IsSorted) (delay_timer-IsSorted id (now + duration) p.timer_tasks ys s h e)
      ]
  call-IsSorted p (cancels id) s h = elim (Option-cases (erase_timer id p.timer_tasks)) [
    | inl e ↦ rw (e, IsSorted) s
    | inr (ys, e) ↦ rw (e, IsSorted) (erase_timer-IsSorted id p.timer_tasks ys s e)
  ]
  call-IsSorted p (pops_id id) s h = elim (Option-cases (move_out id p.timer_tasks)) [
    | inl e ↦ rw (e, IsSorted) s
    | inr ((d, t, ys), e) ↦ rw (e, IsSorted) (move_out-IsSorted id d t p.timer_tasks ys s e)
  ]
  call-IsSorted p (pops now) s h = ground (arith, pop_timer-IsSorted p now s)

  -- The pools that calls lead to from `p`.
  pub data Reach (p : TaskPool A) : TaskPool A → Type ℓ where
    here : Reach p p
    after : {q : TaskPool A} → Reach p q → (c : Call A) → Postpones q c → Reach p (call q c)

  -- From a pool with no delayed task, any calls, of which none of `delay` brings a task forward,
  -- keep the delayed tasks sorted by due time, the latest first.
  pub Reach-IsSorted : {p q : TaskPool A} → p.timer_tasks ≡ [] → Reach p q → IsSorted q.timer_tasks
  Reach-IsSorted e here = rw e tt
  Reach-IsSorted e (after r c h) = call-IsSorted _ c (Reach-IsSorted e r) h
