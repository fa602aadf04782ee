-- ===== src/TaskPool/Pop.antt =====
-- task_pool.h: which task `pop` returns, and when `ready` says that there is one.
use solari.Base.{
  ℕ, zero, suc, sym, ap, ◌∙◌, subst, leb→le, List-cases, ◌≤◌, ◌≡◌, refl, List, [], ◌∷◌, ◌++◌,
  Option, none, some, arith, Bool-cases, Option-cases, inl, inr, length, map, is_some, leb, ◌⊎◌,
}
use mathlib.Core.List.{append_assoc, append-nil}
use solari.TaskPool.{Timer, TaskPool, push, split_last, pop_timer, pop, next, timer_due, ready}
use solari.TaskPool.Order.{IsSorted, NotBefore, split_last-none, split_last-eq, append-IsSorted}

module _ {ℓ} {A : Type ℓ} where
  -- `ready` holds exactly when `pop` at the same time returns a task.
  pub ready-pop : (p : TaskPool A) (now : ℕ) → ready p now ≡ is_some (pop p now).0
  unfolding ready timer_due next pop pop_timer
  ready-pop p now = ground arith

  -- What `pop` returns, and the pool that it leaves: the oldest immediate task; or, if none waits,
  -- the last delayed task, which is due and before which no other is; or nothing.
  abbrev pub Popped : TaskPool A → ℕ → Option (Option A) × TaskPool A → Type ℓ
  Popped p now (some task, q) =
      ((a : A) × (task ≡ some a) × (p.tasks ≡ a ∷ q.tasks) × (q.timer_tasks ≡ p.timer_tasks))
      ⊎ ((t : Timer A) × (task ≡ t.task)
          × (p.tasks ≡ [])
          × (q.tasks ≡ [])
          × (p.timer_tasks ≡ q.timer_tasks ++ t ∷ [])
          × (t.time ≤ now)
          × NotBefore t.time q.timer_tasks)
  Popped p now (none, q) = (q ≡ p) × (p.tasks ≡ []) × NotBefore (suc now) p.timer_tasks

  NotBefore-mono : (a b : ℕ) (xs : List (Timer A)) → a ≤ b → NotBefore b xs → NotBefore a xs
  NotBefore-mono a b [] h d = tt
  NotBefore-mono a b (x ∷ xs) h d = (omega arith, NotBefore-mono a b xs h d.1)

  NotBefore-append :
      (due : ℕ) (xs : List (Timer A)) (t : Timer A)
      → NotBefore due xs
      → due ≤ t.time
      → NotBefore due (xs ++ t ∷ [])
  NotBefore-append due [] t d h = (h, tt)
  NotBefore-append due (x ∷ xs) t d h = (d.0, NotBefore-append due xs t d.1 h)

  pop_timer-Popped :
      (p : TaskPool A) (now : ℕ)
      → IsSorted p.timer_tasks
      → p.tasks ≡ []
      → Popped p now (pop_timer p now)
  unfolding pop_timer
  pop_timer-Popped p now s e = elim (Option-cases (split_last p.timer_tasks)) [
    | inl q ↦
        let same : pop_timer p now ≡ (none, p) = ground arith in
        let bare = split_last-none p.timer_tasks q in
        subst (Popped p now) (sym same) (refl, e, rw bare tt)
    | inr ((front, t), q) ↦
        let whole = split_last-eq p.timer_tasks front t q in
        let parts = append-IsSorted front t (subst IsSorted whole s) in
        elim (Bool-cases (leb t.time now)) [
          | inl due ↦
              let same : pop_timer p now ≡ (some t.task, record p { timer_tasks = front }) =
                ground arith in
              subst (Popped p now) (sym same)
                (inr (t, refl, e, e, whole, leb→le t.time now due, parts.1))
          | inr early ↦
              let same : pop_timer p now ≡ (none, p) = ground arith in
              let late : suc now ≤ t.time = ground arith in
              let all_late =
                NotBefore-append (suc now) front t
                  (NotBefore-mono (suc now) t.time front late parts.1) late in
              subst (Popped p now) (sym same)
                (refl, e, subst (NotBefore (suc now)) (sym whole) all_late)
        ]
  ]

  -- On a sorted pool `pop` never passes over a task that is due earlier, and returns nothing only if
  -- no immediate task waits and every delayed one is due later than `now`.
  pub pop-Popped : (p : TaskPool A) (now : ℕ) → IsSorted p.timer_tasks → Popped p now (pop p now)
  unfolding pop
  pop-Popped p now s = elim (List-cases p.tasks) [
    | inl e ↦
        let same : pop p now ≡ pop_timer p now = ground arith in
        subst (Popped p now) (sym same) (pop_timer-Popped p now s e)
    | inr (a, rest, e) ↦
        let same : pop p now ≡ (some (some a), record p { tasks = rest }) = ground arith in
        subst (Popped p now) (sym same) (inl (a, refl, e, refl))
  ]

  -- Each of the values handed to `push` in turn, and that many calls of `pop`.
  unfoldable pub push_all : TaskPool A → List A → TaskPool A
  push_all p [] = p
  push_all p (a ∷ rest) = push_all (push p a) rest

  unfoldable pub pops : ℕ → ℕ → TaskPool A → List (Option (Option A)) × TaskPool A
  pops zero now p = ([], p)
  pops (suc n) now p = let (r, q) = pop p now in let (rs, end) = pops n now q in (r ∷ rs, end)

  push_all_lem : (p : TaskPool A) (xs : List A) → push_all p xs ≡ record p { tasks = p.tasks ++ xs }
  unfolding push_all push
  push_all_lem p [] = ap (λ (ts : List A). record p { tasks = ts }) (sym (append-nil p.tasks))
  push_all_lem p (a ∷ rest) =
      push_all_lem (push p a) rest
      ∙ ap (λ (ts : List A). record p { tasks = ts }) (append_assoc p.tasks (a ∷ []) rest)

  pops_tasks :
      (xs : List A) (now : ℕ) (timers : List (Timer A))
      → pops (length xs) now (record { tasks = xs; timer_tasks = timers })
        ≡ (map (λ a. some (some a)) xs, record { tasks = []; timer_tasks = timers })
  unfolding pops pop
  pops_tasks [] now timers = refl
  pops_tasks (a ∷ rest) now timers = rw (pops_tasks rest now timers)

  -- Immediate tasks run in the order in which they were pushed, before any delayed task, each once.
  pub pops-push_all :
      (p : TaskPool A) (xs : List A) (now : ℕ)
      → pops (length (p.tasks ++ xs)) now (push_all p xs)
        ≡ (map (λ a. some (some a)) (p.tasks ++ xs), record p { tasks = [] })
  pops-push_all p xs now = rw push_all_lem (pops_tasks (p.tasks ++ xs) now p.timer_tasks)
