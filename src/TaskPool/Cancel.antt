-- ===== src/TaskPool/Cancel.antt =====
-- task_pool.h: cancelling a delayed task.
use mathlib.Core.List.Perm
use solari.Base.{
  ℕ, ◌+◌, ◌≡◌, refl, sym, subst, inl, inr, List, [], ◌∷◌, none, some, Bool, true, false, arith, All,
  Perm, Bool-cases, Option-cases, ==_refl,
}
use solari.TaskPool.{Timer, TaskPool, insert_timer, push_delayed, names, erase_timer, cancel}

module _ {ℓ} {A : Type ℓ} where
  -- No entry goes by the name `id`.
  abbrev pub Unnamed : ℕ → List (Timer A) → Type 0
  Unnamed id xs = All (λ t. names id t ≡ false) xs

  -- What `cancel` returns: the pool without one entry of that name, or the pool itself.
  abbrev pub Cancelled : TaskPool A → ℕ → Bool × TaskPool A → Type ℓ
  Cancelled p id (true, q) =
      (q.tasks ≡ p.tasks)
      × ((t : Timer A) × (names id t ≡ true) × Perm p.timer_tasks (t ∷ q.timer_tasks))
  Cancelled p id (false, q) = (q ≡ p) × Unnamed id p.timer_tasks

  erase_timer-perm :
      (id : ℕ) (xs ys : List (Timer A))
      → erase_timer id xs ≡ some ys
      → (t : Timer A) × (names id t ≡ true) × Perm xs (t ∷ ys)
  unfolding erase_timer
  erase_timer-perm id [] ys e = cc
  erase_timer-perm id (x ∷ xs) ys e = elim (Bool-cases (names id x)) [
    | inl p ↦
        let same : xs ≡ ys = ground arith in
        (x, p, subst (λ zs. Perm (x ∷ xs) (x ∷ zs)) same (Perm.refl (x ∷ xs)))
    | inr p ↦ elim (Option-cases (erase_timer id xs)) [
      | inl q ↦ cc
      | inr (zs, q) ↦
          let same : x ∷ zs ≡ ys = ground arith in
          let (t, n, h) = erase_timer-perm id xs zs q in
          (
            t,
            n,
            subst (λ ws. Perm (x ∷ xs) (t ∷ ws)) same
                (Perm.trans (Perm.cons x h) (Perm.swap t x zs)),
          )
    ]
  ]

  erase_timer-none : (id : ℕ) (xs : List (Timer A)) → erase_timer id xs ≡ none → Unnamed id xs
  unfolding erase_timer
  erase_timer-none id [] e = tt
  erase_timer-none id (x ∷ xs) e = elim (Bool-cases (names id x)) [
    | inl p ↦ ground arith
    | inr p ↦ elim (Option-cases (erase_timer id xs)) [
      | inl q ↦ (p, erase_timer-none id xs q)
      | inr (zs, q) ↦ ground arith
    ]
  ]

  -- `cancel` answers true exactly when it takes away one entry of that name, and false exactly when
  -- there is none; then it changes nothing.
  pub cancel-Cancelled : (p : TaskPool A) (id : ℕ) → Cancelled p id (cancel p id)
  unfolding cancel
  cancel-Cancelled p id = elim (Option-cases (erase_timer id p.timer_tasks)) [
    | inl e ↦
        let same : cancel p id ≡ (false, p) = ground arith in
        subst (Cancelled p id) (sym same) (refl, erase_timer-none id p.timer_tasks e)
    | inr (ys, e) ↦
        let same : cancel p id ≡ (true, record p { timer_tasks = ys }) = ground arith in
        subst (Cancelled p id) (sym same) (refl, erase_timer-perm id p.timer_tasks ys e)
  ]

  erase_timer-insert_timer :
      (t : Timer A) (xs : List (Timer A))
      → names t.id t ≡ true
      → Unnamed t.id xs
      → erase_timer t.id (insert_timer t xs) ≡ some xs
  unfolding erase_timer insert_timer
  erase_timer-insert_timer t [] n u = ground arith
  erase_timer-insert_timer t (x ∷ xs) n u = ground (arith, erase_timer-insert_timer t xs n u.1)

  names_owned :
      (time id : ℕ) (a : A) → names id (record { time = time; id = id; task = some a }) ≡ true
  unfolding names
  names_owned time id a = ==_refl id

  -- Cancelling a task just scheduled under a name that no other entry has undoes the scheduling.
  pub cancel-push_delayed :
      (p : TaskPool A) (now duration id : ℕ) (a : A)
      → Unnamed id p.timer_tasks
      → cancel (push_delayed p now duration id a) id ≡ (true, p)
  unfolding cancel push_delayed
  cancel-push_delayed p now duration id a u =
      ground (arith, erase_timer-insert_timer timer p.timer_tasks (names_owned _ id a) u)
    where
      timer : Timer A
      timer = record { time = now + duration; id = id; task = some a }
