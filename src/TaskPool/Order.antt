-- ===== src/TaskPool/Order.antt =====
-- task_pool.h: the order of the delayed tasks.
use mathlib.Core.List.Perm
use solari.Base.{
  ℕ, ◌≤◌, ◌≡◌, refl, inl, inr, List, [], ◌∷◌, ◌++◌, none, some, true, arith, All, Perm, subst,
  Bool-cases, Option-cases,
}
use solari.TaskPool.{Timer, insert_timer, names, swap_front, delay_timer, erase_timer, split_last}

module _ {ℓ} {A : Type ℓ} where
  -- No entry is due later than `due`.
  abbrev pub DueBy : ℕ → List (Timer A) → Type 0
  DueBy due xs = All (λ t. t.time ≤ due) xs

  -- Latest first, as the vector is kept.
  abbrev pub IsSorted : List (Timer A) → Type 0
  IsSorted [] = Unit
  IsSorted (x ∷ xs) = DueBy x.time xs × IsSorted xs

  DueBy-mono : (a b : ℕ) (xs : List (Timer A)) → a ≤ b → DueBy a xs → DueBy b xs
  DueBy-mono a b [] h d = tt
  DueBy-mono a b (x ∷ xs) h d = (omega arith, DueBy-mono a b xs h d.1)

  insert_timer-DueBy :
      (t : Timer A) (due : ℕ) (xs : List (Timer A))
      → t.time ≤ due
      → DueBy due xs
      → DueBy due (insert_timer t xs)
  unfolding insert_timer
  insert_timer-DueBy t due [] h d = (h, tt)
  insert_timer-DueBy t due (x ∷ xs) h d = ground (arith, insert_timer-DueBy t due xs h d.1)

  pub insert_timer-IsSorted :
      (t : Timer A) (xs : List (Timer A)) → IsSorted xs → IsSorted (insert_timer t xs)
  unfolding insert_timer
  insert_timer-IsSorted t [] s = (tt, tt)
  insert_timer-IsSorted t (x ∷ xs) s = ground (
    arith,
    insert_timer-IsSorted t xs s.1,
    insert_timer-DueBy t x.time xs,
    DueBy-mono x.time t.time xs,
  )

  pub insert_timer-perm : (t : Timer A) (xs : List (Timer A)) → Perm (t ∷ xs) (insert_timer t xs)
  unfolding insert_timer
  insert_timer-perm t [] = Perm.refl (t ∷ [])
  insert_timer-perm t (x ∷ xs) =
      let later = Perm.trans (Perm.swap x t xs) (Perm.cons x (insert_timer-perm t xs)) in
      ground (arith, later, Perm.refl (t ∷ x ∷ xs))

  -- The first entry aside, no entry is due later than `due`.
  abbrev TailDueBy : ℕ → List (Timer A) → Type 0
  TailDueBy due [] = Unit
  TailDueBy due (x ∷ xs) = DueBy due xs

  swap_front-IsSorted :
      (x : Timer A) (ys : List (Timer A))
      → IsSorted ys
      → TailDueBy x.time ys
      → IsSorted (swap_front x ys)
  unfolding swap_front
  swap_front-IsSorted x [] s d = (tt, tt)
  swap_front-IsSorted x (y ∷ ys) s d = ground (arith, DueBy-mono x.time y.time ys)

  swap_front-TailDueBy :
      (x : Timer A) (ys : List (Timer A)) (due : ℕ)
      → x.time ≤ due
      → TailDueBy x.time ys
      → TailDueBy due (swap_front x ys)
  unfolding swap_front
  swap_front-TailDueBy x [] due h d = tt
  swap_front-TailDueBy x (y ∷ ys) due h d = ground (arith, DueBy-mono x.time due ys)

  -- The entry that `id` names is not due later than `due`.
  abbrev pub NotLater : ℕ → ℕ → List (Timer A) → Type 0
  NotLater id due xs = All (λ t. names id t ≡ true → t.time ≤ due) xs

  -- What one run of the loops of `delay` leaves.
  record Delayed (old new : List (Timer A)) : Type 0 where
    sorted : IsSorted new
    tail : (due : ℕ) → DueBy due old → TailDueBy due new

  Delayed-here :
      (x : Timer A) (due : ℕ) (xs : List (Timer A))
      → IsSorted (x ∷ xs)
      → x.time ≤ due
      → Delayed (x ∷ xs) (record x { time = due } ∷ xs)
  Delayed-here x due xs s h = record {
    sorted = (DueBy-mono x.time due xs h s.0, s.1);
    tail = λ d b. b.1;
  }

  Delayed-later :
      (x : Timer A) (xs ys : List (Timer A))
      → IsSorted (x ∷ xs)
      → Delayed xs ys
      → Delayed (x ∷ xs) (swap_front x ys)
  Delayed-later x xs ys s ih = record {
    sorted = swap_front-IsSorted x ys ih.sorted (ih.tail x.time s.0);
    tail = λ d b. swap_front-TailDueBy x ys d b.0 (ih.tail x.time s.0);
  }

  delay_timer-Delayed :
      (id due : ℕ) (xs ys : List (Timer A))
      → IsSorted xs
      → NotLater id due xs
      → delay_timer id due xs ≡ some ys
      → Delayed xs ys
  unfolding delay_timer
  delay_timer-Delayed id due [] ys s l e = cc
  delay_timer-Delayed id due (x ∷ xs) ys s l e = elim (Bool-cases (names id x)) [
    | inl p ↦
        let same : (record x { time = due } ∷ xs) ≡ ys = ground arith in
        subst (Delayed (x ∷ xs)) same (Delayed-here x due xs s (l.0 p))
    | inr p ↦ elim (Option-cases (delay_timer id due xs)) [
      | inl q ↦ cc
      | inr (zs, q) ↦
          let same : swap_front x zs ≡ ys = ground arith in
          subst (Delayed (x ∷ xs)) same
            (Delayed-later x xs zs s (delay_timer-Delayed id due xs zs s.1 l.1 q))
    ]
  ]

  pub delay_timer-IsSorted :
      (id due : ℕ) (xs ys : List (Timer A))
      → IsSorted xs
      → NotLater id due xs
      → delay_timer id due xs ≡ some ys
      → IsSorted ys
  delay_timer-IsSorted id due xs ys s l e = (delay_timer-Delayed id due xs ys s l e).sorted

  erase_timer-DueBy :
      (id due : ℕ) (xs ys : List (Timer A))
      → DueBy due xs
      → erase_timer id xs ≡ some ys
      → DueBy due ys
  unfolding erase_timer
  erase_timer-DueBy id due [] ys d e = cc
  erase_timer-DueBy id due (x ∷ xs) ys d e = elim (Option-cases (erase_timer id xs)) [
    | inl q ↦ ground arith
    | inr (zs, q) ↦ ground (arith, erase_timer-DueBy id due xs zs d.1 q)
  ]

  pub erase_timer-IsSorted :
      (id : ℕ) (xs ys : List (Timer A)) → IsSorted xs → erase_timer id xs ≡ some ys → IsSorted ys
  unfolding erase_timer
  erase_timer-IsSorted id [] ys s e = cc
  erase_timer-IsSorted id (x ∷ xs) ys s e = elim (Option-cases (erase_timer id xs)) [
    | inl q ↦ ground arith
    | inr (zs, q) ↦
        ground (arith, erase_timer-IsSorted id xs zs s.1 q, erase_timer-DueBy id x.time xs zs s.0 q)
  ]

  pub split_last-none : (xs : List (Timer A)) → split_last xs ≡ none → xs ≡ []
  unfolding split_last
  split_last-none [] e = refl
  split_last-none (x ∷ xs) e = cc

  pub split_last-eq :
      (xs front : List (Timer A)) (t : Timer A)
      → split_last xs ≡ some (front, t)
      → xs ≡ front ++ t ∷ []
  unfolding split_last
  split_last-eq [] front t e = cc
  split_last-eq (x ∷ xs) front t e = elim (Option-cases (split_last xs)) [
    | inl q ↦ ground (arith, split_last-none xs q)
    | inr ((f, u), q) ↦ ground (arith, split_last-eq xs f u q)
  ]

  append-DueBy :
      (due : ℕ) (xs ys : List (Timer A)) → DueBy due (xs ++ ys) → DueBy due xs × DueBy due ys
  append-DueBy due [] ys d = (tt, d)
  append-DueBy due (x ∷ xs) ys d = let rest = append-DueBy due xs ys d.1 in ((d.0, rest.0), rest.1)

  -- No entry is due before `due`.
  abbrev pub NotBefore : ℕ → List (Timer A) → Type 0
  NotBefore due xs = All (λ t. due ≤ t.time) xs

  -- Without its last entry a sorted vector is sorted, and holds nothing due before it.
  pub append-IsSorted :
      (front : List (Timer A)) (t : Timer A)
      → IsSorted (front ++ t ∷ [])
      → IsSorted front × NotBefore t.time front
  append-IsSorted [] t s = (tt, tt)
  append-IsSorted (x ∷ xs) t s =
      let rest = append-IsSorted xs t s.1 in
      let parts = append-DueBy x.time xs (t ∷ []) s.0 in ((parts.0, rest.0), (parts.1.0, rest.1))
