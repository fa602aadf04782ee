-- ===== src/ThreadSafe/Order.antt =====
-- thread_safe.h: what goes through a queue comes out in order, and the queue stays within its bound.
use solari.Base.{
  ◌≤◌, ◌<◌, ◌≡◌, sym, ap, subst, List, [], ◌∷◌, ◌++◌, arith, ◌==◌, length, length-append,
  Bool-cases, List-cases, inl, inr,
}
use mathlib.Core.List.{append_assoc}
use solari.ThreadSafe.{Queue, Popped, popped, stopped, waits, raise, pop_queue, stop}

-- The first list is the second one with some elements left out.
pub data Sublist {ℓ} {A : Type ℓ} : List A → List A → Type ℓ where
  none : Sublist [] []
  skip : {a : A} {xs ys : List A} → Sublist xs ys → Sublist xs (a ∷ ys)
  keep : {a : A} {xs ys : List A} → Sublist xs ys → Sublist (a ∷ xs) (a ∷ ys)

pub data Step {ℓ} (A : Type ℓ) : Type ℓ where
  raises : A → Step A
  pops stops : Step A

-- A queue with the values handed to `raise` and those that `pop` returned, both in their order.
pub record Log {ℓ} (A : Type ℓ) : Type ℓ where
  pub queue : Queue A
  pub raised : List A
  pub received : List A

module _ {ℓ} {A : Type ℓ} where
  unfoldable pub receive : List A → Popped A → List A
  receive xs (popped a) = xs ++ a ∷ []
  receive xs stopped = xs
  receive xs waits = xs

  unfoldable pub step : Log A → Step A → Log A
  step l (raises a) = record l { queue = raise l.queue a; raised = l.raised ++ a ∷ [] }
  step l pops =
      let (r, q) = pop_queue l.queue in record l { queue = q; received = receive l.received r }
  step l stops = record l { queue = stop l.queue }

  unfoldable pub run : Log A → List (Step A) → Log A
  run l [] = l
  run l (s ∷ steps) = run (step l s) steps

  Sublist-nil : (ys : List A) → Sublist [] ys
  Sublist-nil [] = none
  Sublist-nil (y ∷ ys) = skip (Sublist-nil ys)

  Sublist-snoc : {xs ys : List A} → Sublist xs ys → (a : A) → Sublist (xs ++ a ∷ []) (ys ++ a ∷ [])
  Sublist-snoc none a = keep none
  Sublist-snoc (skip s) a = skip (Sublist-snoc s a)
  Sublist-snoc (keep s) a = keep (Sublist-snoc s a)

  Sublist-skip_snoc : {xs ys : List A} → Sublist xs ys → (a : A) → Sublist xs (ys ++ a ∷ [])
  Sublist-skip_snoc none a = skip none
  Sublist-skip_snoc (skip s) a = skip (Sublist-skip_snoc s a)
  Sublist-skip_snoc (keep s) a = keep (Sublist-skip_snoc s a)

  Sublist-trans : {ys zs : List A} → Sublist ys zs → {xs : List A} → Sublist xs ys → Sublist xs zs
  Sublist-trans none s = s
  Sublist-trans (skip t) s = skip (Sublist-trans t s)
  Sublist-trans (keep t) (skip s) = skip (Sublist-trans t s)
  Sublist-trans (keep t) (keep s) = keep (Sublist-trans t s)

  Sublist-append : (xs ys : List A) → Sublist xs (xs ++ ys)
  Sublist-append [] ys = Sublist-nil ys
  Sublist-append (x ∷ xs) ys = keep (Sublist-append xs ys)

  -- What was received, and then what waits, came in by `raise` in this order, each value once.
  abbrev pub Delivered : Log A → Type ℓ
  Delivered l = Sublist (l.received ++ l.queue.queue) l.raised

  step-Delivered : (l : Log A) (s : Step A) → Delivered l → Delivered (step l s)
  unfolding step raise pop_queue stop receive
  step-Delivered l (raises a) d = elim (Bool-cases l.queue.running) [
    | inr stopped_before ↦
        let same : raise l.queue a ≡ l.queue = ground arith in
        subst (λ (q : Queue A). Sublist (l.received ++ q.queue) (l.raised ++ a ∷ [])) (sym same)
          (Sublist-skip_snoc d a)
    | inl on ↦ elim (Bool-cases (length l.queue.queue == l.queue.max_elements)) [
      | inl full ↦
          let same : (raise l.queue a).queue ≡ a ∷ [] = ground arith in
          subst (λ q. Sublist (l.received ++ q) (l.raised ++ a ∷ [])) (sym same)
            (Sublist-snoc (Sublist-trans d (Sublist-append l.received l.queue.queue)) a)
      | inr room ↦
          let same : (raise l.queue a).queue ≡ l.queue.queue ++ a ∷ [] = ground arith in
          subst (λ q. Sublist (l.received ++ q) (l.raised ++ a ∷ [])) (sym same)
            (subst (λ q. Sublist q (l.raised ++ a ∷ []))
              (append_assoc l.received l.queue.queue (a ∷ [])) (Sublist-snoc d a))
    ]
  ]
  step-Delivered l pops d = elim (Bool-cases l.queue.running) [
    | inr stopped_before ↦ let same : step l pops ≡ l = ground arith in subst Delivered (sym same) d
    | inl on ↦ elim (List-cases l.queue.queue) [
      | inl e ↦ let same : step l pops ≡ l = ground arith in subst Delivered (sym same) d
      | inr (a, rest, e) ↦
          let l' : Log A = record l {
            queue = record (l.queue) { queue = rest };
            received = l.received ++ a ∷ [];
          } in
          let same : step l pops ≡ l' = ground arith in
          subst Delivered (sym same) (
            subst (λ q. Sublist q l.raised) (sym (append_assoc l.received (a ∷ []) rest))
              (subst (λ q. Sublist (l.received ++ q) l.raised) e d))
    ]
  ]
  step-Delivered l stops d = d

  -- From a log of which this holds, after any calls: what was received, and then what waits, came in by
  -- `raise` in this order, each value once; a value may be lost, but none is repeated or overtaken.
  pub run-Delivered : (l : Log A) (steps : List (Step A)) → Delivered l → Delivered (run l steps)
  unfolding run
  run-Delivered l [] d = d
  run-Delivered l (s ∷ steps) d = run-Delivered (step l s) steps (step-Delivered l s d)

  -- At most `max_elements`, of which there is at least one.
  abbrev pub IsBounded : Queue A → Type 0
  IsBounded q = (0 < q.max_elements) × (length q.queue ≤ q.max_elements)

  raise-IsBounded : (q : Queue A) (a : A) → IsBounded q → IsBounded (raise q a)
  unfolding raise
  raise-IsBounded q a b = ground (arith, length-append q.queue (a ∷ []))

  pop_queue-IsBounded : (q : Queue A) → IsBounded q → IsBounded (pop_queue q).1
  unfolding pop_queue
  pop_queue-IsBounded q b = elim (List-cases q.queue) [
    | inl e ↦ ground arith
    | inr (a, rest, e) ↦ ground (arith, ap length e)
  ]

  step-IsBounded : (l : Log A) (s : Step A) → IsBounded l.queue → IsBounded (step l s).queue
  unfolding step stop
  step-IsBounded l (raises a) b = raise-IsBounded l.queue a b
  step-IsBounded l pops b = pop_queue-IsBounded l.queue b
  step-IsBounded l stops b = b

  -- A queue with room for one value at least never holds more than it has room for, whatever is called.
  pub run-IsBounded :
      (l : Log A) (steps : List (Step A)) → IsBounded l.queue → IsBounded (run l steps).queue
  unfolding run
  run-IsBounded l [] b = b
  run-IsBounded l (s ∷ steps) b = run-IsBounded (step l s) steps (step-IsBounded l s b)
