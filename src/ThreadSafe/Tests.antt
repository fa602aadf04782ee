-- ===== src/ThreadSafe/Tests.antt =====
-- thread_safe.h: a queue of two values that overflows, and pointers to a shared object.
use solari.Base.{ℕ, List, [], ◌∷◌, true, false, arith}
use solari.ThreadSafe.Shared
use solari.ThreadSafe.Shared.{Counted, run-Counted, assigns, copies, acquires}
use solari.ThreadSafe.Order.{
  Log, Step, raises, pops, stops, run, Sublist, keep, Delivered, run-Delivered, IsBounded,
  run-IsBounded,
}

abbrev small : Log ℕ
small = record {
  queue = record { running = true; max_elements = 2; queue = 1 ∷ [] };
  raised = 1 ∷ [];
  received = [];
}

abbrev traffic : List (Step ℕ)
traffic = raises 2 ∷ pops ∷ raises 3 ∷ raises 4 ∷ pops ∷ stops ∷ raises 5 ∷ pops ∷ []

run-Delivered_example : Delivered (run small traffic)
run-Delivered_example = run-Delivered small traffic (keep Sublist.none)

-- The first construction fails; then a pointer is made, copied, and assigned over the first.
run-Counted_example :
    Counted (Shared.run (assigns 2 0 ∷ copies 0 ∷ acquires true ∷ acquires false ∷ []))
run-Counted_example =
    run-Counted (assigns 2 0 ∷ copies 0 ∷ acquires true ∷ acquires false ∷ []) (omega arith)

run-IsBounded_example : IsBounded (run small traffic).queue
run-IsBounded_example = run-IsBounded small traffic (omega arith, omega arith)
