-- ===== src/TaskPool/Tests.antt =====
-- task_pool.h: pools on which the theorems apply.
use solari.Base.{ℕ, refl, List, [], ◌∷◌, some, arith}
use solari.TaskPool
use solari.TaskPool.{TaskPool, Timer, push_delayed, cancel, pop, ready}
use solari.TaskPool.Order.{IsSorted}
use solari.TaskPool.Run.{Call, Reach, call, Reach-IsSorted}
use solari.TaskPool.Cancel.{Cancelled, cancel-Cancelled}
use solari.TaskPool.Pop.{Popped, pop-Popped}

abbrev late : Timer ℕ
late = record { time = 30; id = 7; task = some 100 }

abbrev early : Timer ℕ
early = record { time = 20; id = 8; task = some 200 }

abbrev two_timers : TaskPool ℕ
two_timers = record { tasks = []; timer_tasks = late ∷ early ∷ [] }

abbrev waiting : TaskPool ℕ
waiting = record { tasks = 1 ∷ 2 ∷ []; timer_tasks = late ∷ [] }

abbrev more : List ℕ
more = 3 ∷ 4 ∷ []

abbrev fresh : TaskPool ℕ
fresh = record { tasks = []; timer_tasks = [] }

-- Three delayed tasks, one postponed, one cancelled, and a task taken out.
abbrev busy : TaskPool ℕ
busy =
    call
      (call
        (call
          (call (call (call fresh (Call.pushes_delayed 5 10 7 100)) (Call.pushes_delayed 6 1 8 200))
            (Call.pushes_delayed 6 30 9 300))
          (Call.delays 8 8 50))
        (Call.cancels 7))
      (Call.pops 90)

Reach-IsSorted_example : IsSorted busy.timer_tasks
unfolding call TaskPool.push_delayed TaskPool.insert_timer TaskPool.delay_timer TaskPool.names
Reach-IsSorted_example = Reach-IsSorted {A = ℕ} {p = fresh} {q = busy} refl (
    Reach.after
      (Reach.after
        (Reach.after
          (Reach.after
            (Reach.after (Reach.after Reach.here (Call.pushes_delayed 5 10 7 100) tt)
              (Call.pushes_delayed 6 1 8 200) tt)
            (Call.pushes_delayed 6 30 9 300) tt)
          (Call.delays 8 8 50) ((λ e. omega arith), ((λ e. omega arith), ((λ e. omega arith), tt))))
        (Call.cancels 7) tt)
      (Call.pops 90) tt)

pop-Popped_example : Popped two_timers 25 (pop two_timers 25)
pop-Popped_example = pop-Popped two_timers 25 ((omega arith, tt), (tt, tt))

cancel-Cancelled_example : Cancelled two_timers 8 (cancel two_timers 8)
cancel-Cancelled_example = cancel-Cancelled two_timers 8
