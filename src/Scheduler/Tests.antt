-- ===== src/Scheduler/Tests.antt =====
-- BaseScheduler: the theorems at a scheduler that has just been started.
use calvin_base.Base.{
  Error, raised, ℕ, ◌≤◌, ◌≡◌, refl, ◌⊎◌, true, none, some, List, [], ◌∷◌, subst, done, arith,
}
use calvin_base.Scheduler.{
  Scheduler, What, strategy, check_replication, check_pressure, maintenance_loop, init, run,
  insert_task, process_next, Calls, received, schedule_next, coalesce,
}
use calvin_base.Scheduler.Order.{IsSorted, Placed, IsThere, insert_task_cases}
use calvin_base.Scheduler.Bodies.{failure_of, heard}
use calvin_base.Scheduler.Armed.{taken}
use calvin_base.Scheduler.Timely.{Run, started, process_next_timely}

-- Started at the time 100: the strategy is due at once, the others later.
abbrev fresh : Scheduler
fresh = record (init none) {
  tasks = (100, strategy) ∷ (102, check_replication) ∷ (400, maintenance_loop) ∷ [];
  scheduled = some (record { due = 100; active = true });
}

fresh_lem : run 100 (init none) ≡ fresh
unfolding run insert_task coalesce schedule_next
fresh_lem = refl

fresh-Run : Run 100 fresh
fresh-Run = subst (Run 100) fresh_lem (started 100 none)

fresh-IsSorted : IsSorted fresh.tasks
fresh-IsSorted = ((omega arith, (omega arith, tt)), ((omega arith, tt), (tt, tt)))

insert_task_example :
    IsSorted (insert_task 101 check_pressure 30 fresh).tasks
    × (Placed 131 check_pressure fresh (insert_task 101 check_pressure 30 fresh)
        ⊎ ((insert_task 101 check_pressure 30 fresh ≡ fresh)
            × (◌≡◌ {A = ℕ} 30 0)
            × IsThere 131 check_pressure fresh))
insert_task_example = insert_task_cases 101 check_pressure 30 fresh fresh-IsSorted

-- The strategy is told that a token was received, and fires an actor.
abbrev lively : Calls
lively = record { events = received ∷ []; failure = none; activity = true }

process_next_example :
    (task : ℕ × What) × (rest : List (ℕ × What)) × (fresh.tasks ≡ task ∷ rest)
    × (true ≡ true)
    × (task.0 ≤ 101)
    × ((100 ≤ task.0) ⊎ (100 ≤ 100))
    × (((failure_of task.1 lively ≡ none)
          × (u : Scheduler) × (process_next 101 103 lively fresh ≡ done tt u)
          × Run 103 u)
        ⊎ ((x : Error) × (failure_of task.1 lively ≡ some x)
            × (process_next 101 103 lively fresh
                ≡ raised x (heard 101 task.1 lively (taken fresh rest)))))
process_next_example =
    process_next_timely 100 101 103 lively fresh (record { due = 100; active = true }) fresh-Run
      refl (omega arith) (omega arith) (omega arith)
