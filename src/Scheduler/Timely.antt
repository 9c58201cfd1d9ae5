-- ===== src/Scheduler/Timely.antt =====
-- BaseScheduler._process_next: the delayed call goes off for the first task, and no task runs early.
use calvin_base.Base.{
  none, Error, raised, inl, inr, ℕ, ◌≤◌, ◌≡◌, refl, sym, ap, ◌∙◌, ◌⊎◌, true, Option, some, List, [],
  ◌∷◌, subst, done, after, arith,
}
use calvin_base.Scheduler.{
  Scheduler, What, strategy, check_replication, maintenance_loop, insert_task, process_next, run,
  init, DelayedCall, Calls,
}
use calvin_base.Scheduler.Order.{IsSorted, insert_task-IsSorted}
use calvin_base.Scheduler.Armed.{
  IsSetFor, IsReady, HasTasks, later-IsSetFor, insert_task-IsArmed, insert_task-HasTasks,
  insert_task-HasTasks_still, taken, process_next-cases,
}
use calvin_base.Scheduler.Bodies.{failure_of, heard}

-- The scheduler's history: it is started, its queue grows by the events that are reported, and the
-- call that waits goes off, not before it is due, for a task that raises no exception. The times
-- only grow.
pub data Run : ℕ → Scheduler → Type 0 where
  started : (now : ℕ) (delay : Option ℕ) → Run now (run now (init delay))
  event :
      (now later : ℕ) (what : What) (delay : ℕ) (s : Scheduler)
      → Run now s
      → now ≤ later
      → Run later (insert_task later what delay s)
  silent :
      (now later : ℕ) (s u : Scheduler)
      → Run now s
      → now ≤ later
      → u.tasks ≡ s.tasks
      → u.scheduled ≡ s.scheduled
      → Run later u
  goes_off :
      (now at later : ℕ) (calls : Calls) (s u : Scheduler) (c : DelayedCall)
      → Run now s
      → s.scheduled ≡ some c
      → c.due ≤ at
      → now ≤ at
      → at ≤ later
      → process_next at later calls s ≡ done tt u
      → Run later u

insert_task-IsReady :
    (now later : ℕ) (what : What) (delay : ℕ) (s : Scheduler)
    → now ≤ later
    → IsReady now s
    → IsReady later (insert_task later what delay s)
unfolding IsReady
insert_task-IsReady now later what delay s h (sorted, armed, has) = (
  insert_task-IsSorted later what delay s sorted,
  insert_task-IsArmed later what delay s (later-IsSetFor now later s.tasks s.scheduled h armed),
  insert_task-HasTasks_still later what delay s has,
)

run-IsReady : (now : ℕ) (delay : Option ℕ) → IsReady now (run now (init delay))
unfolding run IsReady
run-IsReady now delay =
    let s : Scheduler = init delay in
    let t : Scheduler = insert_task now maintenance_loop s.maintenance_delay s in
    let first : IsReady now t = (
      insert_task-IsSorted now maintenance_loop s.maintenance_delay s tt,
      insert_task-IsArmed now maintenance_loop s.maintenance_delay s tt,
      insert_task-HasTasks now maintenance_loop s.maintenance_delay s refl,
    ) in
    insert_task-IsReady now now strategy 0
      (insert_task now check_replication s.replication_interval t) (omega arith)
      (insert_task-IsReady now now check_replication s.replication_interval t (omega arith) first)

IsReady-head :
    (now : ℕ) (s : Scheduler) (tasks : List (ℕ × What))
    → s.tasks ≡ tasks
    → IsReady now s
    → (task : ℕ × What) × (rest : List (ℕ × What)) × (tasks ≡ task ∷ rest)
unfolding IsReady HasTasks
IsReady-head now s [] e h = absurd (ground (arith, e, h.2))
IsReady-head now s (task ∷ rest) e h = (task, rest, refl)

-- In every state that the scheduler reaches the queue is in the order of time and not empty, and the
-- delayed call is active, set no earlier than the head of the queue, and no later than the head or
-- the present.
pub Run-IsReady : (now : ℕ) (s : Scheduler) → Run now s → IsReady now s
unfolding IsReady HasTasks
Run-IsReady _ _ (started now delay) = run-IsReady now delay
Run-IsReady _ _ (event before now what delay t r h) =
    insert_task-IsReady before now what delay t h (Run-IsReady before t r)
Run-IsReady _ _ (silent before now t s r h tasks scheduled) =
    let (sorted, armed, has) = Run-IsReady before t r in
    rw (tasks, scheduled) (sorted, later-IsSetFor before now t.tasks t.scheduled h armed, has)
Run-IsReady _ _ (goes_off before at now calls t s c r k due h l e) =
    let ready = Run-IsReady before t r in
    let (task, rest, head) = IsReady-head before t t.tasks refl ready in
    elim (process_next-cases at now calls t task rest head (subst IsSorted head ready.0).1) [
      | inl (good, u, f, after_ready) ↦ subst (IsReady now) (ap after (sym f ∙ e)) after_ready
      | inr (x, bad, f) ↦ absurd (ground (arith, sym f ∙ e))
    ]

set_call :
    (now : ℕ) (task : ℕ × What) (rest tasks : List (ℕ × What)) (c : DelayedCall)
    (d : Option DelayedCall)
    → tasks ≡ task ∷ rest
    → d ≡ some c
    → IsSetFor now tasks d
    → (c.active ≡ true) × (task.0 ≤ c.due) × ((c.due ≤ task.0) ⊎ (c.due ≤ now))
set_call now task rest tasks c d e k a =
    subst (IsSetFor now (task ∷ rest)) k (subst (λ r. IsSetFor now r d) e a)

-- In every state that the scheduler reaches while no task raises an exception, when the delayed call
-- goes off, at its due time or after it: the queue has a head, whose time has come, and the call was
-- not set later than the head's time or the time when it was last looked at. `_process_next` runs
-- the head. Where the head's calls succeed, whatever events they report, `_process_next` does not
-- raise, and goes on to such a state. Where they raise an exception, `_process_next` raises it and
-- leaves the state as the events left it, the head gone and the rescheduling not reached.
pub process_next_timely :
    (now at later : ℕ) (calls : Calls) (s : Scheduler) (c : DelayedCall)
    → Run now s
    → s.scheduled ≡ some c
    → c.due ≤ at
    → now ≤ at
    → at ≤ later
    → (task : ℕ × What) × (rest : List (ℕ × What)) × (s.tasks ≡ task ∷ rest)
      × (c.active ≡ true)
      × (task.0 ≤ at)
      × ((c.due ≤ task.0) ⊎ (c.due ≤ now))
      × (((failure_of task.1 calls ≡ none)
            × (u : Scheduler) × (process_next at later calls s ≡ done tt u)
            × Run later u)
          ⊎ ((x : Error) × (failure_of task.1 calls ≡ some x)
              × (process_next at later calls s ≡ raised x (heard at task.1 calls (taken s rest)))))
unfolding IsReady
process_next_timely now at later calls s c r k due h l =
    let ready = Run-IsReady now s r in
    let (task, rest, head) = IsReady-head now s s.tasks refl ready in
    let (active, not_early, not_late) =
      set_call now task rest s.tasks c s.scheduled head k ready.1 in
    (
      task,
      rest,
      head,
      active,
      omega arith,
      not_late,
      elim (process_next-cases at later calls s task rest head (subst IsSorted head ready.0).1) [
        | inl (good, u, e, after_ready) ↦
            inl (good, u, e, goes_off now at later calls s u c r k due h l e)
        | inr failed ↦ inr failed
      ],
    )
