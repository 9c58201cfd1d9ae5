-- ===== src/Scheduler/Armed.antt =====
-- BaseScheduler: a delayed call waits for the first task whenever one is in the queue.
use calvin_base.Base.{
  Error, raised, Option-cases, ◌∙◌, >>=_done, >>=_raised, ℕ, zero, suc, ◌+◌, ◌-◌, ◌≤◌, ◌≡◌, refl,
  sym, ◌⊎◌, inl, inr, true, false, Option, none, some, List, [], ◌∷◌, is_empty, ◌==◌, if◌then◌else◌,
  subst, done, arith,
}
use calvin_base.Base.{if_has}
use calvin_base.Scheduler.{
  Scheduler, What, watchdog, insert_task, slot, insert_at, coalesce, schedule_next, do_task, Calls,
  finish, reschedule, process_next, gone_off, is_active, DelayedCall,
}
use calvin_base.Scheduler.Order.{IsSorted, insert_task-IsSorted, insert_task_tasks}
use calvin_base.Scheduler.Bodies.{failure_of, heard, do_task_succeeds, do_task_fails}

-- A call waits for the first task: it goes off no earlier than the task's time, and as soon as that
-- has come.
abbrev pub IsSetFor : ℕ → List (ℕ × What) → Option DelayedCall → Type 0
IsSetFor now [] c = Unit {0}
IsSetFor now (task ∷ tasks) none = ⊥
IsSetFor now (task ∷ tasks) (some c) =
    (c.active ≡ true) × (task.0 ≤ c.due) × ((c.due ≤ task.0) ⊎ (c.due ≤ now))

abbrev pub IsArmed : ℕ → Scheduler → Type 0
IsArmed now s = IsSetFor now s.tasks s.scheduled

pub later-IsSetFor :
    (now later : ℕ) (tasks : List (ℕ × What)) (c : Option DelayedCall)
    → now ≤ later
    → IsSetFor now tasks c
    → IsSetFor later tasks c
later-IsSetFor now later [] c h a = a
later-IsSetFor now later (task ∷ tasks) none h a = a
later-IsSetFor now later (task ∷ tasks) (some c) h a = ground arith

schedule_next-IsArmed :
    (now delay : ℕ) (s : Scheduler) (task : ℕ × What) (tasks : List (ℕ × What))
    → s.tasks ≡ task ∷ tasks
    → task.0 ≤ now + delay
    → (now + delay ≤ task.0) ⊎ (delay ≡ 0)
    → IsArmed now (schedule_next now delay s)
unfolding schedule_next
schedule_next-IsArmed now delay s task tasks e h k =
    subst (λ r. IsSetFor now r (some (record { due = now + delay; active = true }))) (sym e)
      (refl, h, ground arith)

insert_at-IsSetFor :
    (now delay : ℕ) (what : What) (tasks : List (ℕ × What)) (c : Option DelayedCall)
    → IsSetFor now tasks c
    → IsSetFor now (insert_at (slot (now + delay) tasks) (now + delay, what) tasks) (
        if slot (now + delay) tasks == 0
        then some (record { due = now + delay; active = true })
        else c)
insert_at-IsSetFor now delay what [] c a = ground arith
insert_at-IsSetFor now delay what (task ∷ tasks) none a = absurd a
insert_at-IsSetFor now delay what (task ∷ tasks) (some c) a = ground arith

pub insert_task-IsArmed :
    (now : ℕ) (what : What) (delay : ℕ) (s : Scheduler)
    → IsArmed now s
    → IsArmed now (insert_task now what delay s)
unfolding insert_task schedule_next
insert_task-IsArmed now what delay s a =
    if_has (IsArmed now) (coalesce (slot (now + delay) s.tasks) delay what s.tasks) a
      (ground (arith, insert_at-IsSetFor now delay what s.tasks s.scheduled a))

unfoldable pub HasTasks : Scheduler → Type 0
HasTasks s = is_empty s.tasks ≡ false

pub insert_task-HasTasks :
    (now : ℕ) (what : What) (delay : ℕ) (s : Scheduler)
    → s.tasks ≡ []
    → HasTasks (insert_task now what delay s)
unfolding insert_task coalesce schedule_next HasTasks
insert_task-HasTasks now what delay s e = ground (arith, e)

insert_at-nonempty :
    (i : ℕ) (task : ℕ × What) (tasks : List (ℕ × What)) → is_empty (insert_at i task tasks) ≡ false
insert_at-nonempty zero task tasks = refl
insert_at-nonempty (suc i) task [] = refl
insert_at-nonempty (suc i) task (x ∷ tasks) = refl

pub insert_task-HasTasks_still :
    (now : ℕ) (what : What) (delay : ℕ) (s : Scheduler)
    → HasTasks s
    → HasTasks (insert_task now what delay s)
unfolding HasTasks
insert_task-HasTasks_still now what delay s h = elim (insert_task_tasks now what delay s) [
  | inl e ↦ rw e h
  | inr e ↦ rw e (insert_at-nonempty (slot (now + delay) s.tasks) (now + delay, what) s.tasks)
]

-- What holds between two calls: the queue is in the order of time, and a call waits for its head.
unfoldable pub IsReady : ℕ → Scheduler → Type 0
IsReady now s = IsSorted s.tasks × IsArmed now s × HasTasks s

-- After a task ran, a call waits for the first task, whichever calls the task made.
reschedule-IsReady :
    (later : ℕ) (s : Scheduler) (tasks : List (ℕ × What))
    → s.tasks ≡ tasks
    → IsSorted s.tasks
    → IsReady later (reschedule later s)
unfolding reschedule schedule_next HasTasks IsReady
reschedule-IsReady later s [] e h =
    let eq : reschedule later s ≡ insert_task later watchdog 60 s = rw e refl in
    subst (IsReady later) (sym eq) (
      insert_task-IsSorted later watchdog 60 s h,
      insert_task-IsArmed later watchdog 60 s (rw e tt),
      insert_task-HasTasks later watchdog 60 s e,
    )
reschedule-IsReady later s (task ∷ tasks) e h =
    let eq : reschedule later s ≡ schedule_next later (task.0 - later) s = rw e refl in
    subst (IsReady later) (sym eq) (
      h,
      schedule_next-IsArmed later (task.0 - later) s task tasks e (omega arith) (omega arith),
      rw e refl,
    )

IsSetFor-active :
    (now : ℕ) (tasks : List (ℕ × What)) (c : Option DelayedCall)
    → IsSetFor now tasks c
    → is_empty tasks ≡ false
    → is_active c ≡ true
IsSetFor-active now [] c a h = absurd (ground arith)
IsSetFor-active now (task ∷ tasks) none a h = absurd a
IsSetFor-active now (task ∷ tasks) (some c) a h = a.0

-- The queue when its head is run: the head is taken out, and the call has gone off.
abbrev pub taken : Scheduler → List (ℕ × What) → Scheduler
taken s tasks = record s { tasks = tasks; scheduled = gone_off s.scheduled }

-- The task succeeds and a call waits for the next one; or it raises an exception and so does
-- `_process_next`, at once.
pub process_next-cases :
    (now later : ℕ) (calls : Calls) (s : Scheduler) (task : ℕ × What) (tasks : List (ℕ × What))
    → s.tasks ≡ task ∷ tasks
    → IsSorted tasks
    → ((failure_of task.1 calls ≡ none)
        × (u : Scheduler) × (process_next now later calls s ≡ done tt u)
        × IsReady later u)
      ⊎ ((x : Error) × (failure_of task.1 calls ≡ some x)
          × (process_next now later calls s ≡ raised x (heard now task.1 calls (taken s tasks))))
unfolding process_next finish IsReady HasTasks
process_next-cases now later calls s task tasks e h =
    let t : Scheduler = taken s tasks in
    elim (Option-cases (failure_of task.1 calls)) [
      | inl succeeds ↦
          let (did, done_so, sorted) = do_task_succeeds now calls task.1 t succeeds h in
          let u : Scheduler = reschedule later did in
          let ready = reschedule-IsReady later did did.tasks refl sorted in
          let active = IsSetFor-active later u.tasks u.scheduled ready.1 ready.2 in
          let finished : finish later did ≡ done tt u = rw active refl in
          inl
            (succeeds, u, rw e (>>=_done (do_task now calls task.1) _ t done_so ∙ finished), ready)
      | inr (x, fails) ↦ inr (
        x,
        fails,
        rw e (
            >>=_raised (do_task now calls task.1) (λ _. finish later) t
              (do_task_fails now calls task.1 t x fails)),
      )
    ]
