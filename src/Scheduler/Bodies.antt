-- ===== src/Scheduler/Bodies.antt =====
-- BaseScheduler: what the tasks and the events leave in the queue is in the order of time.
use calvin_base.Base.{
  ℕ, ◌+◌, ◌-◌, ◌≡◌, refl, Bool, true, false, Option, none, some, List, [], ◌∷◌, ◌==◌, if◌then◌else◌,
  Error, done, raised, ◌>>◌, if_has,
}
use calvin_base.Monitor.{set_backoff, next_slot}
use calvin_base.Scheduler.{
  Scheduler, What, strategy, check_replication, check_pressure, maintenance_loop, watchdog,
  insert_task, do_task, do_check_replication, do_check_pressure, do_maintenance_loop, do_strategy,
  do_watchdog, any_before, any_task, Event, replicate_soon, pressed, maintain, received, platform,
  acknowledged, refused, registered, unregistered, handle, handle_all, Calls, call_out, modify,
  next_replication, next_pressure, next_maintenance, next_strategy, replication_direct,
  trigger_pressure_event, trigger_maintenance_loop, tunnel_rx, tunnel_tx_ack, tunnel_tx_nack,
  schedule_calvinsys, register_endpoint,
}
use calvin_base.Scheduler.Order.{IsSorted, insert_task-IsSorted}

nack-IsSorted :
    (now : ℕ) (slot : Option ℕ) (s : Scheduler)
    → IsSorted s.tasks
    → IsSorted
        (elim slot as (λ o. Scheduler) [
          | none ↦ s
          | some t ↦ if t == 0 then s else insert_task now strategy (t - now) s
        ]).tasks
nack-IsSorted now none s h = h
nack-IsSorted now (some t) s h =
    if_has {A = Scheduler} (λ u. IsSorted u.tasks) (t == 0) h
      (insert_task-IsSorted now strategy (t - now) s h)

pub handle-IsSorted :
    (now : ℕ) (event : Event) (s : Scheduler)
    → IsSorted s.tasks
    → IsSorted (handle now event s).tasks
unfolding handle replication_direct trigger_pressure_event trigger_maintenance_loop tunnel_rx
    tunnel_tx_ack tunnel_tx_nack schedule_calvinsys register_endpoint
handle-IsSorted now (replicate_soon delay) s h =
    insert_task-IsSorted now check_replication delay s h
handle-IsSorted now (pressed actor) s h = insert_task-IsSorted now check_pressure 0 _ h
handle-IsSorted now (maintain delay) s h =
    if_has {A = Scheduler} (λ u. IsSorted u.tasks) delay h
      (insert_task-IsSorted now maintenance_loop 0 s h)
handle-IsSorted now received s h = insert_task-IsSorted now strategy 0 s h
handle-IsSorted now platform s h = insert_task-IsSorted now strategy 0 s h
handle-IsSorted now (acknowledged endpoint) s h = insert_task-IsSorted now strategy 0 _ h
handle-IsSorted now (refused endpoint) s h =
    nack-IsSorted now (next_slot (set_backoff now endpoint s.monitor))
      (record s { monitor = set_backoff now endpoint s.monitor }) h
handle-IsSorted now (registered endpoint enabled) s h =
    if_has {A = Scheduler} (λ u. IsSorted u.tasks) enabled (insert_task-IsSorted now strategy 0 _ h)
      h
handle-IsSorted now (unregistered endpoint) s h = h

handle_all-IsSorted :
    (now : ℕ) (events : List Event) (s : Scheduler)
    → IsSorted s.tasks
    → IsSorted (handle_all now events s).tasks
unfolding handle_all
handle_all-IsSorted now [] s h = h
handle_all-IsSorted now (e ∷ es) s h =
    handle_all-IsSorted now es (handle now e s) (handle-IsSorted now e s h)

-- What a task puts in the queue after its calls.
abbrev pub plan : ℕ → Bool → What → Scheduler → Scheduler
plan now activity strategy s = next_strategy now activity s
plan now activity check_replication s = next_replication now s
plan now activity check_pressure s = next_pressure now s
plan now activity maintenance_loop s = next_maintenance now s
plan now activity watchdog s = do_watchdog now s

plan-IsSorted :
    (now : ℕ) (activity : Bool) (what : What) (s : Scheduler)
    → IsSorted s.tasks
    → IsSorted (plan now activity what s).tasks
unfolding next_replication next_pressure next_maintenance next_strategy do_watchdog
plan-IsSorted now true strategy s h = insert_task-IsSorted now strategy 0 s h
plan-IsSorted now false strategy s h = h
plan-IsSorted now activity check_replication s h =
    insert_task-IsSorted now strategy 0
      (if any_before check_replication (now + s.replication_interval) s.tasks
        then s
        else insert_task now check_replication s.replication_interval s)
      (if_has {A = Scheduler} (λ t. IsSorted t.tasks)
        (any_before check_replication (now + s.replication_interval) s.tasks) h
        (insert_task-IsSorted now check_replication s.replication_interval s h))
plan-IsSorted now activity check_pressure s h =
    if_has {A = Scheduler} (λ t. IsSorted t.tasks) (any_task check_pressure s.tasks) h
      (insert_task-IsSorted now check_pressure 30 (record s { pressure_event_actor_ids = [] }) h)
plan-IsSorted now activity maintenance_loop s h =
    insert_task-IsSorted now maintenance_loop s.maintenance_delay (insert_task now strategy 0 s)
      (insert_task-IsSorted now strategy 0 s h)
plan-IsSorted now activity watchdog s h = insert_task-IsSorted now strategy 0 s h

-- The calls of a task; the watchdog makes none.
abbrev pub events_of : What → Calls → List Event
events_of strategy calls = calls.events
events_of check_replication calls = calls.events
events_of check_pressure calls = calls.events
events_of maintenance_loop calls = calls.events
events_of watchdog calls = []

abbrev pub failure_of : What → Calls → Option Error
failure_of strategy calls = calls.failure
failure_of check_replication calls = calls.failure
failure_of check_pressure calls = calls.failure
failure_of maintenance_loop calls = calls.failure
failure_of watchdog calls = none

-- The state after a task's calls.
abbrev pub heard : ℕ → What → Calls → Scheduler → Scheduler
heard now what calls s = handle_all now (events_of what calls) s

calls_succeed :
    (now : ℕ) (calls : Calls) (f : Scheduler → Scheduler) (s : Scheduler)
    → calls.failure ≡ none
    → (call_out now calls >> modify f) s ≡ done tt (f (handle_all now calls.events s))
unfolding call_out
calls_succeed now calls f s e = rw e refl

calls_fail :
    (now : ℕ) (calls : Calls) (f : Scheduler → Scheduler) (s : Scheduler) (x : Error)
    → calls.failure ≡ some x
    → (call_out now calls >> modify f) s ≡ raised x (handle_all now calls.events s)
unfolding call_out
calls_fail now calls f s x e = rw e refl

pub do_task_succeeds :
    (now : ℕ) (calls : Calls) (what : What) (s : Scheduler)
    → failure_of what calls ≡ none
    → IsSorted s.tasks
    → (t : Scheduler) × (do_task now calls what s ≡ done tt t) × IsSorted t.tasks
unfolding do_task do_check_replication do_check_pressure do_maintenance_loop do_strategy handle_all
do_task_succeeds now calls what s e h = (
  plan now calls.activity what (heard now what calls s),
  planned what e,
  plan-IsSorted now calls.activity what (heard now what calls s)
      (handle_all-IsSorted now (events_of what calls) s h),
)
  where
    planned :
        (what : What)
        → failure_of what calls ≡ none
        → do_task now calls what s ≡ done tt (plan now calls.activity what (heard now what calls s))
    planned strategy e = calls_succeed now calls (next_strategy now calls.activity) s e
    planned check_replication e = calls_succeed now calls (next_replication now) s e
    planned check_pressure e = calls_succeed now calls (next_pressure now) s e
    planned maintenance_loop e = calls_succeed now calls (next_maintenance now) s e
    planned watchdog e = refl

pub do_task_fails :
    (now : ℕ) (calls : Calls) (what : What) (s : Scheduler) (x : Error)
    → failure_of what calls ≡ some x
    → do_task now calls what s ≡ raised x (heard now what calls s)
unfolding do_task do_check_replication do_check_pressure do_maintenance_loop do_strategy handle_all
do_task_fails now calls strategy s x e =
    calls_fail now calls (next_strategy now calls.activity) s x e
do_task_fails now calls check_replication s x e = calls_fail now calls (next_replication now) s x e
do_task_fails now calls check_pressure s x e = calls_fail now calls (next_pressure now) s x e
do_task_fails now calls maintenance_loop s x e = calls_fail now calls (next_maintenance now) s x e
do_task_fails now calls watchdog s x e = cc
