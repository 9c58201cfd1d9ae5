-- ===== src/Scheduler.antt =====
-- The task queue of BaseScheduler and SimpleScheduler: calvin/runtime/north/scheduler.py.
mod Order
mod Bodies
mod Armed
mod Timely
mod Events
mod Tests
use calvin_base.Base.{
  ℕ, zero, suc, ◌+◌, ◌-◌, ◌*◌, ◌%◌, ◌≤◌, ◌<◌, ◌≡◌, refl, sym, ap, ◌∙◌, ◌≢◌, ◌⊎◌, inl, inr, Bool,
  true, false, not, ◌&&◌, ◌||◌, Option, none, some, List, [], ◌∷◌, ◌++◌, map, length, is_empty, set,
  get_elem?, replicate, take, drop, contains, remove, contains_all, same_set, sort, Distinct, leb,
  ltb, ◌==◌, if◌then◌else◌, subst, tests, get_or_default, Bool-cases, Option-cases, Dict, lookup,
  insert, erase, keys, values, map_values, set_default, update, AllValues, minimum?, minimum_or,
  Error, queue_full, queue_empty, unknown_reader, unknown_writer, illegal_mapping, illegal_order,
  value_error, attribute_error, key_error, type_error, index_error, zero_division, not_implemented,
  exception, Method, Outcome, done, raised, ◌>>=◌, ◌>>◌, return, raise, self, put, require,
  or_raise, item, elem, attempt, after, arith, ℕ_discrete,
}
use calvin_base.Monitor.{Monitor, set_backoff, clear_backoff, next_slot, register, unregister}

-- The methods that the scheduler puts in its queue.
pub data What : Type 0 where
  strategy check_replication check_pressure maintenance_loop watchdog : What

abbrev pub same_task : What → What → Bool
same_task strategy strategy = true
same_task check_replication check_replication = true
same_task check_pressure check_pressure = true
same_task maintenance_loop maintenance_loop = true
same_task watchdog watchdog = true
same_task a b = false

-- An `async.DelayedCall` of `_process_next`: when it goes off, and whether it still waits.
pub record DelayedCall : Type 0 where
  pub due : ℕ
  pub active : Bool

pub record Scheduler : Type 0 where
  pub tasks : List (ℕ × What)
  pub scheduled : Option DelayedCall
  pub is_done : Bool
  pub pressure_event_actor_ids : List ℕ
  pub maintenance_delay : ℕ
  pub replication_interval : ℕ
  pub monitor : Monitor

-- `_conf.get(None, "maintenance_delay") or 300`
abbrev pub configured : Option ℕ → ℕ
configured none = 300
configured (some zero) = 300
configured (some (suc n)) = suc n

abbrev pub init : Option ℕ → Scheduler
init delay = record {
  tasks = [];
  scheduled = none;
  is_done = false;
  pressure_event_actor_ids = [];
  maintenance_delay = configured delay;
  replication_interval = 2;
  monitor = record { endpoints = []; backoff = [] };
}

-- The first call stops the event loop: whether this one does.
abbrev pub stop : Scheduler → Bool × Scheduler
stop s = (not s.is_done, record s { is_done = true })

-- The first place in the queue whose task is due after `t`, or the end.
abbrev pub slot : ℕ → List (ℕ × What) → ℕ
slot t [] = 0
slot t ((u, w) ∷ tasks) = if ltb t u then 0 else suc (slot t tasks)

abbrev pub insert_at : ℕ → ℕ × What → List (ℕ × What) → List (ℕ × What)
insert_at zero task tasks = task ∷ tasks
insert_at (suc i) task [] = task ∷ []
insert_at (suc i) task (x ∷ tasks) = x ∷ insert_at i task tasks

-- `index > 0 and delay == 0 and self._tasks[index-1][1] == what`
unfoldable pub coalesce : ℕ → ℕ → What → List (ℕ × What) → Bool
coalesce zero delay what tasks = false
coalesce (suc i) (suc delay) what tasks = false
coalesce (suc i) zero what tasks = elim (get_elem? tasks i) [
  | none ↦ false
  | some (u, w) ↦ same_task w what
]

-- The call that was scheduled before is cancelled.
unfoldable pub schedule_next : ℕ → ℕ → Scheduler → Scheduler
schedule_next now delay s = record s {
  scheduled = some (record { due = now + delay; active = true });
}

unfoldable pub insert_task : ℕ → What → ℕ → Scheduler → Scheduler
unfolding coalesce schedule_next
insert_task now what delay s =
    let t = now + delay in
    let index = slot t s.tasks in
    let inserted = record s { tasks = insert_at index (t, what) s.tasks } in
    if coalesce index delay what s.tasks
    then s
    else (if index == 0 then schedule_next now delay inserted else inserted)

unfoldable pub run : ℕ → Scheduler → Scheduler
unfolding insert_task
run now s = insert_task now strategy 0 (
    insert_task now check_replication s.replication_interval
      (insert_task now maintenance_loop s.maintenance_delay s))

-- The events that subsystems report.
unfoldable pub replication_direct : ℕ → ℕ → Scheduler → Scheduler
unfolding insert_task
replication_direct now delay s = insert_task now check_replication delay s

unfoldable pub trigger_pressure_event : ℕ → ℕ → Scheduler → Scheduler
unfolding insert_task
trigger_pressure_event now actor s = insert_task now check_pressure 0 (record s {
  pressure_event_actor_ids =
      (if contains s.pressure_event_actor_ids actor
        then s.pressure_event_actor_ids
        else s.pressure_event_actor_ids ++ actor ∷ []);
})

unfoldable pub trigger_maintenance_loop : ℕ → Bool → Scheduler → Scheduler
unfolding insert_task
trigger_maintenance_loop now delay s = if delay then s else insert_task now maintenance_loop 0 s

unfoldable pub tunnel_rx : ℕ → Scheduler → Scheduler
unfolding insert_task
tunnel_rx now s = insert_task now strategy 0 s

unfoldable pub tunnel_tx_ack : ℕ → ℕ → Scheduler → Scheduler
unfolding insert_task
tunnel_tx_ack now endpoint s =
    insert_task now strategy 0 (record s { monitor = clear_backoff endpoint s.monitor })

-- The `if next_slot` takes the time 0 for none.
unfoldable pub tunnel_tx_nack : ℕ → ℕ → Scheduler → Scheduler
unfolding insert_task
tunnel_tx_nack now endpoint s =
    let t = record s { monitor = set_backoff now endpoint s.monitor } in
    elim (next_slot t.monitor) [
      | none ↦ t
      | some slot ↦ if slot == 0 then t else insert_task now strategy (slot - now) t
    ]

unfoldable pub schedule_calvinsys : ℕ → Scheduler → Scheduler
unfolding insert_task
schedule_calvinsys now s = insert_task now strategy 0 s

-- `enabled` is what the endpoint's actor answers.
unfoldable pub register_endpoint : ℕ → ℕ → Bool → Scheduler → Scheduler
unfolding insert_task
register_endpoint now endpoint enabled s =
    let t = record s { monitor = register endpoint s.monitor } in
    if enabled then insert_task now strategy 0 t else t

-- An exception of the monitor is the caller's.
abbrev pub unregister_endpoint : ℕ → Scheduler → Scheduler
unregister_endpoint endpoint s = record s { monitor = after (unregister endpoint s.monitor) }

pub data Event : Type 0 where
  replicate_soon pressed : ℕ → Event
  maintain : Bool → Event
  received platform : Event
  acknowledged refused : ℕ → Event
  registered : ℕ → Bool → Event
  unregistered : ℕ → Event

unfoldable pub handle : ℕ → Event → Scheduler → Scheduler
unfolding replication_direct trigger_pressure_event trigger_maintenance_loop tunnel_rx tunnel_tx_ack
    tunnel_tx_nack schedule_calvinsys register_endpoint
handle now (replicate_soon delay) s = replication_direct now delay s
handle now (pressed actor) s = trigger_pressure_event now actor s
handle now (maintain delay) s = trigger_maintenance_loop now delay s
handle now received s = tunnel_rx now s
handle now platform s = schedule_calvinsys now s
handle now (acknowledged endpoint) s = tunnel_tx_ack now endpoint s
handle now (refused endpoint) s = tunnel_tx_nack now endpoint s
handle now (registered endpoint enabled) s = register_endpoint now endpoint enabled s
handle now (unregistered endpoint) s = unregister_endpoint endpoint s

unfoldable pub handle_all : ℕ → List Event → Scheduler → Scheduler
unfolding handle
handle_all now [] s = s
handle_all now (event ∷ events) s = handle_all now events (handle now event s)

-- What a task's calls of the managers, the monitor and the actors do: the events that they report
-- to the scheduler, and the exception that they end with, if any. `activity` is whether the
-- strategy moved a token or fired an actor.
pub record Calls : Type 0 where
  pub events : List Event
  pub failure : Option Error
  pub activity : Bool

unfoldable pub call_out : ℕ → Calls → Method Scheduler (Unit {0})
unfolding handle_all
call_out now calls s = elim calls.failure [
  | none ↦ done tt (handle_all now calls.events s)
  | some e ↦ raised e (handle_all now calls.events s)
]

abbrev pub modify : (Scheduler → Scheduler) → Method Scheduler (Unit {0})
modify f s = done tt (f s)

-- Tasks of one kind, and whether one of them is due before `t`.
abbrev pub any_task : What → List (ℕ × What) → Bool
any_task what [] = false
any_task what ((u, w) ∷ tasks) = same_task w what || any_task what tasks

abbrev pub any_before : What → ℕ → List (ℕ × What) → Bool
any_before what t [] = false
any_before what t ((u, w) ∷ tasks) = same_task w what && ltb u t || any_before what t tasks

-- The tasks, and what each puts in the queue after its calls.
unfoldable pub next_replication : ℕ → Scheduler → Scheduler
unfolding insert_task
next_replication now s =
    let t =
      (if any_before check_replication (now + s.replication_interval) s.tasks
        then s
        else insert_task now check_replication s.replication_interval s) in
    insert_task now strategy 0 t

unfoldable pub do_check_replication : ℕ → Calls → Method Scheduler (Unit {0})
unfolding call_out next_replication
do_check_replication now calls s = (call_out now calls >> modify (next_replication now)) s

unfoldable pub next_pressure : ℕ → Scheduler → Scheduler
unfolding insert_task
next_pressure now s =
    let t = record s { pressure_event_actor_ids = [] } in
    if any_task check_pressure t.tasks then t else insert_task now check_pressure 30 t

unfoldable pub do_check_pressure : ℕ → Calls → Method Scheduler (Unit {0})
unfolding call_out next_pressure
do_check_pressure now calls s = (call_out now calls >> modify (next_pressure now)) s

unfoldable pub next_maintenance : ℕ → Scheduler → Scheduler
unfolding insert_task
next_maintenance now s =
    insert_task now maintenance_loop s.maintenance_delay (insert_task now strategy 0 s)

unfoldable pub do_maintenance_loop : ℕ → Calls → Method Scheduler (Unit {0})
unfolding call_out next_maintenance
do_maintenance_loop now calls s = (call_out now calls >> modify (next_maintenance now)) s

unfoldable pub next_strategy : ℕ → Bool → Scheduler → Scheduler
unfolding insert_task
next_strategy now activity s = if activity then insert_task now strategy 0 s else s

unfoldable pub do_strategy : ℕ → Calls → Method Scheduler (Unit {0})
unfolding call_out next_strategy
do_strategy now calls s = (call_out now calls >> modify (next_strategy now calls.activity)) s

unfoldable pub do_watchdog : ℕ → Scheduler → Scheduler
unfolding insert_task
do_watchdog now s = insert_task now strategy 0 s

unfoldable pub do_task : ℕ → Calls → What → Method Scheduler (Unit {0})
unfolding do_check_replication do_check_pressure do_maintenance_loop do_strategy do_watchdog
do_task now calls strategy s = do_strategy now calls s
do_task now calls check_replication s = do_check_replication now calls s
do_task now calls check_pressure s = do_check_pressure now calls s
do_task now calls maintenance_loop s = do_maintenance_loop now calls s
do_task now calls watchdog s = modify (do_watchdog now) s

-- `_process_next`, which the delayed call runs: it has gone off by then. `now` is the time in the
-- task, `later` the time after it. `self._tasks.pop(0)` raises on an empty queue.
unfoldable pub reschedule : ℕ → Scheduler → Scheduler
unfolding insert_task schedule_next
reschedule later s = elim s.tasks [
  | [] ↦ insert_task later watchdog 60 s
  | task ∷ tasks ↦ schedule_next later (task.0 - later) s
]

abbrev pub gone_off : Option DelayedCall → Option DelayedCall
gone_off none = none
gone_off (some c) = some (record c { active = false })

abbrev pub is_active : Option DelayedCall → Bool
is_active none = false
is_active (some c) = c.active

unfoldable pub finish : ℕ → Method Scheduler (Unit {0})
unfolding reschedule
finish later s =
    let u = reschedule later s in if is_active u.scheduled then done tt u else raised exception u

-- An exception of the task leaves `_process_next` before the next call is scheduled.
unfoldable pub process_next : ℕ → ℕ → Calls → Method Scheduler (Unit {0})
unfolding do_task finish
process_next now later calls s = elim s.tasks [
  | [] ↦ raised index_error (record s { scheduled = gone_off s.scheduled })
  | task ∷ tasks ↦
      (do_task now calls task.1 >> finish later)
        (record s { tasks = tasks; scheduled = gone_off s.scheduled })
]
