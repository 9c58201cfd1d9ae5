-- ===== src/Scheduler/Events.antt =====
-- BaseScheduler and SimpleScheduler: the events that subsystems report, and the replication loop.
use calvin_base.Base.{
  ℕ, zero, suc, ◌+◌, ◌-◌, ◌≤◌, ◌<◌, ◌≡◌, refl, ap, inl, inr, Bool, true, Option, none, some, List,
  [], ◌∷◌, ◌++◌, get_elem?, contains, ◌==◌, if◌then◌else◌, subst, get_or_default, Bool-cases, after,
  arith,
}
use calvin_base.Base.{lt→ltb, if_has}
use native.Mathlib.Nat.{add-zero}
use calvin_base.Monitor.{set_backoff, clear_backoff, next_slot, register}
use calvin_base.Scheduler.{
  Scheduler, What, strategy, check_replication, check_pressure, maintenance_loop, watchdog,
  insert_task, same_task, any_before, replication_direct, trigger_pressure_event,
  trigger_maintenance_loop, tunnel_rx, tunnel_tx_ack, tunnel_tx_nack, schedule_calvinsys,
  register_endpoint, insert_at, slot, next_replication,
}
use calvin_base.Scheduler.Order.{
  IsSorted, insert_task_cases, insert_task_tasks, insert_task-IsSorted,
}
use calvin_base.Scheduler.Timely.{Run, event, silent}

module _ (now later : ℕ) (s : Scheduler) (r : Run now s) (h : now ≤ later) where
  inserted :
      (what : What) (delay : ℕ) (u : Scheduler)
      → u.tasks ≡ s.tasks
      → u.scheduled ≡ s.scheduled
      → Run later (insert_task later what delay u)
  inserted what delay u e k =
      event later later what delay u (silent now later s u r h e k) (omega arith)

  nack-Run :
      (next : Option ℕ) (u : Scheduler)
      → u.tasks ≡ s.tasks
      → u.scheduled ≡ s.scheduled
      → Run later (elim next [
        | none ↦ u
        | some slot ↦ if slot == 0 then u else insert_task later strategy (slot - later) u
      ])
  nack-Run none u e k = silent now later s u r h e k
  nack-Run (some slot) u e k =
      if_has (Run later) (slot == 0) (silent now later s u r h e k)
        (inserted strategy (slot - later) u e k)

  -- Every event leaves the scheduler in a state that it can reach, at the time of the event: a
  -- direct replication, pressure, maintenance, a token received or acknowledged or refused, a
  -- platform event, and a new endpoint.
  pub events-Run :
      (delay endpoint actor : ℕ) (flag : Bool)
      → Run later (replication_direct later delay s)
        × Run later (trigger_pressure_event later actor s)
        × Run later (trigger_maintenance_loop later flag s)
        × Run later (tunnel_rx later s)
        × Run later (tunnel_tx_ack later endpoint s)
        × Run later (tunnel_tx_nack later endpoint s)
        × Run later (schedule_calvinsys later s)
        × Run later (register_endpoint later endpoint flag s)
  unfolding replication_direct trigger_pressure_event trigger_maintenance_loop tunnel_rx
      tunnel_tx_ack tunnel_tx_nack schedule_calvinsys register_endpoint
  events-Run delay endpoint actor flag =
      let still : Run later s = silent now later s s r h refl refl in
      let registered : Scheduler = record s { monitor = register endpoint s.monitor } in
      (
        inserted check_replication delay s refl refl,
        inserted check_pressure 0
            (record s {
              pressure_event_actor_ids =
                  (if contains s.pressure_event_actor_ids actor
                    then s.pressure_event_actor_ids
                    else s.pressure_event_actor_ids ++ actor ∷ []);
            })
            refl refl,
        if_has (Run later) flag still (inserted maintenance_loop 0 s refl refl),
        inserted strategy 0 s refl refl,
        inserted strategy 0 (record s { monitor = clear_backoff endpoint s.monitor }) refl refl,
        nack-Run (next_slot (set_backoff later endpoint s.monitor))
            (record s { monitor = set_backoff later endpoint s.monitor }) refl refl,
        inserted strategy 0 s refl refl,
        if_has (Run later) flag (inserted strategy 0 registered refl refl)
            (silent now later s registered r h refl refl),
      )

any_before-append :
    (what : What) (t : ℕ) (xs ys : List (ℕ × What))
    → any_before what t ys ≡ true
    → any_before what t (xs ++ ys) ≡ true
any_before-append what t [] ys h = h
any_before-append what t (x ∷ xs) ys h = ground (arith, any_before-append what t xs ys h)

any_before-elem :
    (what w : What) (t u i : ℕ) (xs : List (ℕ × What))
    → get_elem? xs i ≡ some (u, w)
    → same_task w what ≡ true
    → u < t
    → any_before what t xs ≡ true
any_before-elem what w t u i [] e k h = absurd (ground arith)
any_before-elem what w t u zero (x ∷ xs) e k h =
    ground (arith, ap (get_or_default (u, w)) e, k, lt→ltb u t h)
any_before-elem what w t u (suc i) (x ∷ xs) e k h =
    ground (arith, any_before-elem what w t u i xs e k h)

same_task_refl : (w : What) → same_task w w ≡ true
same_task_refl strategy = refl
same_task_refl check_replication = refl
same_task_refl check_pressure = refl
same_task_refl maintenance_loop = refl
same_task_refl watchdog = refl

-- A task that is inserted is in the queue, due by its time.
pub insert_task-any_before :
    (now : ℕ) (what : What) (delay : ℕ) (s : Scheduler)
    → IsSorted s.tasks
    → any_before what (suc (now + delay)) (insert_task now what delay s).tasks ≡ true
insert_task-any_before now what delay s h = elim (insert_task_cases now what delay s h).1 [
  | inl (before, after, split, placed, by, later) ↦ rw placed (
      any_before-append what (suc (now + delay)) before ((now + delay, what) ∷ after)
        (ground (arith, same_task_refl what)))
  | inr (e, zero_delay, there) ↦
      let (i, u, w, at, same, by) = there in
      rw e (any_before-elem what w (suc (now + delay)) u i s.tasks at same (omega arith))
]

any_before-insert_at :
    (what : What) (t i : ℕ) (task : ℕ × What) (xs : List (ℕ × What))
    → any_before what t xs ≡ true
    → any_before what t (insert_at i task xs) ≡ true
any_before-insert_at what t zero task xs h = ground (arith, h)
any_before-insert_at what t (suc i) task [] h = absurd (ground arith)
any_before-insert_at what t (suc i) task (x ∷ xs) h =
    ground (arith, any_before-insert_at what t i task xs)

-- A task that is in the queue stays there when another comes.
insert_task-any_before_still :
    (now delay t : ℕ) (what other : What) (s : Scheduler)
    → any_before what t s.tasks ≡ true
    → any_before what t (insert_task now other delay s).tasks ≡ true
insert_task-any_before_still now delay t what other s h =
    elim (insert_task_tasks now other delay s) [
      | inl e ↦ rw e h
      | inr e ↦
          rw e (
            any_before-insert_at what t (slot (now + delay) s.tasks) (now + delay, other) s.tasks h)
    ]

any_before-suc :
    (what : What) (t : ℕ) (xs : List (ℕ × What))
    → any_before what t xs ≡ true
    → any_before what (suc t) xs ≡ true
any_before-suc what t [] h = h
any_before-suc what t (x ∷ xs) h = ground (arith, any_before-suc what t xs)

-- After the replication loop there is a next one in the queue, due in the interval at most, and a
-- run of the strategy, due now.
pub next_replication-goes_on :
    (now : ℕ) (s : Scheduler)
    → IsSorted s.tasks
    → (any_before check_replication
          (suc (now + s.replication_interval))
          (next_replication now s).tasks
        ≡ true)
      × (any_before strategy (suc now) (next_replication now s).tasks ≡ true)
unfolding next_replication
next_replication-goes_on now s h =
    let loop : Scheduler =
      (if any_before check_replication (now + s.replication_interval) s.tasks
        then s
        else insert_task now check_replication s.replication_interval s) in
    let sorted : IsSorted loop.tasks =
      if_has {A = Scheduler} (λ t. IsSorted t.tasks)
        (any_before check_replication (now + s.replication_interval) s.tasks) h
        (insert_task-IsSorted now check_replication s.replication_interval s h) in
    let goes_on : any_before check_replication (suc (now + s.replication_interval)) loop.tasks
        ≡ true =
      elim (Bool-cases (any_before check_replication (now + s.replication_interval) s.tasks)) [
        | inl e ↦ rw e (any_before-suc check_replication (now + s.replication_interval) s.tasks e)
        | inr e ↦ rw e (insert_task-any_before now check_replication s.replication_interval s h)
      ] in
    (
      insert_task-any_before_still now 0 (suc (now + s.replication_interval)) check_replication
          strategy loop goes_on,
      subst (λ n. any_before strategy (suc n) (insert_task now strategy 0 loop).tasks ≡ true)
          (add-zero now) (insert_task-any_before now strategy 0 loop sorted),
    )
