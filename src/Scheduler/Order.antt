-- ===== src/Scheduler/Order.antt =====
-- BaseScheduler.insert_task: the task queue is kept in the order of time.
use calvin_base.Base.{
  ℕ, zero, suc, ◌+◌, ◌≤◌, ◌≡◌, refl, ap, ◌⊎◌, inl, inr, true, some, List, [], ◌∷◌, ◌++◌, get_elem?,
  ltb, Bool-cases, after, arith,
}
use calvin_base.Base.{ltb→lt}
use calvin_base.Scheduler.{
  Scheduler, What, insert_task, slot, insert_at, coalesce, schedule_next, same_task,
}

abbrev pub NoneBefore : ℕ → List (ℕ × What) → Type 0
NoneBefore t [] = Unit {0}
NoneBefore t ((u, w) ∷ tasks) = (t ≤ u) × NoneBefore t tasks

abbrev pub NoneAfter : ℕ → List (ℕ × What) → Type 0
NoneAfter t [] = Unit {0}
NoneAfter t ((u, w) ∷ tasks) = (u ≤ t) × NoneAfter t tasks

abbrev pub IsSorted : List (ℕ × What) → Type 0
IsSorted [] = Unit {0}
IsSorted ((u, w) ∷ tasks) = NoneBefore u tasks × IsSorted tasks

NoneBefore-trans :
    (t u : ℕ) (tasks : List (ℕ × What)) → t ≤ u → NoneBefore u tasks → NoneBefore t tasks
NoneBefore-trans t u [] h n = tt
NoneBefore-trans t u ((v, w) ∷ tasks) h n = (omega (arith, n.0), NoneBefore-trans t u tasks h n.1)

insert_at-NoneBefore :
    (t u : ℕ) (what : What) (tasks : List (ℕ × What))
    → t ≤ u
    → NoneBefore t tasks
    → NoneBefore t (insert_at (slot u tasks) (u, what) tasks)
insert_at-NoneBefore t u what [] h n = (h, tt)
insert_at-NoneBefore t u what ((v, w) ∷ tasks) h n =
    ground (arith, insert_at-NoneBefore t u what tasks h n.1)

insert_at-IsSorted :
    (t : ℕ) (what : What) (tasks : List (ℕ × What))
    → IsSorted tasks
    → IsSorted (insert_at (slot t tasks) (t, what) tasks)
insert_at-IsSorted t what [] s = (tt, tt)
insert_at-IsSorted t what ((u, w) ∷ tasks) s = elim (Bool-cases (ltb t u)) [
  | inl e ↦ rw e (
    (omega (arith, ltb→lt t u e), NoneBefore-trans t u tasks (omega (arith, ltb→lt t u e)) s.0),
    s,
  )
  | inr e ↦
      rw e (
        insert_at-NoneBefore u t what tasks (ground arith) s.0,
        insert_at-IsSorted t what tasks s.1,
      )
]

module _ (now : ℕ) (what : What) (delay : ℕ) (s : Scheduler) where
  -- The task goes to its slot, or the queue stays as it is.
  pub insert_task_tasks :
      (insert_task now what delay s ≡ s)
      ⊎ ((insert_task now what delay s).tasks
          ≡ insert_at (slot (now + delay) s.tasks) (now + delay, what) s.tasks)
  unfolding insert_task schedule_next
  insert_task_tasks = ground arith

  pub insert_task-IsSorted : IsSorted s.tasks → IsSorted (insert_task now what delay s).tasks
  insert_task-IsSorted h = elim insert_task_tasks [
    | inl e ↦ rw e h
    | inr e ↦ rw e (insert_at-IsSorted (now + delay) what s.tasks h)
  ]

-- A queue is split at the slot of a time.
slot_split :
    (t : ℕ) (what : What) (tasks : List (ℕ × What))
    → IsSorted tasks
    → (before : List (ℕ × What)) × (after : List (ℕ × What)) × (tasks ≡ before ++ after)
      × (insert_at (slot t tasks) (t, what) tasks ≡ before ++ (t, what) ∷ after)
      × NoneAfter t before
      × NoneBefore (suc t) after
slot_split t what [] s = ([], [], refl, refl, tt, tt)
slot_split t what ((u, w) ∷ tasks) s = elim (Bool-cases (ltb t u)) [
  | inl e ↦
      let h = ltb→lt t u e in
      (
        [],
        (u, w) ∷ tasks,
        refl,
        rw e refl,
        tt,
        (omega (arith, h), NoneBefore-trans (suc t) u tasks (omega (arith, h)) s.0),
      )
  | inr e ↦
      let (before, after, split, placed, h, k) = slot_split t what tasks s.1 in
      (
        (u, w) ∷ before,
        after,
        ap (λ r. (u, w) ∷ r) split,
        rw e (ap (λ r. (u, w) ∷ r) placed),
        (ground arith, h),
        k,
      )
]

-- The task before the slot of a time is not due after it.
slot_previous :
    (t i : ℕ) (tasks : List (ℕ × What))
    → slot t tasks ≡ suc i
    → (u : ℕ) × (w : What) × (get_elem? tasks i ≡ some (u, w)) × (u ≤ t)
slot_previous t i [] e = absurd (ground arith)
slot_previous t zero ((u, w) ∷ tasks) e = (u, w, refl, ground arith)
slot_previous t (suc i) ((u, w) ∷ tasks) e = slot_previous t i tasks (ground arith)

-- Where a task goes: between what is due by its time and what is due later,
abbrev pub Placed : ℕ → What → Scheduler → Scheduler → Type 0
Placed t what s s' =
    (before : List (ℕ × What)) × (after : List (ℕ × What)) × (s.tasks ≡ before ++ after)
    × (s'.tasks ≡ before ++ (t, what) ∷ after)
    × NoneAfter t before
    × NoneBefore (suc t) after

-- or nowhere, since the same task is there, due by then.
abbrev pub IsThere : ℕ → What → Scheduler → Type 0
IsThere t what s =
    (i : ℕ) × (u : ℕ) × (w : What) × (get_elem? s.tasks i ≡ some (u, w))
    × (same_task w what ≡ true)
    × (u ≤ t)

coalesce-true :
    (t i delay : ℕ) (what : What) (s : Scheduler)
    → slot t s.tasks ≡ i
    → coalesce i delay what s.tasks ≡ true
    → (delay ≡ 0) × IsThere t what s
unfolding coalesce
coalesce-true t zero delay what s e h = absurd (ground arith)
coalesce-true t (suc i) (suc delay) what s e h = absurd (ground arith)
coalesce-true t (suc i) zero what s e h =
    let (u, w, at, le) = slot_previous t i s.tasks e in
    (refl, (i, u, w, at, ground (arith, at), le))

-- `insert_task` on a queue in the order of time: the queue stays in this order, and the task is put
-- after everything due by its time and before everything due later; or the call has no effect, its
-- delay is 0, and the same task is in the queue, due by now.
pub insert_task_cases :
    (now : ℕ) (what : What) (delay : ℕ) (s : Scheduler)
    → IsSorted s.tasks
    → IsSorted (insert_task now what delay s).tasks
      × (Placed (now + delay) what s (insert_task now what delay s)
          ⊎ ((insert_task now what delay s ≡ s) × (delay ≡ 0) × IsThere (now + delay) what s))
unfolding insert_task schedule_next
insert_task_cases now what delay s h = (
  insert_task-IsSorted now what delay s h,
  elim (Bool-cases (coalesce (slot (now + delay) s.tasks) delay what s.tasks)) [
    | inl e ↦
        let (zero_delay, there) =
          coalesce-true (now + delay) (slot (now + delay) s.tasks) delay what s refl e in
        inr (ground (arith, e), zero_delay, there)
    | inr e ↦
        let (before, after, split, placed, by, later) = slot_split (now + delay) what s.tasks h in
        inl (before, after, split, ground (arith, e, placed), by, later)
  ],
)
