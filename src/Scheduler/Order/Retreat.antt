-- ===== src/Scheduler/Order/Retreat.antt =====
-- `retreat_requested` of src/core/scheduler.cc asks a task to yield to a better one.
use glimmer.Prelude.{
  ℕ, ◌<◌, ◌≡◌, ◌≢◌, inl, inr, true, some, arith, Option-cases, lookup, nat_eq, u64_max,
}
use glimmer.Scheduler.{TaskRecord, Scheduler, priority, running}
use glimmer.Scheduler.Queues.{queued_task, peek_priority_task}
use glimmer.Scheduler.Query.{retreat_requested}
use glimmer.Scheduler.Order.{IsWaiting}
use glimmer.Scheduler.Order.Best.{peek_priority_choice}

queued_found :
    (s : Scheduler) (id : ℕ) (task : TaskRecord)
    → queued_task s.tasks id ≡ some task
    → lookup id s.tasks ≡ some task
unfolding queued_task
queued_found s id task q = elim (Option-cases (lookup id s.tasks)) [
  | inl e ↦ ground arith
  | inr (found, e) ↦ ground arith
]

-- A task is asked to retreat only under the priority policy, only while it is running, and only
-- because a task of strictly higher priority waits.
pub retreat_has_reason :
    (s : Scheduler) (id : ℕ) (task : TaskRecord)
    → lookup id s.tasks ≡ some task
    → retreat_requested id s ≡ true
    → (s.scheduling_policy ≡ priority)
      × (task.state ≡ running)
      × ((next : ℕ) × (better : TaskRecord) × IsWaiting s next better
          × (task.spec.priority < better.spec.priority))
unfolding retreat_requested
retreat_has_reason s id task here h = elim (Option-cases (peek_priority_task s)) [
  | inl e ↦ ground arith
  | inr (next, e) ↦
      let (better, waits, best) = (peek_priority_choice s).0 next e in
      let found = queued_found s next better waits.there in
      (ground arith, ground arith, (next, better, waits, ground arith))
]

-- Under the priority policy a running task whose dispatch number is not the last word is asked to
-- retreat as soon as any task of strictly higher priority waits.
pub retreat_is_requested :
    (s : Scheduler) (id : ℕ) (task : TaskRecord) (next : ℕ) (better : TaskRecord)
    → lookup id s.tasks ≡ some task
    → s.scheduling_policy ≡ priority
    → task.state ≡ running
    → task.dispatch_sequence ≢ u64_max
    → IsWaiting s next better
    → task.spec.priority < better.spec.priority
    → retreat_requested id s ≡ true
unfolding retreat_requested
retreat_is_requested s id task next better here p on last waits above =
    elim (Option-cases (peek_priority_task s)) [
      | inl e ↦ absurd ((peek_priority_choice s).1 e next better waits)
      | inr (top, e) ↦
          let (chosen, there, best) = (peek_priority_choice s).0 top e in
          let found = queued_found s top chosen there.there in
          let before = best next better waits in ground arith
    ]
