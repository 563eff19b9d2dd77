-- ===== src/Scheduler/Capacity/Steps.antt =====
-- Every call of a method of src/core/scheduler.cc keeps the capacity and the quota.
use glimmer.Prelude.{
  ℕ, ◌≤◌, inl, inr, List, [], ◌∷◌, arith, Option-cases, lookup, nat_eq, string_eq, u64_max,
}
use glimmer.Quota.Bounds.{release-IsWithinLimit, cancel-IsWithinLimit}
use glimmer.Scheduler.{
  TaskRecord, TaskState, Scheduler, SchedulerOptions, Faults, new_scheduler, completed, failed,
  cancelled,
}
use glimmer.Scheduler.Finish.{
  suspend, finish_running_task, complete, fail, cancel_task, cancel_queued_task, cancel_queued,
  forget,
}
use glimmer.Scheduler.Query.{set_priority_reserved_slots}
use glimmer.Scheduler.Run.{
  Call, submits, dispatches_next, dispatches, suspends, completes, fails, cancels, cancels_queued,
  forgets, reserves_slots, step, Event, run,
}
use glimmer.Scheduler.Capacity.{IsWithinCapacity, length-erase-le, submit-IsWithinCapacity}
use glimmer.Scheduler.Capacity.Dispatching.{
  dispatch_next-IsWithinCapacity, dispatch_task-IsWithinCapacity,
}

suspend-IsWithinCapacity :
    (f : Faults) (now id : ℕ) (s : Scheduler)
    → IsWithinCapacity s
    → IsWithinCapacity (suspend f now id s).0
unfolding suspend
suspend-IsWithinCapacity f now id s v = ground (arith, length-erase-le id s.running_task_ids)

finish-IsWithinCapacity :
    (now id : ℕ) (terminal : TaskState) (s : Scheduler)
    → IsWithinCapacity s
    → IsWithinCapacity (finish_running_task now id terminal s).0
unfolding finish_running_task
finish-IsWithinCapacity now id terminal s v = elim (Option-cases (lookup id s.tasks)) [
  | inl e ↦ rw e v
  | inr (task, e) ↦ rw e (
      ground (
        arith,
        length-erase-le id s.running_task_ids,
        release-IsWithinLimit s.quota_ledger task.spec.memory_bytes v.quota,
      ))
]

cancel_queued_task-IsWithinCapacity :
    (f : Faults) (id : ℕ) (task : TaskRecord) (s : Scheduler)
    → IsWithinCapacity s
    → IsWithinCapacity (cancel_queued_task f id task s).0
unfolding cancel_queued_task
cancel_queued_task-IsWithinCapacity f id task s v = elim (Option-cases task.reservation) [
  | inl e ↦ ground arith
  | inr (r, e) ↦ ground (
    arith,
    release-IsWithinLimit s.quota_ledger task.spec.memory_bytes v.quota,
    cancel-IsWithinLimit f.cancel_locks s.quota_ledger r v.quota,
  )
]

forget-IsWithinCapacity :
    (f : Faults) (id : ℕ) (s : Scheduler) → IsWithinCapacity s → IsWithinCapacity (forget f id s).0
unfolding forget
forget-IsWithinCapacity f id s v = elim (Option-cases (lookup id s.tasks)) [
  | inl e ↦ rw e v
  | inr (task, e) ↦ elim (Option-cases task.reservation) [
    | inl empty ↦ rw e (ground arith)
    | inr (r, held) ↦
        rw e (ground (arith, cancel-IsWithinLimit f.cancel_locks s.quota_ledger r v.quota))
  ]
]

cancel-IsWithinCapacity :
    (f : Faults) (now id : ℕ) (s : Scheduler)
    → IsWithinCapacity s
    → IsWithinCapacity (cancel_task f now id s).0
unfolding cancel_task
cancel-IsWithinCapacity f now id s v = elim (Option-cases (lookup id s.tasks)) [
  | inl e ↦ rw e v
  | inr (task, e) ↦ rw e (
      ground (
        arith,
        cancel_queued_task-IsWithinCapacity f id task s v,
        finish-IsWithinCapacity now id cancelled s v,
      ))
]

cancel_queued-IsWithinCapacity :
    (f : Faults) (id : ℕ) (s : Scheduler)
    → IsWithinCapacity s
    → IsWithinCapacity (cancel_queued f id s).0
unfolding cancel_queued
cancel_queued-IsWithinCapacity f id s v = elim (Option-cases (lookup id s.tasks)) [
  | inl e ↦ rw e v
  | inr (task, e) ↦ rw e (ground (arith, cancel_queued_task-IsWithinCapacity f id task s v))
]

-- Let the running tasks and the reserved slots be within the capacity, which is at least 1, and
-- the ledger within its limit. Every call, successful or not and whatever throws, keeps all of
-- this.
pub step-IsWithinCapacity :
    (f : Faults) (now : ℕ) (c : Call) (s : Scheduler)
    → IsWithinCapacity s
    → IsWithinCapacity (step f now c s)
unfolding step
step-IsWithinCapacity f now (submits spec) s v = submit-IsWithinCapacity f now spec s v
step-IsWithinCapacity f now dispatches_next s v = dispatch_next-IsWithinCapacity f now s v
step-IsWithinCapacity f now (dispatches id) s v = dispatch_task-IsWithinCapacity f now id s v
step-IsWithinCapacity f now (suspends id) s v = suspend-IsWithinCapacity f now id s v
step-IsWithinCapacity f now (completes id) s v =
    unfold complete in finish-IsWithinCapacity now id completed s v
step-IsWithinCapacity f now (fails id) s v =
    unfold fail in finish-IsWithinCapacity now id failed s v
step-IsWithinCapacity f now (cancels id) s v = cancel-IsWithinCapacity f now id s v
step-IsWithinCapacity f now (cancels_queued id) s v = cancel_queued-IsWithinCapacity f id s v
step-IsWithinCapacity f now (forgets id) s v = forget-IsWithinCapacity f id s v
step-IsWithinCapacity f now (reserves_slots slots) s v =
    unfold set_priority_reserved_slots in ground arith

run-IsWithinCapacity :
    (es : List Event) (s : Scheduler) → IsWithinCapacity s → IsWithinCapacity (run es s)
unfolding run
run-IsWithinCapacity [] s v = v
run-IsWithinCapacity (e ∷ es) s v =
    run-IsWithinCapacity es (step e.faults e.now e.call s)
      (step-IsWithinCapacity e.faults e.now e.call s v)

-- Let the memory limit be a 64-bit word. From a new scheduler under any options, after any
-- sequence of calls with any faults, the running tasks are at most the capacity, which is at least
-- 1, the reserved slots are at most the capacity, and the reserved and allocated bytes are
-- together at most the limit.
pub run-new-IsWithinCapacity :
    (limit : ℕ) (o : SchedulerOptions) (es : List Event)
    → limit ≤ u64_max
    → IsWithinCapacity (run es (new_scheduler limit o))
run-new-IsWithinCapacity limit o es h =
    run-IsWithinCapacity es (new_scheduler limit o) (unfold new_scheduler in ground arith)
