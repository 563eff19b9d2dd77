-- ===== src/Scheduler/Capacity.antt =====
-- Capacity and quota of the scheduler of src/core/scheduler.cc.
pub mod Dispatching
pub mod Steps
use glimmer.Prelude.{
  ℕ, zero, suc, ◌+◌, ◌≤◌, ◌<◌, ◌≡◌, refl, ◌⊎◌, inl, inr, Bool, true, false, not, ◌||◌, Option, none,
  some, List, [], ◌∷◌, ◌++◌, arith, length, length-append, erase, Bool-cases, Option-cases, lookup,
  nat_eq, string_eq, u64_max, ltb, leb, ◌==◌, ap, is_some,
}
use glimmer.Quota.{
  QuotaLedgerState, QuotaReservation, new_ledger, try_reserve, release, commit, cancel,
}
use glimmer.Quota.Bounds.{
  IsWithinLimit, try_reserve-IsWithinLimit, release-IsWithinLimit, commit-IsWithinLimit,
  cancel-IsWithinLimit,
}
use glimmer.Scheduler.{
  TaskSpec, TaskRecord, TenantQueue, TaskState, TaskSnapshot, Scheduler, SchedulerOptions, Faults,
  new_scheduler, remove_task_from_tenant_queue, completed, failed, cancelled,
}
use glimmer.Scheduler.Queues.{queued_task, peek_next_task}
use glimmer.Scheduler.Select.{select_next_task, select_deficit_round_robin_task}
use glimmer.Scheduler.Select.Frame.{SameRest, select-SameRest, select_deficit_round_robin-SameRest}
use glimmer.Scheduler.Submit.{submit, submit_quota, submit_reserved, submit_task}
use glimmer.Scheduler.Dispatch.{
  start_running, fail_dispatch, commit_dispatch, dispatch_reserved, dispatch_selected_task,
  dispatch_next, dispatch_task, dispatch_found, dispatch_taken, dispatch_peeked, dispatch_claimed,
  is_full, priority_reservation_blocks_low_dispatch,
}
use glimmer.Scheduler.Finish.{
  stop_running, suspend, finish_running_task, complete, fail, cancel_task, cancel_queued_task,
  cancel_queued, forget,
}
use glimmer.Scheduler.Query.{set_priority_reserved_slots}
use glimmer.Scheduler.Run.{
  Call, submits, dispatches_next, dispatches, suspends, completes, fails, cancels, cancels_queued,
  forgets, reserves_slots, step, Event, run,
}

pub record IsWithinCapacity (s : Scheduler) : Type 0 where
  pub running : length s.running_task_ids ≤ s.max_running_tasks
  pub positive : 1 ≤ s.max_running_tasks
  pub slots : s.priority_reserved_slots ≤ s.max_running_tasks
  pub quota : IsWithinLimit s.quota_ledger

pub length-erase-le : (id : ℕ) (ids : List ℕ) → length (erase id ids) ≤ length ids
length-erase-le id [] = omega arith
length-erase-le id (x ∷ ids) = ground (arith, length-erase-le id ids)

pub SameRest-IsWithinCapacity :
    {s t : Scheduler} → SameRest s t → IsWithinCapacity s → IsWithinCapacity t
SameRest-IsWithinCapacity {s} {t} a v = record {
  running = ground (arith, v.running, ap length a.running_task_ids);
  positive = ground (arith, v.positive);
  slots = ground (arith, v.slots);
  quota = rw a.quota_ledger v.quota;
}

submit_reserved-IsWithinLimit :
    (f : Faults) (now : ℕ) (spec : TaskSpec) (r : QuotaReservation) (o : Option TenantQueue)
    (s : Scheduler)
    → IsWithinLimit s.quota_ledger
    → IsWithinLimit (submit_reserved f now spec r o s).0.quota_ledger
unfolding submit_reserved
submit_reserved-IsWithinLimit f now spec r none s v =
    ground (arith, cancel-IsWithinLimit f.cancel_locks s.quota_ledger r)
submit_reserved-IsWithinLimit f now spec r (some queue) s v =
    ground (arith, cancel-IsWithinLimit f.cancel_locks s.quota_ledger r)

submit_quota-IsWithinLimit :
    (f : Faults) (now : ℕ) (spec : TaskSpec) (q : QuotaLedgerState × Option QuotaReservation)
    (s : Scheduler)
    → IsWithinLimit s.quota_ledger
    → IsWithinLimit q.0
    → IsWithinLimit (submit_quota f now spec q s).0.quota_ledger
submit_quota-IsWithinLimit f now spec (ledger, none) s v w = unfold submit_quota in v
submit_quota-IsWithinLimit f now spec (ledger, some r) s v w =
    unfold submit_quota in
    submit_reserved-IsWithinLimit f now spec r (lookup spec.tenant_id s.tenant_queues)
      (record s { quota_ledger = ledger }) w

submit-IsWithinLimit :
    (f : Faults) (now : ℕ) (spec : TaskSpec) (s : Scheduler)
    → IsWithinLimit s.quota_ledger
    → IsWithinLimit (submit f now spec s).0.quota_ledger
unfolding submit
submit-IsWithinLimit f now spec s v =
    let reserved = try_reserve-IsWithinLimit s.quota_ledger spec.memory_bytes v in
    let asked =
      submit_quota-IsWithinLimit f now spec (try_reserve s.quota_ledger spec.memory_bytes) s v
        reserved in
    ground (arith, asked)

pub submit-IsWithinCapacity :
    (f : Faults) (now : ℕ) (spec : TaskSpec) (s : Scheduler)
    → IsWithinCapacity s
    → IsWithinCapacity (submit f now spec s).0
submit-IsWithinCapacity f now spec s v = record {
  running = unfold submit in ground (arith, v.running);
  positive = unfold submit in ground (arith, v.positive);
  slots = unfold submit in ground (arith, v.slots);
  quota = submit-IsWithinLimit f now spec s v.quota;
}
