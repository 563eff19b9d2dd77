-- ===== src/Scheduler/Submit.antt =====
-- `Scheduler::submit` (src/core/scheduler.cc). A reservation that goes out of scope is cancelled by
-- its destructor, so every path that gives up a reservation cancels it.
use text.Mathlib.Text.{◌==◌ as str_eq}
use glimmer.Prelude.{
  ℕ, Bool, true, false, not, ◌&&◌, ◌||◌, Option, none, some, List, [], ◌∷◌, ◌++◌, String, leb, ◌==◌,
  if◌then◌else◌, is_some, u64_max, add64, lookup, emplace, remove, nat_eq, string_eq,
}
use glimmer.Quota.{QuotaLedgerState, QuotaReservation, try_reserve, cancel}
use glimmer.Scheduler.{
  TaskSpec, queued, TaskRecord, TenantQueue, Scheduler, Faults, SubmitStatus, accepted,
  invalid_task, quota_exceeded, queue_full, tenant_weight_mismatch, internal_error, SubmitResult,
  put_queue,
}

abbrev pub rejected : SubmitStatus → SubmitResult
rejected status = record { status = status; task_id = 0 }

abbrev pub is_invalid : TaskSpec → Bool
is_invalid spec =
    str_eq spec.tenant_id "" || spec.memory_bytes == 0 || spec.weight == 0 || spec.work_units == 0

abbrev pub has_other_weight : ℕ → Option TenantQueue → Bool
has_other_weight weight none = false
has_other_weight weight (some queue) = not (queue.weight == weight)

-- The destructor of a reservation.
abbrev pub drop_reservation : Faults → QuotaReservation → Scheduler → Scheduler
drop_reservation f r s = record s { quota_ledger = (cancel f.cancel_locks s.quota_ledger r).0 }

-- `tenant_order_.pop_back()`
abbrev pub pop_back : List String → List String
pop_back [] = []
pop_back (x ∷ []) = []
pop_back (x ∷ y ∷ xs) = x ∷ pop_back (y ∷ xs)

-- A new tenant's entry, behind the others.
abbrev pub add_tenant : TaskSpec → Scheduler → Scheduler
add_tenant spec s = record s {
  tenant_queues =
      emplace spec.tenant_id (record { weight = spec.weight; task_ids = []; deficit = 0 })
        s.tenant_queues;
  tenant_order = s.tenant_order ++ spec.tenant_id ∷ [];
}

-- `if (inserted_tenant) …`
abbrev pub undo_tenant : Bool → TaskSpec → Scheduler → Scheduler
undo_tenant false spec s = s
undo_tenant true spec s = record s {
  tenant_queues = remove spec.tenant_id s.tenant_queues;
  tenant_order = pop_back s.tenant_order;
}

abbrev pub push_queued : String → ℕ → Option TenantQueue → Scheduler → Scheduler
push_queued tenant id none s = s
push_queued tenant id (some queue) s =
    put_queue tenant (record queue { task_ids = queue.task_ids ++ id ∷ [] }) s

-- The record of a task that has just been submitted.
abbrev pub new_task : ℕ → TaskSpec → QuotaReservation → TaskRecord
new_task now spec r = record {
  spec = spec;
  state = queued;
  reservation = some r;
  queued_at = now;
  running_at = 0;
  dispatch_sequence = 0;
}

-- The entry of the task, once its tenant is there.
unfoldable pub submit_task :
    Faults → ℕ → TaskSpec → QuotaReservation → Bool → Scheduler → Scheduler × SubmitResult
submit_task f now spec r inserted s =
    let id = s.next_task_id in
    let entered =
      push_queued spec.tenant_id id (lookup spec.tenant_id s.tenant_queues)
        (record s { tasks = emplace id (new_task now spec r) s.tasks }) in
    if f.task_throws
    then (
      drop_reservation f r (undo_tenant inserted spec (record s { tasks = remove id s.tasks })),
      rejected internal_error,
    )
    else if is_some (lookup id s.tasks)
    then (drop_reservation f r (undo_tenant inserted spec s), rejected internal_error)
    else (
      record entered { next_task_id = add64 id 1; queued_task_count = add64 s.queued_task_count 1 },
      record { status = accepted; task_id = id },
    )

-- What follows a successful reservation.
unfoldable pub submit_reserved :
    Faults
    → ℕ
    → TaskSpec
    → QuotaReservation
    → Option TenantQueue
    → Scheduler
    → Scheduler × SubmitResult
unfolding submit_task
submit_reserved f now spec r (some queue) s = submit_task f now spec r false s
submit_reserved f now spec r none s =
    if f.tenant_throws
    then (
      drop_reservation f r (record s { tenant_queues = remove spec.tenant_id s.tenant_queues }),
      rejected internal_error,
    )
    else submit_task f now spec r true (add_tenant spec s)

unfoldable pub submit_quota :
    Faults
    → ℕ
    → TaskSpec
    → QuotaLedgerState × Option QuotaReservation
    → Scheduler
    → Scheduler × SubmitResult
unfolding submit_reserved
submit_quota f now spec (ledger, none) s = (s, rejected quota_exceeded)
submit_quota f now spec (ledger, some r) s =
    submit_reserved f now spec r (lookup spec.tenant_id s.tenant_queues)
      (record s { quota_ledger = ledger })

unfoldable pub submit : Faults → ℕ → TaskSpec → Scheduler → Scheduler × SubmitResult
unfolding submit_quota
submit f now spec s =
    if is_invalid spec
    then (s, rejected invalid_task)
    else if s.next_task_id == u64_max
    then (s, rejected internal_error)
    else if not (s.max_queued_tasks == 0) && leb s.max_queued_tasks s.queued_task_count
    then (s, rejected queue_full)
    else if has_other_weight spec.weight (lookup spec.tenant_id s.tenant_queues)
    then (s, rejected tenant_weight_mismatch)
    else if f.reserve_throws
    then (s, rejected internal_error)
    else submit_quota f now spec (try_reserve s.quota_ledger spec.memory_bytes) s
