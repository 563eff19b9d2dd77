-- ===== src/Scheduler.antt =====
-- The task scheduler: its data (include/glimmer/core/scheduler.h) and the helpers that all its
-- operations use (src/core/scheduler.cc). A method returns the new scheduler beside its result; the
-- mutex makes each call one step. A hash map is an association list, whose order stands for the
-- unspecified order of iteration. The clock is an argument, in microseconds. Which allocations
-- throw, and whether a reservation's mutex can be locked in `cancel`, is an argument too (`Faults`).
pub mod Policy
pub mod Queues
pub mod Select
pub mod Submit
pub mod Dispatch
pub mod Finish
pub mod Query
pub mod Run
pub mod Capacity
pub mod Order
pub mod Lifecycle
pub mod Examples
use glimmer.Prelude.{
  ℕ, zero, suc, ◌+◌, ◌-◌, ◌%◌, Bool, true, false, not, ◌&&◌, ◌||◌, Option, none, some, List, [],
  ◌∷◌, String, ltb, leb, ◌==◌, if◌then◌else◌, min, max, u64_max, add64, sub64, length, lookup,
  assign, erase, nat_eq, string_eq,
}
use glimmer.Quota.{QuotaLedgerState, QuotaReservation, new_ledger, cancel}

pub record TaskSpec : Type 0 where
  pub tenant_id : String
  pub memory_bytes : ℕ
  pub weight : ℕ
  pub work_units : ℕ
  pub priority : ℕ

pub data TaskState : Type 0 where
  queued running completed cancelled failed : TaskState

pub data SchedulingPolicy : Type 0 where
  weighted_round_robin deficit_round_robin fifo priority : SchedulingPolicy

pub data SubmitStatus : Type 0 where
  accepted invalid_task quota_exceeded queue_full tenant_weight_mismatch internal_error :
      SubmitStatus

pub record SubmitResult : Type 0 where
  pub status : SubmitStatus
  pub task_id : ℕ

pub record SchedulerOptions : Type 0 where
  pub max_running_tasks : ℕ
  pub max_queued_tasks : ℕ
  pub priority_reserved_slots : ℕ
  pub priority_reservation_threshold : ℕ
  pub scheduling_policy : SchedulingPolicy

pub record TaskSnapshot : Type 0 where
  pub task_id : ℕ
  pub tenant_id : String
  pub memory_bytes : ℕ
  pub weight : ℕ
  pub work_units : ℕ
  pub priority : ℕ
  pub state : TaskState
  pub dispatch_sequence : ℕ

pub record TaskRecord : Type 0 where
  pub spec : TaskSpec
  pub state : TaskState
  pub reservation : Option QuotaReservation
  pub queued_at : ℕ
  pub running_at : ℕ
  pub dispatch_sequence : ℕ

pub record TenantQueue : Type 0 where
  pub weight : ℕ
  pub task_ids : List ℕ
  pub deficit : ℕ

pub record Scheduler : Type 0 where
  pub quota_ledger : QuotaLedgerState
  pub next_task_id : ℕ
  pub next_dispatch_sequence : ℕ
  pub tasks : List (ℕ × TaskRecord)
  pub tenant_queues : List (String × TenantQueue)
  pub tenant_order : List String
  pub tenant_cursor : ℕ
  pub tenant_budget : ℕ
  pub scheduling_policy : SchedulingPolicy
  pub max_running_tasks : ℕ
  pub max_queued_tasks : ℕ
  pub priority_reserved_slots : ℕ
  pub priority_reservation_threshold : ℕ
  pub running_task_ids : List ℕ
  pub queued_task_count : ℕ
  pub total_queue_wait_microseconds : ℕ
  pub max_queue_wait_microseconds : ℕ
  pub total_service_time_microseconds : ℕ
  pub max_service_time_microseconds : ℕ

-- What fails outside the scheduler's control during one call: the statement that throws, and
-- whether the mutex of the ledger can be locked by `cancel`.
pub record Faults : Type 0 where
  pub reserve_throws : Bool
  pub tenant_throws : Bool
  pub task_throws : Bool
  pub snapshot_throws : Bool
  pub running_throws : Bool
  pub commit_throws : Bool
  pub suspend_throws : Bool
  pub cancel_locks : Bool

unfoldable pub new_scheduler : ℕ → SchedulerOptions → Scheduler
unfolding new_ledger
new_scheduler limit o = record {
  quota_ledger = new_ledger limit;
  next_task_id = 1;
  next_dispatch_sequence = 1;
  tasks = [];
  tenant_queues = [];
  tenant_order = [];
  tenant_cursor = 0;
  tenant_budget = 0;
  scheduling_policy = o.scheduling_policy;
  max_running_tasks = max o.max_running_tasks 1;
  max_queued_tasks = o.max_queued_tasks;
  priority_reserved_slots = min o.priority_reserved_slots (max o.max_running_tasks 1);
  priority_reservation_threshold = o.priority_reservation_threshold;
  running_task_ids = [];
  queued_task_count = 0;
  total_queue_wait_microseconds = 0;
  max_queue_wait_microseconds = 0;
  total_service_time_microseconds = 0;
  max_service_time_microseconds = 0;
}

unfoldable pub saturating_add : ℕ → ℕ → ℕ
saturating_add value accumulator =
    if ltb (sub64 u64_max value) accumulator then u64_max else add64 accumulator value

-- A duration between two readings of the clock; a negative one counts as 0.
abbrev pub elapsed : ℕ → ℕ → ℕ
elapsed now since = now - since

abbrev pub is_queued : TaskState → Bool
is_queued queued = true
is_queued _ = false

abbrev pub is_running : TaskState → Bool
is_running running = true
is_running _ = false

-- A write to the record of a task.
abbrev pub put_task : ℕ → TaskRecord → Scheduler → Scheduler
put_task id task s = record s { tasks = assign id task s.tasks }

abbrev pub put_queue : String → TenantQueue → Scheduler → Scheduler
put_queue tenant queue s = record s { tenant_queues = assign tenant queue s.tenant_queues }

unfoldable pub snapshot : ℕ → TaskRecord → TaskSnapshot
snapshot id task = record {
  task_id = id;
  tenant_id = task.spec.tenant_id;
  memory_bytes = task.spec.memory_bytes;
  weight = task.spec.weight;
  work_units = task.spec.work_units;
  priority = task.spec.priority;
  state = task.state;
  dispatch_sequence = task.dispatch_sequence;
}

unfoldable pub remove_task_from_tenant_queue : String → ℕ → Scheduler → Scheduler
remove_task_from_tenant_queue tenant id s = elim (lookup tenant s.tenant_queues) [
  | none ↦ s
  | some queue ↦ put_queue tenant (record queue { task_ids = erase id queue.task_ids }) s
]

unfoldable pub advance_tenant : Scheduler → Scheduler
advance_tenant s = record s {
  tenant_budget = 0;
  tenant_cursor =
      if length s.tenant_order == 0 then 0 else (s.tenant_cursor + 1) % length s.tenant_order;
}
