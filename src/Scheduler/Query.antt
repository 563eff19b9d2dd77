-- ===== src/Scheduler/Query.antt =====
-- The methods of src/core/scheduler.cc that report, and the one setting that can change.
use glimmer.Prelude.{
  ℕ, suc, Bool, true, false, not, ◌&&◌, ◌||◌, Option, none, some, [], ◌∷◌, ltb, ◌==◌, if◌then◌else◌,
  min, u64_max, length, lookup, nat_eq,
}
use glimmer.Quota.{QuotaUsage, usage}
use glimmer.Scheduler.{
  TaskState, completed, cancelled, failed, TaskRecord, TaskSnapshot, Scheduler, SchedulingPolicy,
  is_running, snapshot,
}
use glimmer.Scheduler.Queues.{Tasks, peek_priority_task}
use glimmer.Scheduler.Dispatch.{is_priority_policy}

pub record SchedulerStats : Type 0 where
  pub quota : QuotaUsage
  pub total_task_count : ℕ
  pub queued_task_count : ℕ
  pub running_task_count : ℕ
  pub completed_task_count : ℕ
  pub cancelled_task_count : ℕ
  pub failed_task_count : ℕ
  pub max_running_tasks : ℕ
  pub max_queued_tasks : ℕ
  pub priority_reserved_slots : ℕ
  pub priority_reservation_threshold : ℕ
  pub priority_reservation_active : Bool
  pub scheduling_policy : SchedulingPolicy
  pub total_queue_wait_microseconds : ℕ
  pub max_queue_wait_microseconds : ℕ
  pub total_service_time_microseconds : ℕ
  pub max_service_time_microseconds : ℕ

-- `tasks_.at(*next)` throws where the task is not there; the peeked task always is.
abbrev pub outranks : Option TaskRecord → TaskRecord → Bool
outranks none task = false
outranks (some next) task = ltb task.spec.priority next.spec.priority

abbrev pub peeked_outranks : Tasks → Option ℕ → TaskRecord → Bool
peeked_outranks tasks none task = false
peeked_outranks tasks (some next) task = outranks (lookup next tasks) task

abbrev pub retreat_found : Scheduler → Option TaskRecord → Bool
retreat_found s none = false
retreat_found s (some task) =
    if not (is_priority_policy s.scheduling_policy)
      || task.dispatch_sequence == u64_max
      || not (is_running task.state)
    then false
    else peeked_outranks s.tasks (peek_priority_task s) task

unfoldable pub retreat_requested : ℕ → Scheduler → Bool
retreat_requested id s = retreat_found s (lookup id s.tasks)

unfoldable pub find : ℕ → Scheduler → Option TaskSnapshot
unfolding snapshot
find id s = elim (lookup id s.tasks) [ none ↦ none | some task ↦ some (snapshot id task) ]

unfoldable pub task_state : ℕ → Scheduler → Option TaskState
task_state id s = elim (lookup id s.tasks) [ none ↦ none | some task ↦ some task.state ]

unfoldable pub set_priority_reserved_slots : ℕ → Scheduler → Scheduler × Bool
set_priority_reserved_slots slots s =
    if is_priority_policy s.scheduling_policy
    then (record s { priority_reserved_slots = min slots s.max_running_tasks }, true)
    else (s, false)

-- `Scheduler::usage`
unfoldable pub scheduler_usage : Scheduler → QuotaUsage
unfolding usage
scheduler_usage s = usage s.quota_ledger

abbrev pub running_task_count : Scheduler → ℕ
running_task_count s = length s.running_task_ids

-- The loop over the tasks that counts the terminal states.
unfoldable pub count_state : SchedulerStats → TaskState → SchedulerStats
count_state r completed = record r { completed_task_count = suc r.completed_task_count }
count_state r cancelled = record r { cancelled_task_count = suc r.cancelled_task_count }
count_state r failed = record r { failed_task_count = suc r.failed_task_count }
count_state r _ = r

unfoldable pub count_states : SchedulerStats → Tasks → SchedulerStats
unfolding count_state
count_states r [] = r
count_states r ((id, task) ∷ tasks) = count_states (count_state r task.state) tasks

unfoldable pub stats : Scheduler → SchedulerStats
unfolding count_states usage
stats s =
    count_states
      (record {
        quota = usage s.quota_ledger;
        total_task_count = length s.tasks;
        queued_task_count = s.queued_task_count;
        running_task_count = length s.running_task_ids;
        completed_task_count = 0;
        cancelled_task_count = 0;
        failed_task_count = 0;
        max_running_tasks = s.max_running_tasks;
        max_queued_tasks = s.max_queued_tasks;
        priority_reserved_slots = s.priority_reserved_slots;
        priority_reservation_threshold = s.priority_reservation_threshold;
        priority_reservation_active =
            not (s.priority_reserved_slots == 0) && is_priority_policy s.scheduling_policy;
        scheduling_policy = s.scheduling_policy;
        total_queue_wait_microseconds = s.total_queue_wait_microseconds;
        max_queue_wait_microseconds = s.max_queue_wait_microseconds;
        total_service_time_microseconds = s.total_service_time_microseconds;
        max_service_time_microseconds = s.max_service_time_microseconds;
      })
      s.tasks
