-- ===== src/Scheduler/Examples.antt =====
-- The theorems on src/core/scheduler.cc at concrete schedulers.
mod Calls
use glimmer.Prelude.{
  ◌⊎◌, ℕ, ◌+◌, ◌≤◌, ◌<◌, ◌≡◌, refl, true, false, some, none, List, [], ◌∷◌, length, arith, lookup,
  assign, nat_eq,
}
use glimmer.Quota.{commit, try_reserve}
use glimmer.Scheduler.{
  TaskSpec, TaskState, queued, running, TaskRecord, TaskSnapshot, TenantQueue, Scheduler,
  SchedulerOptions, Faults, SchedulingPolicy, weighted_round_robin, fifo, priority,
  remove_task_from_tenant_queue, new_scheduler, SubmitStatus, accepted, internal_error,
  quota_exceeded,
}
use glimmer.Scheduler.Policy.{parse_scheduling_policy, scheduling_policy_name, parse-eq-name}
use glimmer.Scheduler.Queues.{
  queued_task, peek_fifo_task, peek_priority_task, peek_next_task, peek_weighted_round_robin_task,
}
use glimmer.Scheduler.Select.{
  select_next_task, select_priority_task, select_weighted_round_robin_task,
}
use glimmer.Scheduler.Submit.{submit}
use glimmer.Scheduler.Dispatch.{
  dispatch_next, low_running, priority_reservation_blocks_low_dispatch, dispatch_selected_task,
  dispatch_reserved, commit_dispatch, start_running,
}
use glimmer.Scheduler.Run.{submits, dispatches_next, suspends, cancels, step, Event, run}
use glimmer.Scheduler.Capacity.{IsWithinCapacity}
use glimmer.Scheduler.Capacity.Steps.{step-IsWithinCapacity, run-new-IsWithinCapacity}
use glimmer.Scheduler.Order.{IsWaiting, all_ids}
use glimmer.Scheduler.Order.Retreat.{retreat_has_reason, retreat_is_requested}
use glimmer.Scheduler.Query.{retreat_requested}
use glimmer.Scheduler.Order.Fifo.{peek_fifo_oldest}
use glimmer.Scheduler.Order.Best.{Precedes, peek_priority_best}
use glimmer.Scheduler.Order.Weighted.{select_weighted_round_robin-peek}
use glimmer.Scheduler.Lifecycle.{Moves}
use glimmer.Scheduler.Lifecycle.Steps.{step_moves}
use glimmer.Scheduler.Lifecycle.Started.{HasStarted, dispatch_next_starts}
use glimmer.Scheduler.Lifecycle.Peeked.{dispatch_next_takes_peeked, low_dispatch_leaves_slots}
use glimmer.Scheduler.Lifecycle.Entered.{IsEntered}
use glimmer.Scheduler.Lifecycle.Submitted.{is_refused, submit_enters, submit_rejects}

abbrev pub calm : Faults
calm = record {
  reserve_throws = false;
  tenant_throws = false;
  task_throws = false;
  snapshot_throws = false;
  running_throws = false;
  commit_throws = false;
  suspend_throws = false;
  cancel_locks = true;
}

abbrev pub options : SchedulerOptions
options = record {
  max_running_tasks = 2;
  max_queued_tasks = 4;
  priority_reserved_slots = 1;
  priority_reservation_threshold = 5;
  scheduling_policy = priority;
}

abbrev pub request : ℕ → TaskSpec
request bytes = record {
  tenant_id = "a";
  memory_bytes = bytes;
  weight = 1;
  work_units = 2;
  priority = 3;
}

abbrev pub waiting_task : TaskRecord
waiting_task = record {
  spec = request 40;
  state = queued;
  reservation = some (record { has_state = true; memory_bytes = 40 });
  queued_at = 10;
  running_at = 0;
  dispatch_sequence = 0;
}

abbrev pub waiting : SchedulingPolicy → Scheduler
waiting policy = record {
  quota_ledger = record { limit_bytes = 100; reserved_bytes = 40; allocated_bytes = 0 };
  next_task_id = 2;
  next_dispatch_sequence = 1;
  tasks = (1, waiting_task) ∷ [];
  tenant_queues = ("a", record { weight = 1; task_ids = 1 ∷ []; deficit = 0 }) ∷ [];
  tenant_order = "a" ∷ [];
  tenant_cursor = 0;
  tenant_budget = 0;
  scheduling_policy = policy;
  max_running_tasks = 2;
  max_queued_tasks = 4;
  priority_reserved_slots = 1;
  priority_reservation_threshold = 5;
  running_task_ids = [];
  queued_task_count = 1;
  total_queue_wait_microseconds = 0;
  max_queue_wait_microseconds = 0;
  total_service_time_microseconds = 0;
  max_service_time_microseconds = 0;
}

abbrev pub started : TaskSnapshot
started = record {
  task_id = 1;
  tenant_id = "a";
  memory_bytes = 40;
  weight = 1;
  work_units = 2;
  priority = 3;
  state = running;
  dispatch_sequence = 1;
}

pub waiting-IsWithinCapacity : IsWithinCapacity (waiting priority)
waiting-IsWithinCapacity = ground arith

abbrev pub history : List Event
history =
    record { faults = calm; now = 10; call = submits (request 40) }
    ∷ record { faults = calm; now = 30; call = dispatches_next }
    ∷ record { faults = calm; now = 45; call = suspends 1 }
    ∷ record { faults = calm; now = 50; call = cancels 1 }
    ∷ []

run-new-IsWithinCapacity_example : IsWithinCapacity (run history (new_scheduler 100 options))
run-new-IsWithinCapacity_example = run-new-IsWithinCapacity 100 options history (omega arith)

abbrev pub started_task : TaskRecord
started_task = record waiting_task {
  state = running;
  reservation = some (record { has_state = false; memory_bytes = 0 });
  running_at = 30;
  dispatch_sequence = 1;
}

step_moves_example : Moves queued running
unfolding step dispatch_next priority_reservation_blocks_low_dispatch select_next_task
    select_priority_task peek_priority_task lookup dispatch_selected_task
    remove_task_from_tenant_queue dispatch_reserved commit_dispatch commit start_running assign
step_moves_example =
    step_moves calm 30 dispatches_next (waiting priority) 1 waiting_task started_task refl refl

peek_fifo_oldest_example :
    ((id : ℕ) × (task : TaskRecord) × (peek_fifo_task (waiting fifo) ≡ some id)
      × IsWaiting (waiting fifo) id task
      × ((j : ℕ) (t : TaskRecord) → IsWaiting (waiting fifo) j t → id ≤ j))
    ⊎ ((peek_fifo_task (waiting fifo) ≡ none)
        × ((j : ℕ) (t : TaskRecord) → IsWaiting (waiting fifo) j t → ⊥))
peek_fifo_oldest_example = peek_fifo_oldest (waiting fifo)

peek_priority_best_example :
    ((id : ℕ) × (task : TaskRecord) × (peek_priority_task (waiting priority) ≡ some id)
      × IsWaiting (waiting priority) id task
      × ((j : ℕ) (t : TaskRecord)
          → IsWaiting (waiting priority) j t
          → Precedes task.spec.priority id t.spec.priority j))
    ⊎ ((peek_priority_task (waiting priority) ≡ none)
        × ((j : ℕ) (t : TaskRecord) → IsWaiting (waiting priority) j t → ⊥))
peek_priority_best_example = peek_priority_best (waiting priority)

select_weighted_round_robin-peek_example :
    (select_weighted_round_robin_task (waiting weighted_round_robin)).1
    ≡ peek_weighted_round_robin_task (waiting weighted_round_robin)
select_weighted_round_robin-peek_example =
    select_weighted_round_robin-peek (waiting weighted_round_robin)
