-- ===== src/Scheduler/Examples/Calls.antt =====
-- The theorems on the retreat request, a dispatch and a submission of src/core/scheduler.cc at
-- concrete schedulers.
use glimmer.Prelude.{
  ℕ, ◌+◌, ◌<◌, ◌≡◌, refl, true, false, some, [], ◌∷◌, length, arith, lookup, nat_eq,
}
use glimmer.Quota.{commit, try_reserve}
use glimmer.Scheduler.{
  running, TaskRecord, Scheduler, fifo, priority, remove_task_from_tenant_queue, quota_exceeded,
}
use glimmer.Scheduler.Queues.{queued_task, peek_priority_task, peek_next_task}
use glimmer.Scheduler.Select.{select_next_task, select_priority_task}
use glimmer.Scheduler.Submit.{submit}
use glimmer.Scheduler.Dispatch.{
  dispatch_next, low_running, priority_reservation_blocks_low_dispatch, dispatch_selected_task,
  dispatch_reserved, commit_dispatch, start_running,
}
use glimmer.Scheduler.Order.{IsWaiting, all_ids}
use glimmer.Scheduler.Order.Retreat.{retreat_has_reason, retreat_is_requested}
use glimmer.Scheduler.Query.{retreat_requested}
use glimmer.Scheduler.Lifecycle.Started.{HasStarted, dispatch_next_starts}
use glimmer.Scheduler.Lifecycle.Peeked.{dispatch_next_takes_peeked, low_dispatch_leaves_slots}
use glimmer.Scheduler.Lifecycle.Entered.{IsEntered}
use glimmer.Scheduler.Lifecycle.Submitted.{is_refused, submit_enters, submit_rejects}
use glimmer.Scheduler.Examples.{
  calm, request, waiting_task, waiting, started, started_task, waiting-IsWithinCapacity,
}

-- A scheduler in which task 3 runs while the better task 4 waits.
abbrev contended : Scheduler
contended = record (waiting priority) {
  tasks =
      (3, started_task)
      ∷ (4, record waiting_task { spec = record (request 40) { priority = 9 } })
      ∷ [];
  tenant_queues = ("a", record { weight = 1; task_ids = 4 ∷ []; deficit = 0 }) ∷ [];
  running_task_ids = 3 ∷ [];
}

asked : retreat_requested 3 contended ≡ true
unfolding retreat_requested peek_priority_task lookup
asked = refl

retreat_has_reason_example :
    (priority ≡ priority)
    × (running ≡ running)
    × ((next : ℕ) × (better : TaskRecord) × IsWaiting contended next better
        × (3 < better.spec.priority))
unfolding lookup
retreat_has_reason_example = retreat_has_reason contended 3 started_task refl asked

retreat_is_requested_example : retreat_requested 3 contended ≡ true
unfolding lookup queued_task all_ids
retreat_is_requested_example =
    retreat_is_requested contended 3 started_task 4
      (record waiting_task { spec = record (request 40) { priority = 9 } }) refl refl refl
      (omega arith) (record { place = 0; here = refl; there = refl }) (omega arith)

dispatched : (dispatch_next calm 30 (waiting priority)).1 ≡ some started
unfolding dispatch_next priority_reservation_blocks_low_dispatch select_next_task
    select_priority_task peek_priority_task lookup dispatch_selected_task
    remove_task_from_tenant_queue dispatch_reserved commit_dispatch commit start_running
dispatched = refl

dispatch_next_starts_example :
    (length {A = ℕ} [] < 2)
    × HasStarted (waiting priority) (dispatch_next calm 30 (waiting priority)).0 1 started
dispatch_next_starts_example = dispatch_next_starts calm 30 (waiting priority) started dispatched

dispatch_next_takes_peeked_example : peek_next_task (waiting priority) ≡ some 1
dispatch_next_takes_peeked_example =
    dispatch_next_takes_peeked calm 30 (waiting priority) started refl dispatched

low_dispatch_leaves_slots_example : low_running 5 (waiting priority).tasks [] + 1 < 2
low_dispatch_leaves_slots_example =
    low_dispatch_leaves_slots calm 30 (waiting priority) started waiting-IsWithinCapacity
      (omega arith) refl (omega arith) dispatched (omega arith)

submit_enters_example :
    (is_refused calm (request 50) (waiting fifo) ≡ false)
    × IsEntered 20
        (request 50)
        (waiting fifo)
        (submit calm 20 (request 50) (waiting fifo)).0
        (submit calm 20 (request 50) (waiting fifo)).1.task_id
unfolding submit lookup try_reserve
submit_enters_example = submit_enters calm 20 (request 50) (waiting fifo) refl

turned_down : (submit calm 20 (request 70) (waiting fifo)).1.status ≡ quota_exceeded
unfolding submit lookup try_reserve
turned_down = refl

submit_rejects_example : (submit calm 20 (request 70) (waiting fifo)).0 ≡ waiting fifo
submit_rejects_example =
    submit_rejects calm 20 (request 70) (waiting fifo) (rw turned_down (λ e. cc))
      (rw turned_down (λ e. cc))
