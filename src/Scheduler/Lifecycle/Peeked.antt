-- ===== src/Scheduler/Lifecycle/Peeked.antt =====
-- `dispatch_next` of src/core/scheduler.cc takes the task that a peek reports.
use glimmer.Prelude.{
  u64_max, ◌≤◌, ◌+◌, ◌<◌, ◌∙◌, ℕ, ◌≡◌, refl, sym, ap, true, false, Option, none, some, arith,
  nat_eq, string_eq,
}
use glimmer.Scheduler.{
  TaskSnapshot, deficit_round_robin, weighted_round_robin, fifo, priority, SchedulingPolicy,
  TaskRecord, Scheduler, Faults,
}
use glimmer.Scheduler.Queues.{queued_task, peek_next_task}
use glimmer.Scheduler.Select.{select_next_task}
use glimmer.Scheduler.Dispatch.{
  dispatch_next, is_deficit_policy, priority_reservation_blocks_low_dispatch,
}
use glimmer.Scheduler.Queues.{peek_fifo_task, peek_priority_task}
use glimmer.Scheduler.Select.{
  select_peeked, select_found, select_by, select_fifo_task, select_priority_task,
}
use glimmer.Scheduler.Order.Weighted.{select_weighted_round_robin-peek}
use glimmer.Scheduler.Queues.{peek_by}
use glimmer.Scheduler.Dispatch.{low_running, is_low}
use glimmer.Scheduler.Capacity.{IsWithinCapacity}
use glimmer.Scheduler.Lifecycle.Started.{dispatch_next_taken}

select_found-peek :
    (s : Scheduler) (id k : ℕ) (o : Option TaskRecord) → (select_found s id o).1 ≡ some k → id ≡ k
select_found-peek s id k none h = cc
select_found-peek s id k (some task) h = cc

select_peeked-peek :
    (s : Scheduler) (o : Option ℕ) (k : ℕ) → (select_peeked s o).1 ≡ some k → o ≡ some k
select_peeked-peek s none k h = cc
select_peeked-peek s (some id) k h = ap some (select_found-peek s id k (queued_task s.tasks id) h)

select_by-peek :
    (policy : SchedulingPolicy) (s : Scheduler) (k : ℕ)
    → is_deficit_policy policy ≡ false
    → (select_by policy s).1 ≡ some k
    → peek_by policy s ≡ some k
unfolding select_fifo_task select_priority_task
select_by-peek fifo s k p h = select_peeked-peek s (peek_fifo_task s) k h
select_by-peek priority s k p h = select_peeked-peek s (peek_priority_task s) k h
select_by-peek weighted_round_robin s k p h = sym (select_weighted_round_robin-peek s) ∙ h
select_by-peek deficit_round_robin s k p h = cc

-- Under every policy but the deficit one, a dispatch that answers with a snapshot started the task
-- that a peek reported.
pub dispatch_next_takes_peeked :
    (f : Faults) (now : ℕ) (s : Scheduler) (snap : TaskSnapshot)
    → is_deficit_policy s.scheduling_policy ≡ false
    → (dispatch_next f now s).1 ≡ some snap
    → peek_next_task s ≡ some snap.task_id
unfolding peek_next_task select_next_task
dispatch_next_takes_peeked f now s snap p h =
    select_by-peek s.scheduling_policy s snap.task_id p (dispatch_next_taken f now s snap h).2

-- In a scheduler within its capacity, which is a 64-bit word, under the priority policy with slots
-- reserved, a dispatch starts a task below the threshold only while the running tasks below it and
-- the reserved slots are together fewer than the capacity.
pub low_dispatch_leaves_slots :
    (f : Faults) (now : ℕ) (s : Scheduler) (snap : TaskSnapshot)
    → IsWithinCapacity s
    → s.max_running_tasks ≤ u64_max
    → s.scheduling_policy ≡ priority
    → 1 ≤ s.priority_reserved_slots
    → (dispatch_next f now s).1 ≡ some snap
    → snap.priority < s.priority_reservation_threshold
    → low_running s.priority_reservation_threshold s.tasks s.running_task_ids
        + s.priority_reserved_slots
      < s.max_running_tasks
low_dispatch_leaves_slots f now s snap v word policy reserved h low =
    let (free, allowed, taken, begun) = dispatch_next_taken f now s snap h in
    let peeked : peek_next_task s ≡ some snap.task_id =
      dispatch_next_takes_peeked f now s snap (rw policy refl) h in
    let is_low_task : is_low s.priority_reservation_threshold (queued_task s.tasks snap.task_id)
        ≡ true =
      rw begun.was_queued (ground (arith, begun.rank)) in
    unfold priority_reservation_blocks_low_dispatch in
    ground (arith, policy, peeked, is_low_task, allowed, v.slots, v.positive)
