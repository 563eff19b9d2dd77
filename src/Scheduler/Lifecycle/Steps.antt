-- ===== src/Scheduler/Lifecycle/Steps.antt =====
-- Every call of a method of src/core/scheduler.cc moves every task along the diagram.
use glimmer.Prelude.{ℕ, ◌≡◌, some, arith, lookup, nat_eq, string_eq}
use glimmer.Scheduler.{completed, failed, TaskRecord, Scheduler, Faults}
use glimmer.Scheduler.Finish.{complete, fail}
use glimmer.Scheduler.Query.{set_priority_reserved_slots}
use glimmer.Scheduler.Run.{
  Call, submits, dispatches_next, dispatches, suspends, completes, fails, cancels, cancels_queued,
  forgets, reserves_slots, step,
}
use glimmer.Scheduler.Lifecycle.Dispatching.{dispatch_next-Follows, dispatch_task-Follows}
use glimmer.Scheduler.Lifecycle.{Moves, Follows-refl}
use glimmer.Scheduler.Lifecycle.Submitting.{submit-Follows}
use glimmer.Scheduler.Lifecycle.Ending.{
  suspend-Follows, finish-Follows, cancel-Follows, cancel_queued-Follows, forget-Follows,
}

-- Whatever call is made and whatever throws, a task that is known before and after it has kept its
-- state or has made one move of the diagram: a queued task starts, is cancelled or fails; a running
-- one is queued again, completes, fails or is cancelled; a task that has ended moves no more.
pub step_moves :
    (f : Faults) (now : ℕ) (c : Call) (s : Scheduler) (id : ℕ) (t u : TaskRecord)
    → lookup id s.tasks ≡ some t
    → lookup id (step f now c s).tasks ≡ some u
    → Moves t.state u.state
unfolding step
step_moves f now (submits spec) s = submit-Follows f now spec s
step_moves f now dispatches_next s = dispatch_next-Follows f now s
step_moves f now (dispatches id) s = dispatch_task-Follows f now id s
step_moves f now (suspends id) s = suspend-Follows f now id s
step_moves f now (completes id) s =
    unfold complete in finish-Follows now id completed s Moves.completes
step_moves f now (fails id) s = unfold fail in finish-Follows now id failed s Moves.fails
step_moves f now (cancels id) s = cancel-Follows f now id s
step_moves f now (cancels_queued id) s = cancel_queued-Follows f id s
step_moves f now (forgets id) s = forget-Follows f id s
step_moves f now (reserves_slots slots) s =
    unfold set_priority_reserved_slots in ground (arith, Follows-refl s.tasks)
