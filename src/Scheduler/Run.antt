-- ===== src/Scheduler/Run.antt =====
-- A scheduler under any sequence of calls of its methods (src/core/scheduler.cc).
use glimmer.Prelude.{ℕ, List, [], ◌∷◌}
use glimmer.Scheduler.{TaskSpec, Scheduler, Faults}
use glimmer.Scheduler.Submit.{submit}
use glimmer.Scheduler.Dispatch.{dispatch_next, dispatch_task}
use glimmer.Scheduler.Finish.{suspend, complete, fail, cancel_task, cancel_queued, forget}
use glimmer.Scheduler.Query.{set_priority_reserved_slots}

pub data Call : Type 0 where
  submits : TaskSpec → Call
  dispatches_next : Call
  dispatches suspends completes fails cancels cancels_queued forgets : ℕ → Call
  reserves_slots : ℕ → Call

-- One call, at a time, with its faults.
unfoldable pub step : Faults → ℕ → Call → Scheduler → Scheduler
step f now (submits spec) s = (submit f now spec s).0
step f now dispatches_next s = (dispatch_next f now s).0
step f now (dispatches id) s = (dispatch_task f now id s).0
step f now (suspends id) s = (suspend f now id s).0
step f now (completes id) s = (complete now id s).0
step f now (fails id) s = (fail now id s).0
step f now (cancels id) s = (cancel_task f now id s).0
step f now (cancels_queued id) s = (cancel_queued f id s).0
step f now (forgets id) s = (forget f id s).0
step f now (reserves_slots slots) s = (set_priority_reserved_slots slots s).0

pub record Event : Type 0 where
  pub faults : Faults
  pub now : ℕ
  pub call : Call

unfoldable pub run : List Event → Scheduler → Scheduler
unfolding step
run [] s = s
run (e ∷ es) s = run es (step e.faults e.now e.call s)
