-- ===== src/Scheduler/Order.antt =====
-- Which waiting task the FIFO and priority policies of src/core/scheduler.cc select.
pub mod Fifo
pub mod Best
pub mod Weighted
pub mod Retreat
use glimmer.Prelude.{
  ℕ, ◌≡◌, refl, ◌∙◌, Bool, true, Option, none, some, List, [], ◌∷◌, ◌++◌, String, get_elem?,
  is_some, arith, ap,
}
use glimmer.Scheduler.{TaskRecord, TenantQueue, Scheduler}
use glimmer.Scheduler.Queues.{
  Tasks, TenantQueues, queued_task, scan_fifo, scan_fifo_queues, Selected, prefer, scan_priority,
  scan_priority_queues,
}

-- All ids in the tenants' queues.
unfoldable pub all_ids : TenantQueues → List ℕ
all_ids [] = []
all_ids ((tenant, queue) ∷ queues) = queue.task_ids ++ all_ids queues

-- A queued task in some tenant's queue.
pub record IsWaiting (s : Scheduler) (id : ℕ) (task : TaskRecord) : Type 0 where
  pub place : ℕ
  pub here : get_elem? (all_ids s.tenant_queues) place ≡ some id
  pub there : queued_task s.tasks id ≡ some task

scan_fifo-append :
    (tasks : Tasks) (xs ys : List ℕ) (selected : Option ℕ)
    → scan_fifo tasks selected (xs ++ ys) ≡ scan_fifo tasks (scan_fifo tasks selected xs) ys
unfolding scan_fifo
scan_fifo-append tasks [] ys selected = refl
scan_fifo-append tasks (x ∷ xs) ys selected = scan_fifo-append tasks xs ys _

pub scan_fifo_queues-all_ids :
    (tasks : Tasks) (selected : Option ℕ) (queues : TenantQueues)
    → scan_fifo_queues tasks selected queues ≡ scan_fifo tasks selected (all_ids queues)
unfolding scan_fifo_queues all_ids
scan_fifo_queues-all_ids tasks selected [] = refl
scan_fifo_queues-all_ids tasks selected ((tenant, queue) ∷ queues) =
    rw (scan_fifo-append tasks queue.task_ids (all_ids queues) selected)
      (scan_fifo_queues-all_ids tasks (scan_fifo tasks selected queue.task_ids) queues)

scan_priority-append :
    (tasks : Tasks) (xs ys : List ℕ) (best : Selected)
    → scan_priority tasks best (xs ++ ys) ≡ scan_priority tasks (scan_priority tasks best xs) ys
unfolding scan_priority
scan_priority-append tasks [] ys best = refl
scan_priority-append tasks (x ∷ xs) ys best = scan_priority-append tasks xs ys _

pub scan_priority_queues-all_ids :
    (tasks : Tasks) (best : Selected) (queues : TenantQueues)
    → scan_priority_queues tasks best queues ≡ scan_priority tasks best (all_ids queues)
unfolding scan_priority_queues all_ids
scan_priority_queues-all_ids tasks best [] = refl
scan_priority_queues-all_ids tasks best ((tenant, queue) ∷ queues) =
    rw (scan_priority-append tasks queue.task_ids (all_ids queues) best)
      (scan_priority_queues-all_ids tasks (scan_priority tasks best queue.task_ids) queues)
