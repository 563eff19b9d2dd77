-- ===== src/Scheduler/Queues.antt =====
-- Which task is next: the `peek_…` and `select_…` methods of src/core/scheduler.cc. A peek does not
-- keep the local copy of the tenant's budget, which nothing reads.
use glimmer.Prelude.{
  ℕ, zero, suc, ◌+◌, ◌%◌, Bool, true, false, ◌&&◌, ◌||◌, Option, none, some, List, [], ◌∷◌, String,
  ltb, leb, ◌==◌, if◌then◌else◌, is_some, length, get_elem?, lookup, nat_eq, string_eq,
}
use glimmer.Scheduler.{
  TaskRecord, TenantQueue, Scheduler, SchedulingPolicy, weighted_round_robin, deficit_round_robin,
  fifo, priority, is_queued,
}

abbrev pub Tasks : Type 0
Tasks = List (ℕ × TaskRecord)

abbrev pub TenantQueues : Type 0
TenantQueues = List (String × TenantQueue)

-- The record of a task that is there and queued.
abbrev pub if_queued : Option TaskRecord → Option TaskRecord
if_queued none = none
if_queued (some task) = if is_queued task.state then some task else none

unfoldable pub queued_task : Tasks → ℕ → Option TaskRecord
queued_task tasks id = if_queued (lookup id tasks)

-- The first task of a queue that is still queued, with its record and the rest of the queue.
unfoldable pub next_queued : Tasks → List ℕ → Option (ℕ × TaskRecord × List ℕ)
unfolding queued_task
next_queued tasks [] = none
next_queued tasks (id ∷ ids) = elim (queued_task tasks id) [
  | none ↦ next_queued tasks ids
  | some task ↦ some (id, task, ids)
]

-- FIFO: the smallest id among the queued tasks.
abbrev pub older : ℕ → Option ℕ → Bool
older id none = true
older id (some selected) = ltb id selected

unfoldable pub scan_fifo : Tasks → Option ℕ → List ℕ → Option ℕ
unfolding queued_task
scan_fifo tasks selected [] = selected
scan_fifo tasks selected (id ∷ ids) =
    scan_fifo tasks
      (if is_some (queued_task tasks id) && older id selected then some id else selected) ids

unfoldable pub scan_fifo_queues : Tasks → Option ℕ → TenantQueues → Option ℕ
unfolding scan_fifo
scan_fifo_queues tasks selected [] = selected
scan_fifo_queues tasks selected ((tenant, queue) ∷ queues) =
    scan_fifo_queues tasks (scan_fifo tasks selected queue.task_ids) queues

unfoldable pub peek_fifo_task : Scheduler → Option ℕ
unfolding scan_fifo_queues
peek_fifo_task s = scan_fifo_queues s.tasks none s.tenant_queues

-- Priority: the highest priority, and the smallest id among equals.
pub record Selected : Type 0 where
  pub task_id : Option ℕ
  pub priority : ℕ

abbrev pub passes_over : ℕ → ℕ → ℕ → Option ℕ → Bool
passes_over id prio selected_priority none = false
passes_over id prio selected_priority (some selected) =
    ltb prio selected_priority || (prio == selected_priority && ltb selected id)

abbrev pub prefer : Selected → ℕ → Option TaskRecord → Selected
prefer best id none = best
prefer best id (some task) =
    if passes_over id task.spec.priority best.priority best.task_id
    then best
    else record { task_id = some id; priority = task.spec.priority }

unfoldable pub scan_priority : Tasks → Selected → List ℕ → Selected
unfolding queued_task
scan_priority tasks best [] = best
scan_priority tasks best (id ∷ ids) =
    scan_priority tasks (prefer best id (queued_task tasks id)) ids

unfoldable pub scan_priority_queues : Tasks → Selected → TenantQueues → Selected
unfolding scan_priority
scan_priority_queues tasks best [] = best
scan_priority_queues tasks best ((tenant, queue) ∷ queues) =
    scan_priority_queues tasks (scan_priority tasks best queue.task_ids) queues

unfoldable pub peek_priority_task : Scheduler → Option ℕ
unfolding scan_priority_queues
peek_priority_task s =
    (scan_priority_queues s.tasks (record { task_id = none; priority = 0 }) s.tenant_queues).task_id

-- The queue under a cursor: none if the tenant has no entry.
unfoldable pub queue_at : Scheduler → ℕ → Option (String × TenantQueue)
queue_at s cursor = elim (get_elem? s.tenant_order cursor) [
  | none ↦ none
  | some tenant ↦ elim (lookup tenant s.tenant_queues) [ none ↦ none | some q ↦ some (tenant, q) ]
]

abbrev pub wrapped : Scheduler → ℕ → ℕ
wrapped s cursor = if leb (length s.tenant_order) cursor then 0 else cursor

abbrev pub following : Scheduler → ℕ → ℕ
following s cursor = (cursor + 1) % length s.tenant_order

abbrev pub ids_of : Option (String × TenantQueue) → List ℕ
ids_of none = []
ids_of (some (tenant, queue)) = queue.task_ids

-- The number counts the attempts that are left.
unfoldable pub peek_weighted_from : ℕ → Scheduler → ℕ → Option ℕ
unfolding queue_at next_queued
peek_weighted_from zero s cursor = none
peek_weighted_from (suc n) s cursor =
    elim (next_queued s.tasks (ids_of (queue_at s (wrapped s cursor)))) [
      | none ↦ peek_weighted_from n s (following s (wrapped s cursor))
      | some (id, task, ids) ↦ some id
    ]

unfoldable pub peek_weighted_round_robin_task : Scheduler → Option ℕ
unfolding peek_weighted_from
peek_weighted_round_robin_task s = peek_weighted_from (length s.tenant_order) s s.tenant_cursor

abbrev pub affordable : Option (String × TenantQueue) → TaskRecord → Bool
affordable none task = false
affordable (some (tenant, queue)) task = leb task.spec.work_units queue.deficit

unfoldable pub peek_deficit_from : ℕ → Scheduler → ℕ → Option ℕ
unfolding queue_at next_queued
peek_deficit_from zero s cursor = none
peek_deficit_from (suc n) s cursor =
    let at = queue_at s cursor in
    let rest = peek_deficit_from n s (following s cursor) in
    elim (next_queued s.tasks (ids_of at)) [
      | none ↦ rest
      | some (id, task, ids) ↦ if affordable at task then some id else rest
    ]

unfoldable pub peek_deficit_round_robin_task : Scheduler → Option ℕ
unfolding peek_deficit_from
peek_deficit_round_robin_task s = peek_deficit_from (length s.tenant_order) s s.tenant_cursor

abbrev pub peek_by : SchedulingPolicy → Scheduler → Option ℕ
peek_by fifo s = peek_fifo_task s
peek_by weighted_round_robin s = peek_weighted_round_robin_task s
peek_by deficit_round_robin s = peek_deficit_round_robin_task s
peek_by priority s = peek_priority_task s

unfoldable pub peek_next_task : Scheduler → Option ℕ
peek_next_task s = peek_by s.scheduling_policy s
