-- ===== src/Scheduler/Select.antt =====
-- Taking the next task out of its queue: the `select_…` methods of src/core/scheduler.cc.
pub mod Attempts
pub mod Frame
use glimmer.Prelude.{
  ℕ, zero, suc, ◌+◌, ◌%◌, Bool, true, false, not, ◌&&◌, ◌||◌, Option, none, some, List, [], ◌∷◌,
  String, ltb, leb, ◌==◌, if◌then◌else◌, u64_max, sub64, length,
}
use glimmer.Scheduler.{
  TaskRecord, TenantQueue, Scheduler, SchedulingPolicy, weighted_round_robin, deficit_round_robin,
  fifo, priority, put_queue, remove_task_from_tenant_queue, advance_tenant, saturating_add,
}
use glimmer.Scheduler.Queues.{
  queued_task, next_queued, peek_fifo_task, peek_priority_task, queue_at,
}

-- `--queued_task_count_`
abbrev pub unqueue : Scheduler → Scheduler
unqueue s = record s { queued_task_count = sub64 s.queued_task_count 1 }

-- The body that FIFO and priority share: the peeked task leaves its tenant's queue.
abbrev pub select_found : Scheduler → ℕ → Option TaskRecord → Scheduler × Option ℕ
select_found s id none = (s, none)
select_found s id (some task) =
    (unqueue (remove_task_from_tenant_queue task.spec.tenant_id id s), some id)

abbrev pub select_peeked : Scheduler → Option ℕ → Scheduler × Option ℕ
select_peeked s none = (s, none)
select_peeked s (some id) = select_found s id (queued_task s.tasks id)

unfoldable pub select_fifo_task : Scheduler → Scheduler × Option ℕ
unfolding queued_task
select_fifo_task s = select_peeked s (peek_fifo_task s)

unfoldable pub select_priority_task : Scheduler → Scheduler × Option ℕ
unfolding queued_task
select_priority_task s = select_peeked s (peek_priority_task s)

-- A cursor past the end starts a new round; the weighted policy drops the budget with it.
abbrev pub rewind_weighted : Scheduler → Scheduler
rewind_weighted s =
    if leb (length s.tenant_order) s.tenant_cursor
    then record s { tenant_cursor = 0; tenant_budget = 0 }
    else s

abbrev pub rewind_deficit : Scheduler → Scheduler
rewind_deficit s =
    if leb (length s.tenant_order) s.tenant_cursor then record s { tenant_cursor = 0 } else s

abbrev pub is_empty : List ℕ → Bool
is_empty [] = true
is_empty (x ∷ xs) = false

-- `uint32_t` subtraction of 1, which wraps.
abbrev pub decrement32 : ℕ → ℕ
decrement32 n = (n + 4294967295) % 4294967296

-- The weighted policy takes the task `id` and leaves `ids` in the tenant's queue.
unfoldable pub take_weighted : Scheduler → String → TenantQueue → List ℕ → Scheduler
unfolding advance_tenant
take_weighted s tenant queue ids =
    let budget = decrement32 (if s.tenant_budget == 0 then queue.weight else s.tenant_budget) in
    let t =
      put_queue tenant (record queue { task_ids = ids }) (record s { tenant_budget = budget }) in
    unqueue (if (budget == 0) || is_empty ids then advance_tenant t else t)

-- The number counts the attempts that are left.
unfoldable pub select_weighted_from : ℕ → Scheduler → Scheduler × Option ℕ
unfolding queue_at next_queued take_weighted
select_weighted_from zero s = (s, none)
select_weighted_from (suc n) s =
    let t = rewind_weighted s in
    elim (queue_at t t.tenant_cursor) [
      | none ↦ select_weighted_from n (advance_tenant t)
      | some (tenant, queue) ↦ elim (next_queued t.tasks queue.task_ids) [
        | none ↦
            select_weighted_from n
              (advance_tenant (put_queue tenant (record queue { task_ids = [] }) t))
        | some (id, task, ids) ↦ (take_weighted t tenant queue ids, some id)
      ]
    ]

unfoldable pub select_weighted_round_robin_task : Scheduler → Scheduler × Option ℕ
unfolding select_weighted_from
select_weighted_round_robin_task s = select_weighted_from (length s.tenant_order) s

-- The deficit policy takes the task and charges its cost.
abbrev pub take_deficit : Scheduler → String → TenantQueue → TaskRecord → List ℕ → Scheduler
take_deficit s tenant queue task ids = unqueue (
    advance_tenant (
      put_queue tenant
        (record queue { task_ids = ids; deficit = sub64 queue.deficit task.spec.work_units }) s))

-- It leaves a task that the tenant cannot afford and adds the quantum.
abbrev pub accrue_deficit : Scheduler → String → TenantQueue → List ℕ → Scheduler
accrue_deficit s tenant queue ids = advance_tenant (
    put_queue tenant
      (record queue { task_ids = ids; deficit = saturating_add queue.weight queue.deficit }) s)

unfoldable pub select_deficit_from : ℕ → Scheduler → Scheduler × Option ℕ
unfolding queue_at next_queued advance_tenant saturating_add
select_deficit_from zero s = (s, none)
select_deficit_from (suc n) s =
    let t = rewind_deficit s in
    elim (queue_at t t.tenant_cursor) [
      | none ↦ select_deficit_from n (advance_tenant t)
      | some (tenant, queue) ↦ elim (next_queued t.tasks queue.task_ids) [
        | none ↦
            select_deficit_from n
              (advance_tenant (put_queue tenant (record queue { task_ids = [] }) t))
        | some (id, task, ids) ↦ elim (ltb queue.deficit task.spec.work_units) [
          | true ↦ select_deficit_from n (accrue_deficit t tenant queue (id ∷ ids))
          | false ↦ (take_deficit t tenant queue task ids, some id)
        ]
      ]
    ]

unfoldable pub select_deficit_round_robin_task : Scheduler → Scheduler × Option ℕ
unfolding select_deficit_from
select_deficit_round_robin_task s = select_deficit_from (length s.tenant_order) s

abbrev pub select_by : SchedulingPolicy → Scheduler → Scheduler × Option ℕ
select_by fifo s = select_fifo_task s
select_by weighted_round_robin s = select_weighted_round_robin_task s
select_by deficit_round_robin s = select_deficit_round_robin_task s
select_by priority s = select_priority_task s

unfoldable pub select_next_task : Scheduler → Scheduler × Option ℕ
select_next_task s = select_by s.scheduling_policy s
