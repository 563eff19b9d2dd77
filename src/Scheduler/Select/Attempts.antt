-- ===== src/Scheduler/Select/Attempts.antt =====
-- One attempt of the round-robin selections of src/core/scheduler.cc, as a rule for proofs.
use glimmer.Prelude.{
  ℕ, suc, ◌≡◌, inl, inr, true, false, Option, none, some, List, [], ◌∷◌, String, Option-cases,
  Bool-cases, ltb,
}
use glimmer.Scheduler.{TaskRecord, TenantQueue, Scheduler, advance_tenant, put_queue}
use glimmer.Scheduler.Queues.{next_queued, queue_at}
use glimmer.Scheduler.Select.{
  take_weighted, select_weighted_from, select_deficit_from, rewind_weighted, rewind_deficit,
  take_deficit, accrue_deficit,
}

-- How one attempt of a round-robin selection goes on.
pub weighted_attempt :
    (P : Scheduler × Option ℕ → Type 0) (n : ℕ) (s : Scheduler)
    → let t = rewind_weighted s in
      (queue_at t t.tenant_cursor ≡ none → P (select_weighted_from n (advance_tenant t)))
      → ((tenant : String) (queue : TenantQueue)
          → queue_at t t.tenant_cursor ≡ some (tenant, queue)
          → next_queued t.tasks queue.task_ids ≡ none
          → P (
              select_weighted_from n
                (advance_tenant (put_queue tenant (record queue { task_ids = [] }) t))))
      → ((tenant : String) (queue : TenantQueue) (id : ℕ) (task : TaskRecord) (ids : List ℕ)
          → queue_at t t.tenant_cursor ≡ some (tenant, queue)
          → next_queued t.tasks queue.task_ids ≡ some (id, task, ids)
          → P (take_weighted t tenant queue ids, some id))
      → P (select_weighted_from (suc n) s)
unfolding select_weighted_from
weighted_attempt P n s absent drained taken =
    let t = rewind_weighted s in
    elim (Option-cases (queue_at t t.tenant_cursor)) [
      | inl e ↦ rw (e, select_weighted_from) (absent e)
      | inr ((tenant, queue), e) ↦ elim (Option-cases (next_queued t.tasks queue.task_ids)) [
        | inl d ↦ rw (e, d, select_weighted_from) (drained tenant queue e d)
        | inr ((id, task, ids), d) ↦
            rw (e, d, select_weighted_from) (taken tenant queue id task ids e d)
      ]
    ]

pub deficit_attempt :
    (P : Scheduler × Option ℕ → Type 0) (n : ℕ) (s : Scheduler)
    → let t = rewind_deficit s in
      (queue_at t t.tenant_cursor ≡ none → P (select_deficit_from n (advance_tenant t)))
      → ((tenant : String) (queue : TenantQueue)
          → queue_at t t.tenant_cursor ≡ some (tenant, queue)
          → next_queued t.tasks queue.task_ids ≡ none
          → P (
              select_deficit_from n
                (advance_tenant (put_queue tenant (record queue { task_ids = [] }) t))))
      → ((tenant : String) (queue : TenantQueue) (id : ℕ) (task : TaskRecord) (ids : List ℕ)
          → queue_at t t.tenant_cursor ≡ some (tenant, queue)
          → next_queued t.tasks queue.task_ids ≡ some (id, task, ids)
          → ltb queue.deficit task.spec.work_units ≡ true
          → P (select_deficit_from n (accrue_deficit t tenant queue (id ∷ ids))))
      → ((tenant : String) (queue : TenantQueue) (id : ℕ) (task : TaskRecord) (ids : List ℕ)
          → queue_at t t.tenant_cursor ≡ some (tenant, queue)
          → next_queued t.tasks queue.task_ids ≡ some (id, task, ids)
          → ltb queue.deficit task.spec.work_units ≡ false
          → P (take_deficit t tenant queue task ids, some id))
      → P (select_deficit_from (suc n) s)
unfolding select_deficit_from
deficit_attempt P n s absent drained short taken =
    let t = rewind_deficit s in
    elim (Option-cases (queue_at t t.tenant_cursor)) [
      | inl e ↦ rw (e, select_deficit_from) (absent e)
      | inr ((tenant, queue), e) ↦ elim (Option-cases (next_queued t.tasks queue.task_ids)) [
        | inl d ↦ rw (e, d, select_deficit_from) (drained tenant queue e d)
        | inr ((id, task, ids), d) ↦ elim (Bool-cases (ltb queue.deficit task.spec.work_units)) [
          | inl c ↦ rw (e, d, c, select_deficit_from) (short tenant queue id task ids e d c)
          | inr c ↦ rw (e, d, c, select_deficit_from) (taken tenant queue id task ids e d c)
        ]
      ]
    ]
