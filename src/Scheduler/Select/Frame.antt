-- ===== src/Scheduler/Select/Frame.antt =====
-- What the selection of src/core/scheduler.cc leaves alone: all but the queues, the cursor with its
-- budget and the count of queued tasks.
use glimmer.Prelude.{
  ℕ, zero, suc, ◌≡◌, Option, none, some, List, [], ◌∷◌, String, arith, length, ◌∙◌,
}
use glimmer.Scheduler.{
  TaskRecord, TenantQueue, Scheduler, SchedulingPolicy, weighted_round_robin, deficit_round_robin,
  fifo, priority, remove_task_from_tenant_queue, advance_tenant, put_queue,
}
use glimmer.Scheduler.Queues.{queued_task, peek_fifo_task, peek_priority_task}
use glimmer.Scheduler.Select.{
  select_peeked, select_found, select_fifo_task, select_priority_task, take_weighted,
  select_weighted_from, select_deficit_from, select_next_task, rewind_weighted, rewind_deficit,
  select_weighted_round_robin_task, select_deficit_round_robin_task, take_deficit, accrue_deficit,
  select_by,
}
use glimmer.Scheduler.Select.Attempts.{weighted_attempt, deficit_attempt}

pub record SameRest (s t : Scheduler) : Type 0 where
  pub quota_ledger : t.quota_ledger ≡ s.quota_ledger
  pub tasks : t.tasks ≡ s.tasks
  pub running_task_ids : t.running_task_ids ≡ s.running_task_ids
  pub max_running_tasks : t.max_running_tasks ≡ s.max_running_tasks
  pub max_queued_tasks : t.max_queued_tasks ≡ s.max_queued_tasks
  pub priority_reserved_slots : t.priority_reserved_slots ≡ s.priority_reserved_slots
  pub threshold : t.priority_reservation_threshold ≡ s.priority_reservation_threshold
  pub scheduling_policy : t.scheduling_policy ≡ s.scheduling_policy
  pub next_task_id : t.next_task_id ≡ s.next_task_id
  pub next_dispatch_sequence : t.next_dispatch_sequence ≡ s.next_dispatch_sequence
  pub tenant_order : t.tenant_order ≡ s.tenant_order

SameRest-refl : (s : Scheduler) → SameRest s s
SameRest-refl s = ground arith

SameRest-trans : {s t u : Scheduler} → SameRest s t → SameRest t u → SameRest s u
SameRest-trans a b = record {
  quota_ledger = b.quota_ledger ∙ a.quota_ledger;
  tasks = b.tasks ∙ a.tasks;
  running_task_ids = b.running_task_ids ∙ a.running_task_ids;
  max_running_tasks = b.max_running_tasks ∙ a.max_running_tasks;
  max_queued_tasks = b.max_queued_tasks ∙ a.max_queued_tasks;
  priority_reserved_slots = b.priority_reserved_slots ∙ a.priority_reserved_slots;
  threshold = b.threshold ∙ a.threshold;
  scheduling_policy = b.scheduling_policy ∙ a.scheduling_policy;
  next_task_id = b.next_task_id ∙ a.next_task_id;
  next_dispatch_sequence = b.next_dispatch_sequence ∙ a.next_dispatch_sequence;
  tenant_order = b.tenant_order ∙ a.tenant_order;
}

advance-SameRest : (s : Scheduler) → SameRest s (advance_tenant s)
unfolding advance_tenant
advance-SameRest s = ground arith

select_found-SameRest :
    (s : Scheduler) (id : ℕ) (o : Option TaskRecord) → SameRest s (select_found s id o).0
unfolding remove_task_from_tenant_queue
select_found-SameRest s id none = SameRest-refl s
select_found-SameRest s id (some task) = ground arith

select_peeked-SameRest : (s : Scheduler) (o : Option ℕ) → SameRest s (select_peeked s o).0
select_peeked-SameRest s none = SameRest-refl s
select_peeked-SameRest s (some id) = select_found-SameRest s id (queued_task s.tasks id)

rewind_weighted-SameRest : (s : Scheduler) → SameRest s (rewind_weighted s)
rewind_weighted-SameRest s = ground arith

rewind_deficit-SameRest : (s : Scheduler) → SameRest s (rewind_deficit s)
rewind_deficit-SameRest s = ground arith

take_weighted-SameRest :
    (s : Scheduler) (tenant : String) (queue : TenantQueue) (ids : List ℕ)
    → SameRest s (take_weighted s tenant queue ids)
unfolding take_weighted
take_weighted-SameRest s tenant queue ids = ground arith

select_weighted-SameRest : (n : ℕ) (s : Scheduler) → SameRest s (select_weighted_from n s).0
select_weighted-SameRest zero s = unfold select_weighted_from in SameRest-refl s
select_weighted-SameRest (suc n) s =
    let t = rewind_weighted s in
    let rewound : SameRest s t = rewind_weighted-SameRest s in
    weighted_attempt (λ r. SameRest s r.0) n s
      (λ e.
        SameRest-trans rewound
          (SameRest-trans (advance-SameRest t) (select_weighted-SameRest n (advance_tenant t))))
      (λ tenant queue e d.
        let u = put_queue tenant (record queue { task_ids = [] }) t in
        let put : SameRest t u = ground arith in
        SameRest-trans rewound (
          SameRest-trans put
            (SameRest-trans (advance-SameRest u) (select_weighted-SameRest n (advance_tenant u)))))
      (λ tenant queue id task ids e d.
        SameRest-trans rewound (take_weighted-SameRest t tenant queue ids))

select_deficit-SameRest : (n : ℕ) (s : Scheduler) → SameRest s (select_deficit_from n s).0
select_deficit-SameRest zero s = unfold select_deficit_from in SameRest-refl s
select_deficit-SameRest (suc n) s =
    let t = rewind_deficit s in
    let rewound : SameRest s t = rewind_deficit-SameRest s in
    deficit_attempt (λ r. SameRest s r.0) n s
      (λ e.
        SameRest-trans rewound
          (SameRest-trans (advance-SameRest t) (select_deficit-SameRest n (advance_tenant t))))
      (λ tenant queue e d.
        let u = put_queue tenant (record queue { task_ids = [] }) t in
        let put : SameRest t u = ground arith in
        SameRest-trans rewound (
          SameRest-trans put
            (SameRest-trans (advance-SameRest u) (select_deficit-SameRest n (advance_tenant u)))))
      (λ tenant queue id task ids e d c.
        let u = accrue_deficit t tenant queue (id ∷ ids) in
        let put : SameRest t u = unfold advance_tenant in ground arith in
        SameRest-trans rewound (SameRest-trans put (select_deficit-SameRest n u)))
      (λ tenant queue id task ids e d c.
        let put : SameRest t (take_deficit t tenant queue task ids) =
          unfold advance_tenant in ground arith in
        SameRest-trans rewound put)

pub select_deficit_round_robin-SameRest :
    (s : Scheduler) → SameRest s (select_deficit_round_robin_task s).0
unfolding select_deficit_round_robin_task
select_deficit_round_robin-SameRest s = select_deficit-SameRest (length s.tenant_order) s

select_by-SameRest : (policy : SchedulingPolicy) (s : Scheduler) → SameRest s (select_by policy s).0
select_by-SameRest fifo s = unfold select_fifo_task in select_peeked-SameRest s (peek_fifo_task s)
select_by-SameRest weighted_round_robin s =
    unfold select_weighted_round_robin_task in select_weighted-SameRest (length s.tenant_order) s
select_by-SameRest deficit_round_robin s = select_deficit_round_robin-SameRest s
select_by-SameRest priority s =
    unfold select_priority_task in select_peeked-SameRest s (peek_priority_task s)

pub select-SameRest : (s : Scheduler) → SameRest s (select_next_task s).0
unfolding select_next_task
select-SameRest s = select_by-SameRest s.scheduling_policy s
