-- ===== src/Scheduler/Lifecycle/Entered.antt =====
-- How `submit` of src/core/scheduler.cc enters a task.
use glimmer.Prelude.{
  ◌∙◌, ℕ, ◌≢◌, add64, ℕ, ◌≡◌, refl, sym, ap, inl, inr, Bool, true, false, Option, none, some, arith,
  Bool-cases, Option-cases, lookup, emplace, String, nat_eq, string_eq, List, [], ◌∷◌, ◌++◌, assign,
  lookup-assign_same, lookup-assign_other, lookup-emplace_same, lookup-emplace_other,
}
use glimmer.Quota.{QuotaLedgerState, QuotaReservation, try_reserve}
use glimmer.Scheduler.{queued, SubmitResult, accepted, TaskSpec, TenantQueue, Scheduler, Faults}
use glimmer.Scheduler.Submit.{add_tenant, new_task, submit_quota, submit_reserved, submit_task}

-- The tenant's queue before the submission; a new tenant has an empty one.
abbrev pub queue_before : TaskSpec → Option TenantQueue → TenantQueue
queue_before spec none = record { weight = spec.weight; task_ids = []; deficit = 0 }
queue_before spec (some queue) = queue

-- A new tenant goes behind the others.
abbrev pub order_with : TaskSpec → Option TenantQueue → List String → List String
order_with spec none order = order ++ spec.tenant_id ∷ []
order_with spec (some queue) order = order

-- A task that `submit` has entered into `s` and left `t`.
pub record IsEntered (now : ℕ) (spec : TaskSpec) (s t : Scheduler) (id : ℕ) : Type 0 where
  pub numbered : id ≡ s.next_task_id
  pub next_number : t.next_task_id ≡ add64 s.next_task_id 1
  pub fresh : lookup id s.tasks ≡ none
  pub entry :
      lookup id t.tasks
      ≡ some (record {
        spec = spec;
        state = queued;
        reservation = some (record { has_state = true; memory_bytes = spec.memory_bytes });
        queued_at = now;
        running_at = 0;
        dispatch_sequence = 0;
      })
  pub other_tasks : (j : ℕ) → j ≢ id → lookup j t.tasks ≡ lookup j s.tasks
  pub enqueued :
      let queue = queue_before spec (lookup spec.tenant_id s.tenant_queues) in
      lookup spec.tenant_id t.tenant_queues
      ≡ some (record queue { task_ids = queue.task_ids ++ id ∷ [] })
  pub other_queues :
      (tenant : String)
      → tenant ≢ spec.tenant_id
      → lookup tenant t.tenant_queues ≡ lookup tenant s.tenant_queues
  pub order :
      t.tenant_order ≡ order_with spec (lookup spec.tenant_id s.tenant_queues) s.tenant_order
  pub charged : t.quota_ledger ≡ record s.quota_ledger {
    reserved_bytes = add64 s.quota_ledger.reserved_bytes spec.memory_bytes;
  }
  pub counted : t.queued_task_count ≡ add64 s.queued_task_count 1
  pub unchanged : t.running_task_ids ≡ s.running_task_ids

-- The task at the end of its tenant's queue.
abbrev placed : ℕ → TaskSpec → QuotaReservation → TenantQueue → Scheduler → Scheduler
placed now spec r queue s = record s {
  tasks = emplace s.next_task_id (new_task now spec r) s.tasks;
  tenant_queues =
      assign spec.tenant_id (record queue { task_ids = queue.task_ids ++ s.next_task_id ∷ [] })
        s.tenant_queues;
  next_task_id = add64 s.next_task_id 1;
  queued_task_count = add64 s.queued_task_count 1;
}

abbrev Places :
    ℕ → TaskSpec → QuotaReservation → TenantQueue → Scheduler → Scheduler × SubmitResult → Type 0
Places now spec r queue s result =
    (lookup s.next_task_id s.tasks ≡ none)
    × (result ≡ (placed now spec r queue s, record { status = accepted; task_id = s.next_task_id }))

submit_task-Places :
    (f : Faults) (now : ℕ) (spec : TaskSpec) (r : QuotaReservation) (inserted : Bool)
    (queue : TenantQueue) (s : Scheduler)
    → lookup spec.tenant_id s.tenant_queues ≡ some queue
    → (submit_task f now spec r inserted s).1.status ≡ accepted
    → Places now spec r queue s (submit_task f now spec r inserted s)
unfolding submit_task
submit_task-Places f now spec r inserted queue s q = elim (Bool-cases f.task_throws) [
  | inl e ↦ rw e (λ h. cc)
  | inr e ↦ elim (Option-cases (lookup s.next_task_id s.tasks)) [
    | inl new ↦ rw (e, new, q) (λ h. (refl, refl))
    | inr (task, taken) ↦ rw (e, taken) (λ h. cc)
  ]
]

abbrev with_tenant : TaskSpec → Option TenantQueue → Scheduler → Scheduler
with_tenant spec none s = add_tenant spec s
with_tenant spec (some queue) s = s

lookup-with_tenant :
    (spec : TaskSpec) (o : Option TenantQueue) (s : Scheduler)
    → lookup spec.tenant_id s.tenant_queues ≡ o
    → lookup spec.tenant_id (with_tenant spec o s).tenant_queues ≡ some (queue_before spec o)
lookup-with_tenant spec none s e = lookup-emplace_same spec.tenant_id _ s.tenant_queues
lookup-with_tenant spec (some queue) s e = e

submit_reserved-Places :
    (f : Faults) (now : ℕ) (spec : TaskSpec) (r : QuotaReservation) (o : Option TenantQueue)
    (s : Scheduler)
    → lookup spec.tenant_id s.tenant_queues ≡ o
    → (submit_reserved f now spec r o s).1.status ≡ accepted
    → Places now spec r
        (queue_before spec o)
        (with_tenant spec o s)
        (submit_reserved f now spec r o s)
unfolding submit_reserved
submit_reserved-Places f now spec r (some queue) s q =
    submit_task-Places f now spec r false queue s q
submit_reserved-Places f now spec r none s q = elim (Bool-cases f.tenant_throws) [
  | inl e ↦ rw e (λ h. cc)
  | inr e ↦ rw e (λ h.
      submit_task-Places f now spec r true _ (add_tenant spec s) (lookup-with_tenant spec none s q)
        h)
]

try_reserve-some :
    (ledger : QuotaLedgerState) (bytes : ℕ) (r : QuotaReservation)
    → (try_reserve ledger bytes).1 ≡ some r
    → (r ≡ record { has_state = true; memory_bytes = bytes })
      × ((try_reserve ledger bytes).0
          ≡ record ledger { reserved_bytes = add64 ledger.reserved_bytes bytes })
unfolding try_reserve
try_reserve-some ledger bytes r h = ground arith

with_tenant-queues :
    (spec : TaskSpec) (o : Option TenantQueue) (s : Scheduler) (tenant : String)
    → tenant ≢ spec.tenant_id
    → lookup tenant (with_tenant spec o s).tenant_queues ≡ lookup tenant s.tenant_queues
with_tenant-queues spec none s tenant d =
    lookup-emplace_other spec.tenant_id tenant _ s.tenant_queues d
with_tenant-queues spec (some queue) s tenant d = refl

abbrev charged_with : TaskSpec → Scheduler → Scheduler
charged_with spec s = record s {
  quota_ledger = record s.quota_ledger {
    reserved_bytes = add64 s.quota_ledger.reserved_bytes spec.memory_bytes;
  };
}

-- All that does not depend on whether the tenant is new.
placed-IsEntered :
    (now : ℕ) (spec : TaskSpec) (queue : TenantQueue) (order : List String)
    (queues : List (String × TenantQueue)) (s : Scheduler)
    → lookup s.next_task_id s.tasks ≡ none
    → queue ≡ queue_before spec (lookup spec.tenant_id s.tenant_queues)
    → order ≡ order_with spec (lookup spec.tenant_id s.tenant_queues) s.tenant_order
    → lookup spec.tenant_id queues ≡ some queue
    → ((tenant : String)
        → tenant ≢ spec.tenant_id
        → lookup tenant queues ≡ lookup tenant s.tenant_queues)
    → IsEntered now spec s
        (placed now spec
          (record { has_state = true; memory_bytes = spec.memory_bytes })
          queue
          (record (charged_with spec s) { tenant_queues = queues; tenant_order = order }))
        s.next_task_id
placed-IsEntered now spec queue order queues s new same ordered here others = record {
  numbered = refl;
  next_number = refl;
  fresh = new;
  entry = lookup-emplace_same s.next_task_id _ s.tasks;
  other_tasks = λ j d. lookup-emplace_other s.next_task_id j _ s.tasks d;
  enqueued =
      lookup-assign_same spec.tenant_id _ queue queues here
      ∙ ap (λ (q : TenantQueue). some (record q { task_ids = q.task_ids ++ s.next_task_id ∷ [] }))
          same;
  other_queues = λ tenant d. lookup-assign_other spec.tenant_id tenant _ queues d ∙ others tenant d;
  order = ordered;
  charged = refl;
  counted = refl;
  unchanged = refl;
}

with_tenant-IsEntered :
    (now : ℕ) (spec : TaskSpec) (o : Option TenantQueue) (s : Scheduler)
    → lookup spec.tenant_id s.tenant_queues ≡ o
    → lookup
        (with_tenant spec o (charged_with spec s)).next_task_id
        (with_tenant spec o (charged_with spec s)).tasks
      ≡ none
    → IsEntered now spec s
        (placed now spec
          (record { has_state = true; memory_bytes = spec.memory_bytes })
          (queue_before spec o)
          (with_tenant spec o (charged_with spec s)))
        (with_tenant spec o (charged_with spec s)).next_task_id
with_tenant-IsEntered now spec none s q new =
    placed-IsEntered now spec _ _ _ s new (ap (queue_before spec) (sym q))
      (ap (λ o. order_with spec o s.tenant_order) (sym q)) (lookup-with_tenant spec none s q)
      (with_tenant-queues spec none s)
with_tenant-IsEntered now spec (some queue) s q new =
    placed-IsEntered now spec _ _ _ s new (ap (queue_before spec) (sym q))
      (ap (λ o. order_with spec o s.tenant_order) (sym q)) q (λ tenant d. refl)

pub submit_quota-IsEntered :
    (f : Faults) (now : ℕ) (spec : TaskSpec) (s : Scheduler)
    → let q = try_reserve s.quota_ledger spec.memory_bytes in
      (submit_quota f now spec q s).1.status ≡ accepted
      → IsEntered now spec s (submit_quota f now spec q s).0 (submit_quota f now spec q s).1.task_id
unfolding submit_quota
submit_quota-IsEntered f now spec s =
    elim (Option-cases (try_reserve s.quota_ledger spec.memory_bytes).1) [
      | inl e ↦ rw e (λ h. cc)
      | inr (r, e) ↦
          let (bytes, ledger) = try_reserve-some s.quota_ledger spec.memory_bytes r e in
          rw (e, bytes, ledger)
            (λ h.
              let (new, result) =
                submit_reserved-Places f now spec _ (lookup spec.tenant_id s.tenant_queues)
                  (charged_with spec s) refl h in
              rw result
                (with_tenant-IsEntered now spec (lookup spec.tenant_id s.tenant_queues) s refl new))
    ]
