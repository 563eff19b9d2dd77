-- ===== src/Scheduler/Lifecycle/Submitting.antt =====
-- `submit` of src/core/scheduler.cc moves no task that is there.
use glimmer.Prelude.{
  ℕ, ◌≡◌, refl, inl, inr, Bool, true, false, Option, none, some, arith, Bool-cases, Option-cases,
  lookup, remove, emplace, String, nat_eq, string_eq,
}
use glimmer.Quota.{QuotaLedgerState, QuotaReservation, try_reserve}
use glimmer.Scheduler.{TaskSpec, TaskRecord, TenantQueue, Scheduler, Faults}
use glimmer.Scheduler.Submit.{
  add_tenant, new_task, undo_tenant, push_queued, submit, submit_quota, submit_reserved,
  submit_task,
}
use glimmer.Scheduler.Lifecycle.Dispatching.{FollowsAll, same-Follows}
use glimmer.Scheduler.Lifecycle.{Follows-refl, remove-Follows, emplace-Follows}

undo_tenant-tasks :
    (inserted : Bool) (spec : TaskSpec) (s : Scheduler)
    → (undo_tenant inserted spec s).tasks ≡ s.tasks
undo_tenant-tasks false spec s = refl
undo_tenant-tasks true spec s = refl

push_queued-tasks :
    (tenant : String) (id : ℕ) (o : Option TenantQueue) (s : Scheduler)
    → (push_queued tenant id o s).tasks ≡ s.tasks
push_queued-tasks tenant id none s = refl
push_queued-tasks tenant id (some queue) s = refl

pub removed-Follows : (s t : Scheduler) (id : ℕ) → t.tasks ≡ remove id s.tasks → FollowsAll s t
removed-Follows s t id e = rw e (remove-Follows s.tasks id)

emplaced-Follows :
    (s t : Scheduler) (id : ℕ) (task : TaskRecord)
    → lookup id s.tasks ≡ none
    → t.tasks ≡ emplace id task s.tasks
    → FollowsAll s t
emplaced-Follows s t id task new e = rw e (emplace-Follows s.tasks id task new)

submit_task-Follows :
    (f : Faults) (now : ℕ) (spec : TaskSpec) (r : QuotaReservation) (inserted : Bool)
    (s : Scheduler)
    → FollowsAll s (submit_task f now spec r inserted s).0
unfolding submit_task
submit_task-Follows f now spec r inserted s = elim (Bool-cases f.task_throws) [
  | inl e ↦ rw e (
      removed-Follows s
        (undo_tenant inserted spec (record s { tasks = remove s.next_task_id s.tasks }))
        s.next_task_id (undo_tenant-tasks inserted spec _))
  | inr e ↦ elim (Option-cases (lookup s.next_task_id s.tasks)) [
    | inl new ↦
        rw (e, new)
          (emplaced-Follows s
            (push_queued spec.tenant_id s.next_task_id (lookup spec.tenant_id s.tenant_queues)
              (record s { tasks = emplace s.next_task_id (new_task now spec r) s.tasks }))
            s.next_task_id (new_task now spec r) new
            (push_queued-tasks spec.tenant_id s.next_task_id (lookup spec.tenant_id s.tenant_queues)
              _))
    | inr (task, taken) ↦
        rw (e, taken)
          (same-Follows s (undo_tenant inserted spec s) (undo_tenant-tasks inserted spec s))
  ]
]

submit_reserved-Follows :
    (f : Faults) (now : ℕ) (spec : TaskSpec) (r : QuotaReservation) (o : Option TenantQueue)
    (s : Scheduler)
    → FollowsAll s (submit_reserved f now spec r o s).0
unfolding submit_reserved
submit_reserved-Follows f now spec r (some queue) s = submit_task-Follows f now spec r false s
submit_reserved-Follows f now spec r none s = elim (Bool-cases f.tenant_throws) [
  | inl e ↦ rw e (Follows-refl s.tasks)
  | inr e ↦ rw e (submit_task-Follows f now spec r true (add_tenant spec s))
]

submit_quota-Follows :
    (f : Faults) (now : ℕ) (spec : TaskSpec) (q : QuotaLedgerState × Option QuotaReservation)
    (s : Scheduler)
    → FollowsAll s (submit_quota f now spec q s).0
unfolding submit_quota
submit_quota-Follows f now spec (ledger, none) s = Follows-refl s.tasks
submit_quota-Follows f now spec (ledger, some r) s =
    submit_reserved-Follows f now spec r (lookup spec.tenant_id s.tenant_queues)
      (record s { quota_ledger = ledger })

pub submit-Follows :
    (f : Faults) (now : ℕ) (spec : TaskSpec) (s : Scheduler) → FollowsAll s (submit f now spec s).0
unfolding submit
submit-Follows f now spec s = ground (
  arith,
  Follows-refl s.tasks,
  submit_quota-Follows f now spec (try_reserve s.quota_ledger spec.memory_bytes) s,
)
