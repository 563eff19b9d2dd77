-- ===== src/Scheduler/Lifecycle/Submitted.antt =====
-- What `submit` of src/core/scheduler.cc leaves behind.
use glimmer.Prelude.{
  ◌⊎◌, ◌&&◌, leb, ℕ, ◌≢◌, u64_max, ℕ, ◌≡◌, refl, inl, inr, Bool, true, false, not, ◌||◌, Option,
  none, some, arith, Bool-cases, Option-cases, lookup, nat_eq, string_eq, ◌==◌,
}
use glimmer.Quota.{QuotaLedgerState, QuotaReservation, try_reserve}
use glimmer.Scheduler.{accepted, internal_error, TaskSpec, Scheduler, Faults}
use glimmer.Scheduler.Submit.{
  is_invalid, has_other_weight, add_tenant, submit, submit_quota, submit_reserved, submit_task,
}
use glimmer.Scheduler.Lifecycle.Entered.{IsEntered, submit_quota-IsEntered}

-- What `submit` tests before it reserves.
abbrev pub is_refused : Faults → TaskSpec → Scheduler → Bool
is_refused f spec s =
    is_invalid spec
    || s.next_task_id == u64_max
    || (not (s.max_queued_tasks == 0) && leb s.max_queued_tasks s.queued_task_count)
    || has_other_weight spec.weight (lookup spec.tenant_id s.tenant_queues)
    || f.reserve_throws

submit_cases :
    (f : Faults) (now : ℕ) (spec : TaskSpec) (s : Scheduler)
    → ((is_refused f spec s ≡ true)
        × ((submit f now spec s).0 ≡ s)
        × ((submit f now spec s).1.status ≢ accepted))
      ⊎ ((is_refused f spec s ≡ false)
          × (submit f now spec s
              ≡ submit_quota f now spec (try_reserve s.quota_ledger spec.memory_bytes) s))
unfolding submit
submit_cases f now spec s = ground arith

-- A submission that is accepted passed every test of the specification, the numbers, the queue's
-- capacity and the tenant's weight. It gives the task the next number, which was not in use, enters
-- it as queued since now and never started, with a reservation of its bytes, which the ledger counts
-- as reserved, and appends it to the queue of its tenant; a new tenant has the task's weight, no
-- deficit and the last place in the order. The queued tasks are one more, nothing starts, and the
-- other tasks and queues are as before.
pub submit_enters :
    (f : Faults) (now : ℕ) (spec : TaskSpec) (s : Scheduler)
    → (submit f now spec s).1.status ≡ accepted
    → (is_refused f spec s ≡ false)
      × IsEntered now spec s (submit f now spec s).0 (submit f now spec s).1.task_id
submit_enters f now spec s h = elim (submit_cases f now spec s) [
  | inl (refused, same, bad) ↦ absurd (bad h)
  | inr (passed, e) ↦ (passed, rw e (submit_quota-IsEntered f now spec s (rw e at h)))
]

submit_task-status :
    (f : Faults) (now : ℕ) (spec : TaskSpec) (r : QuotaReservation) (inserted : Bool)
    (s : Scheduler)
    → ((submit_task f now spec r inserted s).1.status ≡ accepted)
      ⊎ ((submit_task f now spec r inserted s).1.status ≡ internal_error)
unfolding submit_task
submit_task-status f now spec r inserted s = ground arith

submit_quota-rests :
    (f : Faults) (now : ℕ) (spec : TaskSpec) (q : QuotaLedgerState × Option QuotaReservation)
    (s : Scheduler)
    → (submit_quota f now spec q s).1.status ≢ accepted
    → (submit_quota f now spec q s).1.status ≢ internal_error
    → (submit_quota f now spec q s).0 ≡ s
unfolding submit_quota submit_reserved
submit_quota-rests f now spec (ledger, none) s = λ a b. refl
submit_quota-rests f now spec (ledger, some r) s =
    let t = record s { quota_ledger = ledger } in
    elim (Option-cases (lookup spec.tenant_id s.tenant_queues)) [
      | inl e ↦ elim (Bool-cases f.tenant_throws) [
        | inl x ↦ rw (e, x) (λ a b. absurd (b refl))
        | inr x ↦
            rw (e, x)
              (λ a b. elim (submit_task-status f now spec r true (add_tenant spec t)) [
                | inl good ↦ absurd (a good)
                | inr bad ↦ absurd (b bad)
              ])
      ]
      | inr (queue, e) ↦ rw e (λ a b. elim (submit_task-status f now spec r false t) [
        | inl good ↦ absurd (a good)
        | inr bad ↦ absurd (b bad)
      ])
    ]

-- A submission that is turned down, other than for an internal error, leaves the scheduler as it
-- was.
pub submit_rejects :
    (f : Faults) (now : ℕ) (spec : TaskSpec) (s : Scheduler)
    → (submit f now spec s).1.status ≢ accepted
    → (submit f now spec s).1.status ≢ internal_error
    → (submit f now spec s).0 ≡ s
submit_rejects f now spec s a b = elim (submit_cases f now spec s) [
  | inl (refused, same, bad) ↦ same
  | inr (passed, e) ↦ rw e (
      submit_quota-rests f now spec (try_reserve s.quota_ledger spec.memory_bytes) s (rw e at a)
        (rw e at b))
]
