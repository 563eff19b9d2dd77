-- ===== src/Scheduler/Lifecycle/Ending.antt =====
-- A suspension, an end or a cancellation of src/core/scheduler.cc moves a task along the diagram.
use glimmer.Prelude.{
  sub64, u64_max, ℕ, ◌≡◌, refl, inl, inr, Bool, true, false, not, ◌||◌, Option, none, some, arith,
  Bool-cases, Option-cases, lookup, remove, String, nat_eq, string_eq, ◌==◌,
}
use glimmer.Quota.{is_active, QuotaLedgerState, QuotaReservation, release, cancel}
use glimmer.Scheduler.{
  put_task, TaskState, queued, running, cancelled, TaskRecord, TenantQueue, Scheduler, Faults,
  is_queued, is_running, remove_task_from_tenant_queue,
}
use glimmer.Scheduler.Finish.{
  cancel_held, cancel_from_queue, cancel_suspended, cancel_reserved, runs, stop_running, suspend,
  suspend_to, finish_running_task, finish_released, cancel_task, cancel_queued_task, cancel_queued,
  forget, forget_reservation,
}
use glimmer.Scheduler.Lifecycle.Dispatching.{FollowsAll}
use glimmer.Scheduler.Lifecycle.{
  Moves, stays, never_runs, is_cancelled, Follows-refl, assign-Follows,
}
use glimmer.Scheduler.Lifecycle.Submitting.{removed-Follows}

suspend_to-Follows :
    (now id : ℕ) (task : TaskRecord) (o : Option TenantQueue) (s : Scheduler)
    → lookup id s.tasks ≡ some task
    → task.state ≡ running
    → FollowsAll s (suspend_to now id task o s).0
unfolding stop_running
suspend_to-Follows now id task none s here on = Follows-refl s.tasks
suspend_to-Follows now id task (some queue) s here on =
    assign-Follows s.tasks id task _ here (rw on Moves.suspends)

pub suspend-Follows :
    (f : Faults) (now id : ℕ) (s : Scheduler) → FollowsAll s (suspend f now id s).0
unfolding suspend
suspend-Follows f now id s = elim (Option-cases (lookup id s.tasks)) [
  | inl e ↦ rw e (Follows-refl s.tasks)
  | inr (task, e) ↦
      elim (Bool-cases
        (not (runs s id task) || task.dispatch_sequence == u64_max || f.suspend_throws)) [
          | inl off ↦ rw (e, off) (Follows-refl s.tasks)
          | inr on ↦
              rw (e, on)
                (suspend_to-Follows now id task (lookup task.spec.tenant_id s.tenant_queues) s e
                  (ground arith))
        ]
]

finish_released-Follows :
    (now id : ℕ) (task : TaskRecord) (terminal : TaskState) (q : QuotaLedgerState × Bool)
    (s : Scheduler)
    → lookup id s.tasks ≡ some task
    → Moves task.state terminal
    → FollowsAll s (finish_released now id task terminal q s).0
unfolding stop_running
finish_released-Follows now id task terminal (ledger, false) s here m = Follows-refl s.tasks
finish_released-Follows now id task terminal (ledger, true) s here m =
    assign-Follows s.tasks id task _ here m

pub finish-Follows :
    (now id : ℕ) (terminal : TaskState) (s : Scheduler)
    → Moves running terminal
    → FollowsAll s (finish_running_task now id terminal s).0
unfolding finish_running_task
finish-Follows now id terminal s m = elim (Option-cases (lookup id s.tasks)) [
  | inl e ↦ rw e (Follows-refl s.tasks)
  | inr (task, e) ↦ elim (Bool-cases (runs s id task)) [
    | inl on ↦
        let was : task.state ≡ running = ground arith in
        rw (e, on)
          (finish_released-Follows now id task terminal
            (release s.quota_ledger task.spec.memory_bytes) s e (rw was m))
    | inr off ↦ rw (e, off) (Follows-refl s.tasks)
  ]
]

remove_task_from_tenant_queue-tasks :
    (tenant : String) (id : ℕ) (s : Scheduler)
    → (remove_task_from_tenant_queue tenant id s).tasks ≡ s.tasks
unfolding remove_task_from_tenant_queue
remove_task_from_tenant_queue-tasks tenant id s =
    elim (Option-cases (lookup tenant s.tenant_queues)) [
      | inl e ↦ rw (remove_task_from_tenant_queue, e) refl
      | inr (queue, e) ↦ rw (remove_task_from_tenant_queue, e) refl
    ]

cancel_from_queue-Follows :
    (id : ℕ) (task task' : TaskRecord) (s : Scheduler)
    → lookup id s.tasks ≡ some task
    → task.state ≡ queued
    → FollowsAll s (cancel_from_queue id task' s)
cancel_from_queue-Follows id task task' s here q =
    let ended = record task' { state = cancelled } in
    let t = put_task id ended (record s { queued_task_count = sub64 s.queued_task_count 1 }) in
    rw (remove_task_from_tenant_queue-tasks task'.spec.tenant_id id t)
      (assign-Follows s.tasks id task ended here (rw q never_runs))

cancel_suspended-Follows :
    (id : ℕ) (task : TaskRecord) (q : QuotaLedgerState × Bool) (s : Scheduler)
    → lookup id s.tasks ≡ some task
    → task.state ≡ queued
    → FollowsAll s (cancel_suspended id task q s).0
cancel_suspended-Follows id task (ledger, false) s here q = Follows-refl s.tasks
cancel_suspended-Follows id task (ledger, true) s here q =
    cancel_from_queue-Follows id task task (record s { quota_ledger = ledger }) here q

cancel_reserved-Follows :
    (id : ℕ) (task : TaskRecord) (q : QuotaLedgerState × QuotaReservation) (s : Scheduler)
    → lookup id s.tasks ≡ some task
    → task.state ≡ queued
    → FollowsAll s (cancel_reserved id task q s).0
cancel_reserved-Follows id task (ledger, r) s here q = elim (Bool-cases (is_active r)) [
  | inl e ↦ rw e (assign-Follows s.tasks id task _ here (stays task.state))
  | inr e ↦ rw e (
      cancel_from_queue-Follows id task (record task { reservation = some r })
        (record s { quota_ledger = ledger }) here q)
]

cancel_held-Follows :
    (f : Faults) (id : ℕ) (task : TaskRecord) (o : Option QuotaReservation) (s : Scheduler)
    → lookup id s.tasks ≡ some task
    → task.state ≡ queued
    → FollowsAll s (cancel_held f id task o s).0
cancel_held-Follows f id task none s here q = Follows-refl s.tasks
cancel_held-Follows f id task (some r) s here q = elim (Bool-cases (task.dispatch_sequence == 0)) [
  | inl z ↦ elim (Bool-cases (is_active r)) [
    | inl a ↦
        rw (z, a)
          (cancel_reserved-Follows id task (cancel f.cancel_locks s.quota_ledger r) s here q)
    | inr a ↦ rw (z, a) (Follows-refl s.tasks)
  ]
  | inr z ↦
      rw z
        (cancel_suspended-Follows id task (release s.quota_ledger task.spec.memory_bytes) s here q)
]

pub cancel-Follows :
    (f : Faults) (now id : ℕ) (s : Scheduler) → FollowsAll s (cancel_task f now id s).0
unfolding cancel_task
cancel-Follows f now id s = elim (Option-cases (lookup id s.tasks)) [
  | inl e ↦ rw e (Follows-refl s.tasks)
  | inr (task, e) ↦ elim (Bool-cases (is_queued task.state)) [
    | inl q ↦
        rw (e, q)
          (unfold cancel_queued_task in
            cancel_held-Follows f id task task.reservation s e (ground arith))
    | inr q ↦ elim (Bool-cases (is_running task.state)) [
      | inl on ↦ rw (e, q, on) (finish-Follows now id cancelled s is_cancelled)
      | inr off ↦ rw (e, q, off) (Follows-refl s.tasks)
    ]
  ]
]

pub cancel_queued-Follows :
    (f : Faults) (id : ℕ) (s : Scheduler) → FollowsAll s (cancel_queued f id s).0
unfolding cancel_queued
cancel_queued-Follows f id s = elim (Option-cases (lookup id s.tasks)) [
  | inl e ↦ rw e (Follows-refl s.tasks)
  | inr (task, e) ↦ elim (Bool-cases (is_queued task.state)) [
    | inl q ↦
        rw (e, q)
          (unfold cancel_queued_task in
            cancel_held-Follows f id task task.reservation s e (ground arith))
    | inr q ↦ rw (e, q) (Follows-refl s.tasks)
  ]
]

forget_reservation-tasks :
    (f : Faults) (o : Option QuotaReservation) (s : Scheduler)
    → (forget_reservation f o s).tasks ≡ s.tasks
forget_reservation-tasks f none s = refl
forget_reservation-tasks f (some r) s = refl

pub forget-Follows : (f : Faults) (id : ℕ) (s : Scheduler) → FollowsAll s (forget f id s).0
unfolding forget
forget-Follows f id s = elim (Option-cases (lookup id s.tasks)) [
  | inl e ↦ rw e (Follows-refl s.tasks)
  | inr (task, e) ↦ elim (Bool-cases (is_queued task.state || is_running task.state)) [
    | inl live ↦ rw (e, live) (Follows-refl s.tasks)
    | inr ended ↦
        rw (e, ended)
          (removed-Follows s
            (forget_reservation f task.reservation (record s { tasks = remove id s.tasks })) id
            (forget_reservation-tasks f task.reservation (record s { tasks = remove id s.tasks })))
  ]
]
