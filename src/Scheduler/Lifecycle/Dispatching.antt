-- ===== src/Scheduler/Lifecycle/Dispatching.antt =====
-- A dispatch of src/core/scheduler.cc moves a task along the diagram.
use glimmer.Prelude.{
  ℕ, ◌≡◌, subst, inl, inr, not, ◌||◌, Option, none, some, arith, Bool-cases, Option-cases, lookup,
  nat_eq, string_eq, ◌==◌, is_some,
}
use glimmer.Quota.{QuotaReservation, commit}
use glimmer.Scheduler.{queued, failed, TaskRecord, Scheduler, Faults, is_queued}
use glimmer.Scheduler.Queues.{queued_task, peek_next_task}
use glimmer.Scheduler.Select.{select_next_task, select_deficit_round_robin_task}
use glimmer.Scheduler.Select.Frame.{select-SameRest, select_deficit_round_robin-SameRest}
use glimmer.Scheduler.Dispatch.{
  start_running, fail_dispatch, commit_dispatch, dispatch_reserved, dispatch_selected_task,
  dispatch_next, dispatch_task, dispatch_taken, dispatch_peeked, dispatch_claimed, is_full,
  is_deficit_policy, priority_reservation_blocks_low_dispatch,
}
use glimmer.Scheduler.Lifecycle.{
  Moves, starts, fails_to_start, Follows, Follows-refl, assign-Follows,
}

abbrev pub FollowsAll : Scheduler → Scheduler → Type 0
FollowsAll s t = Follows s.tasks t.tasks

pub same-Follows : (s t : Scheduler) → t.tasks ≡ s.tasks → FollowsAll s t
same-Follows s t e = rw e (Follows-refl s.tasks)

fail_dispatch-Follows :
    (f : Faults) (id : ℕ) (task : TaskRecord) (r : QuotaReservation) (s : Scheduler)
    → lookup id s.tasks ≡ some task
    → task.state ≡ queued
    → FollowsAll s (fail_dispatch f id task r s)
unfolding fail_dispatch
fail_dispatch-Follows f id task r s here q =
    let m : Moves task.state failed = rw q fails_to_start in
    elim (Bool-cases (task.dispatch_sequence == 0)) [
      | inl e ↦ rw e (assign-Follows s.tasks id task _ here m)
      | inr e ↦ rw e (assign-Follows s.tasks id task _ here m)
    ]

start_running-Follows :
    (now id : ℕ) (task : TaskRecord) (r : QuotaReservation) (s : Scheduler)
    → lookup id s.tasks ≡ some task
    → task.state ≡ queued
    → FollowsAll s (start_running now id task r s).0
unfolding start_running
start_running-Follows now id task r s here q = assign-Follows s.tasks id task _ here (rw q starts)

dispatch_reserved-Follows :
    (f : Faults) (now id : ℕ) (task : TaskRecord) (o : Option QuotaReservation) (s : Scheduler)
    → lookup id s.tasks ≡ some task
    → task.state ≡ queued
    → FollowsAll s (dispatch_reserved f now id task o s).0
unfolding dispatch_reserved commit_dispatch
dispatch_reserved-Follows f now id task none s here q =
    assign-Follows s.tasks id task _ here (rw q fails_to_start)
dispatch_reserved-Follows f now id task (some r) s here q =
    let (ledger, r', done) = commit s.quota_ledger r in
    let t = record s { quota_ledger = ledger } in
    elim (Bool-cases (f.snapshot_throws || f.running_throws)) [
      | inl e ↦ rw e (fail_dispatch-Follows f id task r s here q)
      | inr e ↦ elim (Bool-cases (task.dispatch_sequence == 0)) [
        | inl z ↦ elim (Bool-cases f.commit_throws) [
          | inl x ↦ simp (e, z, x) (fail_dispatch-Follows f id task r s here q)
          | inr x ↦ elim (Bool-cases (commit s.quota_ledger r).2) [
            | inl d ↦ simp (e, z, x, d) (start_running-Follows now id task r' t here q)
            | inr d ↦ simp (e, z, x, d) (fail_dispatch-Follows f id task r' t here q)
          ]
        ]
        | inr z ↦ rw (e, z) (start_running-Follows now id task r s here q)
      ]
    ]

dispatch_selected_task-Follows :
    (f : Faults) (now id : ℕ) (s : Scheduler) → FollowsAll s (dispatch_selected_task f now id s).0
unfolding dispatch_selected_task queued_task
dispatch_selected_task-Follows f now id s = elim (Option-cases (lookup id s.tasks)) [
  | inl e ↦ rw e (Follows-refl s.tasks)
  | inr (task, e) ↦ elim (Bool-cases (is_queued task.state)) [
    | inl q ↦
        rw (e, q) (dispatch_reserved-Follows f now id task task.reservation s e (ground arith))
    | inr q ↦ rw (e, q) (Follows-refl s.tasks)
  ]
]

taken-Follows :
    (f : Faults) (now : ℕ) (s : Scheduler) (q : Scheduler × Option ℕ)
    → q.0.tasks ≡ s.tasks
    → FollowsAll s (dispatch_taken f now q).0
taken-Follows f now s (t, none) e = same-Follows s t e
taken-Follows f now s (t, some id) e =
    subst (λ ts. Follows ts (dispatch_selected_task f now id t).0.tasks) e
      (dispatch_selected_task-Follows f now id t)

claimed-Follows :
    (f : Faults) (now id : ℕ) (s : Scheduler) (q : Scheduler × Option ℕ)
    → q.0.tasks ≡ s.tasks
    → FollowsAll s (dispatch_claimed f now id q).0
claimed-Follows f now id s (t, none) e = same-Follows s t e
claimed-Follows f now id s (t, some selected) e = elim (Bool-cases (selected == id)) [
  | inl hit ↦ rw hit (
      subst (λ ts. Follows ts (dispatch_selected_task f now id t).0.tasks) e
        (dispatch_selected_task-Follows f now id t))
  | inr miss ↦ rw miss (same-Follows s t e)
]

pub dispatch_next-Follows :
    (f : Faults) (now : ℕ) (s : Scheduler) → FollowsAll s (dispatch_next f now s).0
unfolding dispatch_next
dispatch_next-Follows f now s =
    elim (Bool-cases (is_full s || priority_reservation_blocks_low_dispatch s)) [
      | inl e ↦ rw e (Follows-refl s.tasks)
      | inr e ↦ rw e (taken-Follows f now s (select_next_task s) (select-SameRest s).tasks)
    ]

peeked-Follows :
    (f : Faults) (now id : ℕ) (o : Option ℕ) (s : Scheduler)
    → FollowsAll s (dispatch_peeked f now id o s).0
peeked-Follows f now id none s = elim (Bool-cases (is_deficit_policy s.scheduling_policy)) [
  | inl e ↦ rw e (
      same-Follows s (select_deficit_round_robin_task s).0
        (select_deficit_round_robin-SameRest s).tasks)
  | inr e ↦ rw e (Follows-refl s.tasks)
]
peeked-Follows f now id (some next) s = elim (Bool-cases (next == id)) [
  | inl e ↦ rw e (claimed-Follows f now id s (select_next_task s) (select-SameRest s).tasks)
  | inr e ↦ rw e (Follows-refl s.tasks)
]

pub dispatch_task-Follows :
    (f : Faults) (now id : ℕ) (s : Scheduler) → FollowsAll s (dispatch_task f now id s).0
unfolding dispatch_task
dispatch_task-Follows f now id s =
    elim (Bool-cases (
      id == 0
      || is_full s
      || priority_reservation_blocks_low_dispatch s
      || not (is_some (queued_task s.tasks id)))) [
        | inl e ↦ rw e (Follows-refl s.tasks)
        | inr e ↦ rw e (peeked-Follows f now id (peek_next_task s) s)
      ]
