-- ===== src/Scheduler/Lifecycle/Started.antt =====
-- What `dispatch_next` of src/core/scheduler.cc starts.
use glimmer.Prelude.{
  ◌<◌, ◌++◌, ◌∙◌, [], ◌∷◌, length, lookup-assign, ℕ, ◌≡◌, refl, sym, subst, ap, inl, inr, false,
  ◌||◌, Option, none, some, arith, Bool-cases, Option-cases, lookup, nat_eq, string_eq, ◌==◌,
}
use glimmer.Quota.{QuotaReservation, commit}
use glimmer.Scheduler.{TaskSnapshot, snapshot, queued, running, TaskRecord, Scheduler, Faults}
use glimmer.Scheduler.Queues.{queued_task}
use glimmer.Scheduler.Select.{select_next_task}
use glimmer.Scheduler.Select.Frame.{SameRest, select-SameRest}
use glimmer.Scheduler.Dispatch.{
  start_running, commit_dispatch, dispatch_reserved, dispatch_selected_task, dispatch_next,
  dispatch_taken, is_full, priority_reservation_blocks_low_dispatch,
}

-- A dispatch of `id` in `s` that answers with the snapshot `snap` and leaves `t`.
pub record HasStarted (s t : Scheduler) (id : ℕ) (snap : TaskSnapshot) : Type 0 where
  pub task : TaskRecord
  pub was_queued : queued_task s.tasks id ≡ some task
  pub identity : snap.task_id ≡ id
  pub rank : snap.priority ≡ task.spec.priority
  pub order : snap.dispatch_sequence ≡ s.next_dispatch_sequence
  pub runs : t.running_task_ids ≡ s.running_task_ids ++ id ∷ []
  pub after : TaskRecord
  pub known : lookup id t.tasks ≡ some after
  pub now_running : after.state ≡ running

same-HasStarted :
    (s u t : Scheduler) (id : ℕ) (snap : TaskSnapshot)
    → u.tasks ≡ s.tasks
    → u.running_task_ids ≡ s.running_task_ids
    → u.next_dispatch_sequence ≡ s.next_dispatch_sequence
    → HasStarted u t id snap
    → HasStarted s t id snap
same-HasStarted s u t id snap tasks ids sequence h = record {
  task = h.task;
  was_queued = ap (λ ts. queued_task ts id) (sym tasks) ∙ h.was_queued;
  identity = h.identity;
  rank = h.rank;
  order = h.order ∙ sequence;
  runs = h.runs ∙ ap (λ xs. xs ++ id ∷ []) ids;
  after = h.after;
  known = h.known;
  now_running = h.now_running;
}

queued_task-lookup :
    (s : Scheduler) (id : ℕ) (task : TaskRecord)
    → queued_task s.tasks id ≡ some task
    → (lookup id s.tasks ≡ some task) × (task.state ≡ queued)
unfolding queued_task
queued_task-lookup s id task q = elim (Option-cases (lookup id s.tasks)) [
  | inl e ↦ ground arith
  | inr (found, e) ↦ ground arith
]

start_running-HasStarted :
    (now id : ℕ) (task : TaskRecord) (r : QuotaReservation) (s : Scheduler) (snap : TaskSnapshot)
    → queued_task s.tasks id ≡ some task
    → (start_running now id task r s).1 ≡ some snap
    → HasStarted s (start_running now id task r s).0 id snap
unfolding start_running snapshot
start_running-HasStarted now id task r s snap q h =
    let (here, was) = queued_task-lookup s id task q in
    let begun : TaskRecord = record task {
      state = running;
      reservation = some r;
      running_at = now;
      dispatch_sequence = s.next_dispatch_sequence;
    } in
    record {
      task = task;
      was_queued = q;
      identity = ground arith;
      rank = ground arith;
      order = ground arith;
      runs = refl;
      after = begun;
      known = ground (arith, lookup-assign id id begun s.tasks);
      now_running = refl;
    }

commit_dispatch-HasStarted :
    (f : Faults) (now id : ℕ) (task : TaskRecord) (r : QuotaReservation) (s : Scheduler)
    (snap : TaskSnapshot)
    → queued_task s.tasks id ≡ some task
    → (commit_dispatch f now id task r s).1 ≡ some snap
    → HasStarted s (commit_dispatch f now id task r s).0 id snap
unfolding commit_dispatch
commit_dispatch-HasStarted f now id task r s snap q =
    let (ledger, r', done) = commit s.quota_ledger r in
    let t = record s { quota_ledger = ledger } in
    elim (Bool-cases f.commit_throws) [
      | inl e ↦ simp e (λ h. cc)
      | inr e ↦ elim (Bool-cases (commit s.quota_ledger r).2) [
        | inl d ↦
            simp (e, d)
              (λ h.
                same-HasStarted s t _ id snap refl refl refl
                  (start_running-HasStarted now id task r' t snap q h))
        | inr d ↦ simp (e, d) (λ h. cc)
      ]
    ]

dispatch_selected_task-HasStarted :
    (f : Faults) (now id : ℕ) (s : Scheduler) (snap : TaskSnapshot)
    → (dispatch_selected_task f now id s).1 ≡ some snap
    → HasStarted s (dispatch_selected_task f now id s).0 id snap
unfolding dispatch_selected_task dispatch_reserved
dispatch_selected_task-HasStarted f now id s snap = elim (Option-cases (queued_task s.tasks id)) [
  | inl e ↦ rw e (λ h. cc)
  | inr (task, e) ↦ elim (Option-cases task.reservation) [
    | inl bare ↦ simp (e, bare) (λ h. cc)
    | inr (r, held) ↦ elim (Bool-cases (f.snapshot_throws || f.running_throws)) [
      | inl x ↦ simp (e, held, x) (λ h. cc)
      | inr x ↦ elim (Bool-cases (task.dispatch_sequence == 0)) [
        | inl z ↦ simp (e, held, x, z) (commit_dispatch-HasStarted f now id task r s snap e)
        | inr z ↦ simp (e, held, x, z) (start_running-HasStarted now id task r s snap e)
      ]
    ]
  ]
]

dispatch_taken-HasStarted :
    (f : Faults) (now : ℕ) (s : Scheduler) (q : Scheduler × Option ℕ) (snap : TaskSnapshot)
    → SameRest s q.0
    → (dispatch_taken f now q).1 ≡ some snap
    → (q.1 ≡ some snap.task_id) × HasStarted s (dispatch_taken f now q).0 snap.task_id snap
dispatch_taken-HasStarted f now s (t, none) snap a h = cc
dispatch_taken-HasStarted f now s (t, some id) snap a h =
    let begun = dispatch_selected_task-HasStarted f now id t snap h in
    let own =
      same-HasStarted s t (dispatch_selected_task f now id t).0 id snap a.tasks a.running_task_ids
        a.next_dispatch_sequence begun in
    (
      ap some (sym begun.identity),
      subst (λ k. HasStarted s (dispatch_selected_task f now id t).0 k snap) (sym begun.identity)
          own,
    )

pub dispatch_next_taken :
    (f : Faults) (now : ℕ) (s : Scheduler) (snap : TaskSnapshot)
    → (dispatch_next f now s).1 ≡ some snap
    → (is_full s ≡ false)
      × (priority_reservation_blocks_low_dispatch s ≡ false)
      × ((select_next_task s).1 ≡ some snap.task_id)
      × HasStarted s (dispatch_next f now s).0 snap.task_id snap
unfolding dispatch_next
dispatch_next_taken f now s snap =
    elim (Bool-cases (is_full s || priority_reservation_blocks_low_dispatch s)) [
      | inl e ↦ rw e (λ h. cc)
      | inr e ↦ rw e (λ h.
          let (taken, begun) =
            dispatch_taken-HasStarted f now s (select_next_task s) snap (select-SameRest s) h in
          (ground arith, ground arith, taken, begun))
    ]

-- A dispatch that answers with a snapshot had a free slot, and starts exactly the task of the
-- snapshot: it was queued, it is running afterwards, the list of running tasks grows by it alone,
-- and the snapshot has its priority and the next dispatch number.
pub dispatch_next_starts :
    (f : Faults) (now : ℕ) (s : Scheduler) (snap : TaskSnapshot)
    → (dispatch_next f now s).1 ≡ some snap
    → (length s.running_task_ids < s.max_running_tasks)
      × HasStarted s (dispatch_next f now s).0 snap.task_id snap
dispatch_next_starts f now s snap h =
    let (free, allowed, taken, begun) = dispatch_next_taken f now s snap h in (ground arith, begun)
