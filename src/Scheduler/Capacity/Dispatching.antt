-- ===== src/Scheduler/Capacity/Dispatching.antt =====
-- Dispatching keeps the capacity of the scheduler of src/core/scheduler.cc.
use glimmer.Prelude.{
  ℕ, ◌<◌, inl, inr, not, ◌||◌, Option, none, some, [], ◌∷◌, arith, length, length-append,
  Bool-cases, nat_eq, string_eq, ◌==◌, ap, is_some,
}
use glimmer.Quota.{QuotaReservation, commit}
use glimmer.Quota.Bounds.{release-IsWithinLimit, commit-IsWithinLimit, cancel-IsWithinLimit}
use glimmer.Scheduler.{TaskRecord, Scheduler, Faults}
use glimmer.Scheduler.Queues.{queued_task, peek_next_task}
use glimmer.Scheduler.Select.{select_next_task}
use glimmer.Scheduler.Select.Frame.{SameRest, select-SameRest, select_deficit_round_robin-SameRest}
use glimmer.Scheduler.Dispatch.{
  start_running, fail_dispatch, commit_dispatch, dispatch_reserved, dispatch_selected_task,
  dispatch_next, dispatch_task, dispatch_found, dispatch_taken, dispatch_peeked, dispatch_claimed,
  is_full, priority_reservation_blocks_low_dispatch,
}
use glimmer.Scheduler.Capacity.{IsWithinCapacity, SameRest-IsWithinCapacity}

-- A dispatch that starts with a free slot.
abbrev HasSlot : Scheduler → Type 0
HasSlot s = length s.running_task_ids < s.max_running_tasks

fail_dispatch-IsWithinCapacity :
    (f : Faults) (id : ℕ) (task : TaskRecord) (r : QuotaReservation) (s : Scheduler)
    → IsWithinCapacity s
    → IsWithinCapacity (fail_dispatch f id task r s)
unfolding fail_dispatch
fail_dispatch-IsWithinCapacity f id task r s v = ground (
  arith,
  release-IsWithinLimit s.quota_ledger task.spec.memory_bytes v.quota,
  cancel-IsWithinLimit f.cancel_locks s.quota_ledger r v.quota,
)

start_running-IsWithinCapacity :
    (now id : ℕ) (task : TaskRecord) (r : QuotaReservation) (s : Scheduler)
    → HasSlot s
    → IsWithinCapacity s
    → IsWithinCapacity (start_running now id task r s).0
unfolding start_running
start_running-IsWithinCapacity now id task r s h v =
    ground (arith, length-append s.running_task_ids (id ∷ []))

commit_dispatch-IsWithinCapacity :
    (f : Faults) (now id : ℕ) (task : TaskRecord) (r : QuotaReservation) (s : Scheduler)
    → HasSlot s
    → IsWithinCapacity s
    → IsWithinCapacity (commit_dispatch f now id task r s).0
unfolding commit_dispatch
commit_dispatch-IsWithinCapacity f now id task r s h v =
    let (ledger, r', done) = commit s.quota_ledger r in
    let t = record s { quota_ledger = ledger } in
    let w : IsWithinCapacity t = record {
      running = v.running;
      positive = v.positive;
      slots = v.slots;
      quota = commit-IsWithinLimit s.quota_ledger r v.quota;
    } in
    elim (Bool-cases f.commit_throws) [
      | inl e ↦ simp e (fail_dispatch-IsWithinCapacity f id task r s v)
      | inr e ↦ elim (Bool-cases (commit s.quota_ledger r).2) [
        | inl d ↦ simp (e, d) (start_running-IsWithinCapacity now id task r' t h w)
        | inr d ↦ simp (e, d) (fail_dispatch-IsWithinCapacity f id task r' t w)
      ]
    ]

dispatch_reserved-IsWithinCapacity :
    (f : Faults) (now id : ℕ) (task : TaskRecord) (o : Option QuotaReservation) (s : Scheduler)
    → HasSlot s
    → IsWithinCapacity s
    → IsWithinCapacity (dispatch_reserved f now id task o s).0
unfolding dispatch_reserved
dispatch_reserved-IsWithinCapacity f now id task none s h v = ground arith
dispatch_reserved-IsWithinCapacity f now id task (some r) s h v =
    elim (Bool-cases (f.snapshot_throws || f.running_throws)) [
      | inl e ↦ rw e (fail_dispatch-IsWithinCapacity f id task r s v)
      | inr e ↦ elim (Bool-cases (task.dispatch_sequence == 0)) [
        | inl z ↦ rw (e, z) (commit_dispatch-IsWithinCapacity f now id task r s h v)
        | inr z ↦ rw (e, z) (start_running-IsWithinCapacity now id task r s h v)
      ]
    ]

dispatch_found-IsWithinCapacity :
    (f : Faults) (now id : ℕ) (o : Option TaskRecord) (s : Scheduler)
    → HasSlot s
    → IsWithinCapacity s
    → IsWithinCapacity (dispatch_found f now id o s).0
dispatch_found-IsWithinCapacity f now id none s h v = v
dispatch_found-IsWithinCapacity f now id (some task) s h v =
    dispatch_reserved-IsWithinCapacity f now id task task.reservation s h v

dispatch_taken-IsWithinCapacity :
    (f : Faults) (now : ℕ) (q : Scheduler × Option ℕ)
    → HasSlot q.0
    → IsWithinCapacity q.0
    → IsWithinCapacity (dispatch_taken f now q).0
dispatch_taken-IsWithinCapacity f now (s, none) h v = v
dispatch_taken-IsWithinCapacity f now (s, some id) h v =
    unfold dispatch_selected_task in
    dispatch_found-IsWithinCapacity f now id (queued_task s.tasks id) s h v

SameRest-HasSlot : {s t : Scheduler} → SameRest s t → HasSlot s → HasSlot t
SameRest-HasSlot a h = ground (arith, ap length a.running_task_ids)

pub dispatch_next-IsWithinCapacity :
    (f : Faults) (now : ℕ) (s : Scheduler)
    → IsWithinCapacity s
    → IsWithinCapacity (dispatch_next f now s).0
unfolding dispatch_next
dispatch_next-IsWithinCapacity f now s v =
    elim (Bool-cases (is_full s || priority_reservation_blocks_low_dispatch s)) [
      | inl e ↦ rw e v
      | inr e ↦ rw e (
          dispatch_taken-IsWithinCapacity f now (select_next_task s)
            (SameRest-HasSlot (select-SameRest s) (ground arith))
            (SameRest-IsWithinCapacity (select-SameRest s) v))
    ]

dispatch_claimed-IsWithinCapacity :
    (f : Faults) (now id : ℕ) (q : Scheduler × Option ℕ)
    → HasSlot q.0
    → IsWithinCapacity q.0
    → IsWithinCapacity (dispatch_claimed f now id q).0
dispatch_claimed-IsWithinCapacity f now id (s, none) h v = v
dispatch_claimed-IsWithinCapacity f now id (s, some selected) h v =
    elim (Bool-cases (selected == id)) [
      | inl e ↦ rw e (
          unfold dispatch_selected_task in
          dispatch_found-IsWithinCapacity f now id (queued_task s.tasks id) s h v)
      | inr e ↦ rw e v
    ]

dispatch_peeked-IsWithinCapacity :
    (f : Faults) (now id : ℕ) (o : Option ℕ) (s : Scheduler)
    → HasSlot s
    → IsWithinCapacity s
    → IsWithinCapacity (dispatch_peeked f now id o s).0
dispatch_peeked-IsWithinCapacity f now id none s h v =
    let accrued = SameRest-IsWithinCapacity (select_deficit_round_robin-SameRest s) v in
    ground (arith, accrued)
dispatch_peeked-IsWithinCapacity f now id (some next) s h v = elim (Bool-cases (next == id)) [
  | inl e ↦ rw e (
      dispatch_claimed-IsWithinCapacity f now id (select_next_task s)
        (SameRest-HasSlot (select-SameRest s) h) (SameRest-IsWithinCapacity (select-SameRest s) v))
  | inr e ↦ rw e v
]

pub dispatch_task-IsWithinCapacity :
    (f : Faults) (now id : ℕ) (s : Scheduler)
    → IsWithinCapacity s
    → IsWithinCapacity (dispatch_task f now id s).0
unfolding dispatch_task
dispatch_task-IsWithinCapacity f now id s v =
    elim (Bool-cases (
      id == 0
      || is_full s
      || priority_reservation_blocks_low_dispatch s
      || not (is_some (queued_task s.tasks id)))) [
        | inl e ↦ rw e v
        | inr e ↦
            rw e (dispatch_peeked-IsWithinCapacity f now id (peek_next_task s) s (ground arith) v)
      ]
