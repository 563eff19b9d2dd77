-- ===== src/Scheduler/Dispatch.antt =====
-- `dispatch_next`, `dispatch_task` and `dispatch_selected_task_locked` of src/core/scheduler.cc.
use glimmer.Prelude.{
  ℕ, ◌+◌, Bool, true, false, not, ◌||◌, Option, none, some, List, [], ◌∷◌, ◌++◌, ltb, leb, ◌==◌,
  if◌then◌else◌, is_some, u64_max, add64, sub64, max, length, lookup, nat_eq,
}
use glimmer.Quota.{QuotaReservation, release, commit, cancel}
use glimmer.Scheduler.{
  running, failed, TaskRecord, TaskSnapshot, Scheduler, SchedulingPolicy, deficit_round_robin,
  priority, Faults, put_task, elapsed, saturating_add, snapshot,
}
use glimmer.Scheduler.Queues.{Tasks, queued_task, peek_next_task}
use glimmer.Scheduler.Select.{select_next_task, select_deficit_round_robin_task}

abbrev pub is_priority_policy : SchedulingPolicy → Bool
is_priority_policy priority = true
is_priority_policy _ = false

abbrev pub is_deficit_policy : SchedulingPolicy → Bool
is_deficit_policy deficit_round_robin = true
is_deficit_policy _ = false

-- Whether a task is below the reservation's threshold.
abbrev pub is_low : ℕ → Option TaskRecord → Bool
is_low threshold none = false
is_low threshold (some task) = ltb task.spec.priority threshold

-- `std::count_if` over the running tasks.
unfoldable pub low_running : ℕ → Tasks → List ℕ → ℕ
low_running threshold tasks [] = 0
low_running threshold tasks (id ∷ ids) =
    (if is_low threshold (lookup id tasks) then 1 else 0) + low_running threshold tasks ids

abbrev pub blocks_next : ℕ → Tasks → Option ℕ → Bool
blocks_next threshold tasks none = false
blocks_next threshold tasks (some id) = is_low threshold (queued_task tasks id)

unfoldable pub priority_reservation_blocks_low_dispatch : Scheduler → Bool
unfolding low_running queued_task
priority_reservation_blocks_low_dispatch s =
    if not (is_priority_policy s.scheduling_policy) || s.priority_reserved_slots == 0
    then false
    else if ltb (low_running s.priority_reservation_threshold s.tasks s.running_task_ids)
        (sub64 s.max_running_tasks s.priority_reserved_slots)
    then false
    else blocks_next s.priority_reservation_threshold s.tasks (peek_next_task s)

-- A dispatch that fails after the selection: the task's bytes are given back, from the allocated
-- ones if it had been dispatched before, and the task has failed.
unfoldable pub fail_dispatch : Faults → ℕ → TaskRecord → QuotaReservation → Scheduler → Scheduler
fail_dispatch f id task r s =
    let (freed, done) = release s.quota_ledger task.spec.memory_bytes in
    let (left, r') = cancel f.cancel_locks s.quota_ledger r in
    if not (task.dispatch_sequence == 0)
    then put_task id (record task { state = failed }) (record s { quota_ledger = freed })
    else put_task id (record task { state = failed; reservation = some r' })
        (record s { quota_ledger = left })

-- The end of a successful dispatch.
unfoldable pub start_running :
    ℕ → ℕ → TaskRecord → QuotaReservation → Scheduler → Scheduler × Option TaskSnapshot
unfolding snapshot saturating_add
start_running now id task r s =
    let sequence = s.next_dispatch_sequence in
    let waited = elapsed now task.queued_at in
    let task' = record task {
      state = running;
      reservation = some r;
      dispatch_sequence = sequence;
      running_at = now;
    } in
    (
      put_task id task' (record s {
        running_task_ids = s.running_task_ids ++ id ∷ [];
        next_dispatch_sequence = if sequence == u64_max then sequence else add64 sequence 1;
        total_queue_wait_microseconds = saturating_add waited s.total_queue_wait_microseconds;
        max_queue_wait_microseconds = max s.max_queue_wait_microseconds waited;
      }),
      some (snapshot id task'),
    )

-- The commit of a first dispatch, whose failure cancels the reservation.
unfoldable pub commit_dispatch :
    Faults → ℕ → ℕ → TaskRecord → QuotaReservation → Scheduler → Scheduler × Option TaskSnapshot
commit_dispatch f now id task r s =
    let (ledger, r', done) = commit s.quota_ledger r in
    if f.commit_throws
    then (fail_dispatch f id task r s, none)
    else if done
    then start_running now id task r' (record s { quota_ledger = ledger })
    else (fail_dispatch f id task r' (record s { quota_ledger = ledger }), none)

unfoldable pub dispatch_reserved :
    Faults
    → ℕ
    → ℕ
    → TaskRecord
    → Option QuotaReservation
    → Scheduler
    → Scheduler × Option TaskSnapshot
dispatch_reserved f now id task none s = (put_task id (record task { state = failed }) s, none)
dispatch_reserved f now id task (some r) s =
    if f.snapshot_throws || f.running_throws
    then (fail_dispatch f id task r s, none)
    else if task.dispatch_sequence == 0
    then commit_dispatch f now id task r s
    else start_running now id task r s

abbrev pub dispatch_found :
    Faults → ℕ → ℕ → Option TaskRecord → Scheduler → Scheduler × Option TaskSnapshot
dispatch_found f now id none s = (s, none)
dispatch_found f now id (some task) s = dispatch_reserved f now id task task.reservation s

unfoldable pub dispatch_selected_task : Faults → ℕ → ℕ → Scheduler → Scheduler × Option TaskSnapshot
unfolding queued_task
dispatch_selected_task f now id s = dispatch_found f now id (queued_task s.tasks id) s

abbrev pub dispatch_taken : Faults → ℕ → Scheduler × Option ℕ → Scheduler × Option TaskSnapshot
dispatch_taken f now (s, none) = (s, none)
dispatch_taken f now (s, some id) = dispatch_selected_task f now id s

abbrev pub is_full : Scheduler → Bool
is_full s = leb s.max_running_tasks (length s.running_task_ids)

unfoldable pub dispatch_next : Faults → ℕ → Scheduler → Scheduler × Option TaskSnapshot
dispatch_next f now s =
    if is_full s || priority_reservation_blocks_low_dispatch s
    then (s, none)
    else dispatch_taken f now (select_next_task s)

abbrev pub dispatch_claimed :
    Faults → ℕ → ℕ → Scheduler × Option ℕ → Scheduler × Option TaskSnapshot
dispatch_claimed f now id (s, none) = (s, none)
dispatch_claimed f now id (s, some selected) =
    if selected == id then dispatch_selected_task f now id s else (s, none)

-- A deficit round that selects nothing is kept.
abbrev pub dispatch_peeked : Faults → ℕ → ℕ → Option ℕ → Scheduler → Scheduler × Option TaskSnapshot
dispatch_peeked f now id none s =
    if is_deficit_policy s.scheduling_policy
    then ((select_deficit_round_robin_task s).0, none)
    else (s, none)
dispatch_peeked f now id (some next) s =
    if next == id then dispatch_claimed f now id (select_next_task s) else (s, none)

unfoldable pub dispatch_task : Faults → ℕ → ℕ → Scheduler → Scheduler × Option TaskSnapshot
unfolding queued_task
dispatch_task f now id s =
    if id == 0
      || is_full s
      || priority_reservation_blocks_low_dispatch s
      || not (is_some (queued_task s.tasks id))
    then (s, none)
    else dispatch_peeked f now id (peek_next_task s) s
