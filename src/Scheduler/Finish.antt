-- ===== src/Scheduler/Finish.antt =====
-- How a task stops running or waiting: `suspend`, `complete`, `fail`, `cancel`, `cancel_queued` and
-- `forget` of src/core/scheduler.cc.
use glimmer.Prelude.{
  ℕ, Bool, true, false, not, ◌&&◌, ◌||◌, Option, none, some, ◌∷◌, ◌==◌, if◌then◌else◌, u64_max,
  add64, sub64, max, lookup, remove, elem, erase, nat_eq, string_eq,
}
use glimmer.Quota.{QuotaLedgerState, QuotaReservation, release, cancel, is_active}
use glimmer.Scheduler.{
  TaskState, queued, completed, cancelled, failed, TaskRecord, TenantQueue, Scheduler, Faults,
  is_queued, is_running, put_task, put_queue, elapsed, saturating_add,
  remove_task_from_tenant_queue,
}

-- Whether a task is running, in its record and in the list of running tasks.
abbrev pub runs : Scheduler → ℕ → TaskRecord → Bool
runs s id task = is_running task.state && elem id s.running_task_ids

-- The service time of a segment that ends now, and the task's slot.
unfoldable pub stop_running : ℕ → ℕ → TaskRecord → Scheduler → Scheduler
unfolding saturating_add
stop_running now id task s =
    let service = elapsed now task.running_at in
    record s {
      total_service_time_microseconds = saturating_add service s.total_service_time_microseconds;
      max_service_time_microseconds = max s.max_service_time_microseconds service;
      running_task_ids = erase id s.running_task_ids;
    }

abbrev pub suspend_to : ℕ → ℕ → TaskRecord → Option TenantQueue → Scheduler → Scheduler × Bool
suspend_to now id task none s = (s, false)
suspend_to now id task (some queue) s = (
  put_task id (record task { state = queued; queued_at = now })
      (put_queue task.spec.tenant_id (record queue { task_ids = id ∷ queue.task_ids })
        (record (stop_running now id task s) { queued_task_count = add64 s.queued_task_count 1 })),
  true,
)

abbrev pub suspend_found : Faults → ℕ → ℕ → Option TaskRecord → Scheduler → Scheduler × Bool
suspend_found f now id none s = (s, false)
suspend_found f now id (some task) s =
    if not (runs s id task) || task.dispatch_sequence == u64_max || f.suspend_throws
    then (s, false)
    else suspend_to now id task (lookup task.spec.tenant_id s.tenant_queues) s

unfoldable pub suspend : Faults → ℕ → ℕ → Scheduler → Scheduler × Bool
unfolding stop_running
suspend f now id s = suspend_found f now id (lookup id s.tasks) s

abbrev pub finish_released :
    ℕ → ℕ → TaskRecord → TaskState → QuotaLedgerState × Bool → Scheduler → Scheduler × Bool
finish_released now id task terminal (ledger, false) s = (s, false)
finish_released now id task terminal (ledger, true) s = (
  put_task id (record task { state = terminal })
      (record (stop_running now id task s) { quota_ledger = ledger }),
  true,
)

abbrev pub finish_found : ℕ → ℕ → TaskState → Option TaskRecord → Scheduler → Scheduler × Bool
finish_found now id terminal none s = (s, false)
finish_found now id terminal (some task) s =
    if runs s id task
    then finish_released now id task terminal (release s.quota_ledger task.spec.memory_bytes) s
    else (s, false)

unfoldable pub finish_running_task : ℕ → ℕ → TaskState → Scheduler → Scheduler × Bool
unfolding stop_running
finish_running_task now id terminal s = finish_found now id terminal (lookup id s.tasks) s

unfoldable pub complete : ℕ → ℕ → Scheduler → Scheduler × Bool
complete now id s = finish_running_task now id completed s

unfoldable pub fail : ℕ → ℕ → Scheduler → Scheduler × Bool
fail now id s = finish_running_task now id failed s

-- The end of `cancel_queued_task_locked`.
abbrev pub cancel_from_queue : ℕ → TaskRecord → Scheduler → Scheduler
cancel_from_queue id task s = remove_task_from_tenant_queue task.spec.tenant_id id (
    put_task id (record task { state = cancelled })
      (record s { queued_task_count = sub64 s.queued_task_count 1 }))

-- A suspended task holds allocated bytes; one that never ran holds its reservation.
abbrev pub cancel_suspended :
    ℕ → TaskRecord → QuotaLedgerState × Bool → Scheduler → Scheduler × Bool
cancel_suspended id task (ledger, false) s = (s, false)
cancel_suspended id task (ledger, true) s =
    (cancel_from_queue id task (record s { quota_ledger = ledger }), true)

abbrev pub cancel_reserved :
    ℕ → TaskRecord → QuotaLedgerState × QuotaReservation → Scheduler → Scheduler × Bool
cancel_reserved id task (ledger, r) s =
    let task' = record task { reservation = some r } in
    if is_active r
    then (put_task id task' (record s { quota_ledger = ledger }), false)
    else (cancel_from_queue id task' (record s { quota_ledger = ledger }), true)

abbrev pub cancel_held :
    Faults → ℕ → TaskRecord → Option QuotaReservation → Scheduler → Scheduler × Bool
cancel_held f id task none s = (s, false)
cancel_held f id task (some r) s =
    if not (task.dispatch_sequence == 0)
    then cancel_suspended id task (release s.quota_ledger task.spec.memory_bytes) s
    else if is_active r
    then cancel_reserved id task (cancel f.cancel_locks s.quota_ledger r) s
    else (s, false)

unfoldable pub cancel_queued_task : Faults → ℕ → TaskRecord → Scheduler → Scheduler × Bool
unfolding remove_task_from_tenant_queue
cancel_queued_task f id task s = cancel_held f id task task.reservation s

abbrev pub cancel_found : Faults → ℕ → ℕ → Option TaskRecord → Scheduler → Scheduler × Bool
cancel_found f now id none s = (s, false)
cancel_found f now id (some task) s =
    if is_queued task.state
    then cancel_queued_task f id task s
    else if is_running task.state
    then finish_running_task now id cancelled s
    else (s, false)

unfoldable pub cancel_task : Faults → ℕ → ℕ → Scheduler → Scheduler × Bool
cancel_task f now id s = cancel_found f now id (lookup id s.tasks) s

abbrev pub cancel_queued_found : Faults → ℕ → Option TaskRecord → Scheduler → Scheduler × Bool
cancel_queued_found f id none s = (s, false)
cancel_queued_found f id (some task) s =
    if is_queued task.state then cancel_queued_task f id task s else (s, false)

unfoldable pub cancel_queued : Faults → ℕ → Scheduler → Scheduler × Bool
cancel_queued f id s = cancel_queued_found f id (lookup id s.tasks) s

-- A task that is forgotten drops what is left of its reservation.
abbrev pub forget_reservation : Faults → Option QuotaReservation → Scheduler → Scheduler
forget_reservation f none s = s
forget_reservation f (some r) s = record s {
  quota_ledger = (cancel f.cancel_locks s.quota_ledger r).0;
}

abbrev pub forget_found : Faults → ℕ → Option TaskRecord → Scheduler → Scheduler × Bool
forget_found f id none s = (s, false)
forget_found f id (some task) s =
    if is_queued task.state || is_running task.state
    then (s, false)
    else (forget_reservation f task.reservation (record s { tasks = remove id s.tasks }), true)

unfoldable pub forget : Faults → ℕ → Scheduler → Scheduler × Bool
forget f id s = forget_found f id (lookup id s.tasks) s
