-- ===== src/Backend/Executor.antt =====
-- `TaskExecutor` of src/backend/task_executor.cc: it moves one task at a time between the scheduler
-- and a backend. The backend is any implementation of the interface.
use glimmer.Prelude.{ℕ, Bool, true, false, Option, none, some, if◌then◌else◌}
use glimmer.Scheduler.{Scheduler, Faults, TaskSnapshot}
use glimmer.Scheduler.Dispatch.{dispatch_next}
use glimmer.Scheduler.Finish.{complete, fail, cancel_task}
use glimmer.Backend.{TaskStatus, unknown, pending, completed, failed, cancelled, TaskBackend}

pub data ExecutorStepStatus : Type 0 where
  idle_step submitted_step pending_step completed_step failed_step cancelled_step backend_error :
      ExecutorStepStatus

pub record ExecutorStepResult : Type 0 where
  pub status : ExecutorStepStatus
  pub task_id : Option ℕ

pub record TaskExecutor (B : Type 0) : Type 0 where
  pub scheduler : Scheduler
  pub backend : B
  pub active_task_id : Option ℕ

-- A poll that throws is a task in an unknown state.
abbrev pub polled : Option TaskStatus → TaskStatus
polled none = unknown
polled (some status) = status

module _ {B : Type 0} ⦃device : TaskBackend B⦄ where
  -- The end of a step that the scheduler agrees to, or not.
  abbrev pub settle_active :
      ℕ
      → ExecutorStepStatus
      → Scheduler × Bool
      → TaskExecutor B
      → TaskExecutor B × ExecutorStepResult
  settle_active id report (s, false) e =
      (record e { scheduler = s }, record { status = backend_error; task_id = some id })
  settle_active id report (s, true) e = (
    record e { scheduler = s; active_task_id = none },
    record { status = report; task_id = some id },
  )

  abbrev pub poll_active :
      Faults → ℕ → ℕ → TaskStatus → TaskExecutor B → TaskExecutor B × ExecutorStepResult
  poll_active f now id pending e = (e, record { status = pending_step; task_id = some id })
  poll_active f now id completed e = settle_active id completed_step (complete now id e.scheduler) e
  poll_active f now id failed e = settle_active id failed_step (fail now id e.scheduler) e
  poll_active f now id cancelled e =
      settle_active id cancelled_step (cancel_task f now id e.scheduler) e
  poll_active f now id unknown e = settle_active id backend_error (fail now id e.scheduler) e

  -- A task that the backend refused and the scheduler could not fail stays active.
  abbrev pub drop_refused :
      ℕ → Scheduler × Bool → TaskExecutor B → TaskExecutor B × ExecutorStepResult
  drop_refused id (s, failed_now) e = (
    record e { scheduler = s; active_task_id = if failed_now then none else some id },
    record { status = backend_error; task_id = some id },
  )

  abbrev pub submitted_to :
      ℕ → ℕ → B × Option Bool → TaskExecutor B → TaskExecutor B × ExecutorStepResult
  submitted_to later id (b, some true) e = (
    record e { backend = b; active_task_id = some id },
    record { status = submitted_step; task_id = some id },
  )
  submitted_to later id (b, some false) e =
      drop_refused id (fail later id e.scheduler) (record e { backend = b })
  submitted_to later id (b, none) e =
      drop_refused id (fail later id e.scheduler) (record e { backend = b })

  abbrev pub submit_dispatched :
      ℕ → Scheduler × Option TaskSnapshot → TaskExecutor B → TaskExecutor B × ExecutorStepResult
  submit_dispatched later (s, none) e =
      (record e { scheduler = s }, record { status = idle_step; task_id = none })
  submit_dispatched later (s, some t) e =
      submitted_to later t.task_id
        (device.submit (record { task_id = t.task_id; work_units = t.work_units }) e.backend)
        (record e { scheduler = s })

  abbrev pub step_active :
      Faults → ℕ → ℕ → Option ℕ → TaskExecutor B → TaskExecutor B × ExecutorStepResult
  step_active f now later none e = submit_dispatched later (dispatch_next f now e.scheduler) e
  step_active f now later (some id) e = poll_active f now id (polled (device.poll id e.backend)) e

  -- The scheduler reads its clock at `now`, and again at `later` when a task that it dispatched is
  -- refused.
  unfoldable pub executor_step :
      Faults → ℕ → ℕ → TaskExecutor B → TaskExecutor B × ExecutorStepResult
  executor_step f now later e = step_active f now later e.active_task_id e
