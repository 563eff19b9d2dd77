-- ===== src/Backend/Examples.antt =====
-- The theorems on src/backend/simulated_backend.cc and src/backend/task_executor.cc at a task that
-- needs three steps.
use glimmer.Prelude.{◌≡◌, refl, arith, true, false, none, lookup, emplace, nat_eq}
use glimmer.Quota.{commit}
use glimmer.Scheduler.{priority, remove_task_from_tenant_queue}
use glimmer.Scheduler.Queues.{peek_priority_task}
use glimmer.Scheduler.Select.{select_next_task, select_priority_task}
use glimmer.Scheduler.Dispatch.{
  dispatch_next, priority_reservation_blocks_low_dispatch, dispatch_selected_task,
  dispatch_reserved, commit_dispatch, start_running,
}
use glimmer.Scheduler.Examples.{calm, waiting}
use glimmer.Backend.{
  completed, TaskSubmission, SimulatedBackend, new_backend, submit_simulated, poll_task, simulated,
}
use glimmer.Backend.Completion.{advances, submitted_completes}
use glimmer.Backend.Executor.{TaskExecutor, executor_step, submitted_step}
use glimmer.Backend.Holding.{HoldsRunning, executor_step-HoldsRunning}

abbrev submission : TaskSubmission
submission = record { task_id = 1; work_units = 2 }

submission_accepted : (submit_simulated false submission (new_backend 3)).1 ≡ true
unfolding submit_simulated new_backend lookup
submission_accepted = refl

submitted_completes_example :
    poll_task 1 (advances 4 (submit_simulated false submission (new_backend 3)).0) ≡ completed
unfolding new_backend
submitted_completes_example =
    submitted_completes 4 false submission (new_backend 3) (unfold new_backend in omega arith)
      submission_accepted

abbrev executor : TaskExecutor SimulatedBackend
executor = record { scheduler = waiting priority; backend = new_backend 3; active_task_id = none }

first_step : (executor_step ⦃device = simulated⦄ calm 30 30 executor).1.status ≡ submitted_step
unfolding executor_step simulated submit_simulated new_backend emplace dispatch_next
    priority_reservation_blocks_low_dispatch select_next_task select_priority_task
    peek_priority_task lookup dispatch_selected_task remove_task_from_tenant_queue dispatch_reserved
    commit_dispatch commit start_running
first_step = refl

executor_step-HoldsRunning_example :
    HoldsRunning (executor_step ⦃device = simulated⦄ calm 30 30 executor).0
executor_step-HoldsRunning_example =
    executor_step-HoldsRunning ⦃device = simulated⦄ calm 30 30 executor
      (unfold HoldsRunning in λ id held. ground arith)
