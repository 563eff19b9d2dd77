-- ===== src/Backend.antt =====
-- What runs tasks (include/glimmer/backend/task_backend.h): the interface `TaskBackend`, whose
-- implementations the executor only calls, and the simulated one
-- (src/backend/simulated_backend.cc). A call that throws has no result. Task numbers are the keys
-- of a table.
pub mod Completion
pub mod Executor
pub mod Holding
pub mod Examples
use glimmer.Prelude.{
  ℕ, ◌+◌, ◌-◌, Bool, true, false, not, ◌&&◌, ◌||◌, Option, none, some, List, [], ◌∷◌, ◌==◌,
  if◌then◌else◌, lookup, assign, emplace, nat_eq, is_some,
}

pub data TaskStatus : Type 0 where
  unknown pending completed failed cancelled : TaskStatus

pub record TaskSubmission : Type 0 where
  pub task_id : ℕ
  pub work_units : ℕ

pub record TaskBackend (B : Type 0) : Type 0 where
  pub submit : TaskSubmission → B → B × Option Bool
  pub poll : ℕ → B → Option TaskStatus
  pub cancel : ℕ → B → B × Option Bool

pub record SimulatedTask : Type 0 where
  pub status : TaskStatus
  pub remaining_steps : ℕ

pub record SimulatedBackend : Type 0 where
  pub completion_steps : ℕ
  pub tasks : List (ℕ × SimulatedTask)

unfoldable pub new_backend : ℕ → SimulatedBackend
new_backend completion_steps = record {
  completion_steps = if completion_steps == 0 then 1 else completion_steps;
  tasks = [];
}

unfoldable pub submit_simulated : Bool → TaskSubmission → SimulatedBackend → SimulatedBackend × Bool
submit_simulated allocation_throws submission b =
    if submission.task_id == 0
      || submission.work_units == 0
      || is_some (lookup submission.task_id b.tasks)
      || allocation_throws
    then (b, false)
    else (
      record b {
        tasks =
            emplace submission.task_id
              (record { status = pending; remaining_steps = b.completion_steps }) b.tasks;
      },
      true,
    )

abbrev pub status_of : Option SimulatedTask → TaskStatus
status_of none = unknown
status_of (some t) = t.status

unfoldable pub poll_task : ℕ → SimulatedBackend → TaskStatus
poll_task task_id b = status_of (lookup task_id b.tasks)

abbrev pub is_pending : TaskStatus → Bool
is_pending pending = true
is_pending _ = false

abbrev pub cancel_found : ℕ → Option SimulatedTask → SimulatedBackend → SimulatedBackend × Bool
cancel_found task_id none b = (b, false)
cancel_found task_id (some t) b =
    if is_pending t.status
    then (record b { tasks = assign task_id (record t { status = cancelled }) b.tasks }, true)
    else (b, false)

unfoldable pub cancel_simulated : ℕ → SimulatedBackend → SimulatedBackend × Bool
cancel_simulated task_id b = cancel_found task_id (lookup task_id b.tasks) b

-- `--remaining_steps` is on an `uint32_t`.
abbrev pub decremented : ℕ → ℕ
decremented n = if n == 0 then 4294967295 else n - 1

abbrev pub advance_task : SimulatedTask → SimulatedTask
advance_task t =
    if is_pending t.status
    then record {
      status = if decremented t.remaining_steps == 0 then completed else pending;
      remaining_steps = decremented t.remaining_steps;
    }
    else t

unfoldable pub advance_all : List (ℕ × SimulatedTask) → List (ℕ × SimulatedTask)
advance_all [] = []
advance_all ((task_id, t) ∷ tasks) = (task_id, advance_task t) ∷ advance_all tasks

unfoldable pub advance : SimulatedBackend → SimulatedBackend
unfolding advance_all
advance b = record b { tasks = advance_all b.tasks }

unfoldable pub count_pending : List (ℕ × SimulatedTask) → ℕ
count_pending [] = 0
count_pending ((task_id, t) ∷ tasks) = (if is_pending t.status then 1 else 0) + count_pending tasks

unfoldable pub active_task_count : SimulatedBackend → ℕ
unfolding count_pending
active_task_count b = count_pending b.tasks

-- The simulated backend as an implementation of the interface.
unfoldable pub simulated : TaskBackend SimulatedBackend
unfolding submit_simulated poll_task cancel_simulated
simulated = record {
  submit = λ submission b. let (b', done) = submit_simulated false submission b in (b', some done);
  poll = λ task_id b. some (poll_task task_id b);
  cancel = λ task_id b. let (b', done) = cancel_simulated task_id b in (b', some done);
}
