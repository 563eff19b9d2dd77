-- ===== src/Submission/Examples.antt =====
-- The theorems on src/backend/execution_submission_queue.cc at a session that runs two commands.
pub mod Methods
use glimmer.Prelude.{
  ℕ, suc, ◌≤◌, ◌≡◌, ◌⊎◌, refl, Bool, true, false, not, ◌||◌, Option, none, some, List, [], ◌∷◌,
  arith, lookup, assign, remove, nat_eq, u64_max,
}
use glimmer.Submission.{
  ExecutionSessionIdentity, ExecutionSubmissionLimits, ExecutionRequest, ExecutionIssueToken,
  ExecutionIssue, accepted, Entry, SubmissionQueue, Caller, blank, new_queue, is_queued, is_issuing,
  any_issuing, find, find_issue, put_entry, collect,
}
use glimmer.Submission.Accept.{
  accept, receipt_of, new_entry, enter, refusal, bind_executor, allocate_host_storage,
  free_host_storage,
}
use glimmer.Submission.Issue.{
  finish_continuation_issue, take_next, selection, first_queued, issue, started,
  resume_after_physical_stop, is_resuming, resumed,
}
use glimmer.Submission.Run.{
  System, Method, binds, accepts, takes, publishes, pauses, resumes, finishes, completes,
  acknowledges, quarantines, Call, calls, detaches, releases, allocates, frees, step, run,
  transition, initial,
}
use glimmer.Submission.Settle.{
  publish_host_result, pause_after_physical_stop, complete_after_physical_stop, acknowledge_result,
  quarantine,
}
use glimmer.Submission.Release.{detach_payload, finish_release}
use glimmer.Submission.Sound.{IsSound}
use glimmer.Submission.Sound.System.{IsSoundSystem, in_flight}
use glimmer.Submission.Sound.Steps.{run-new-IsSoundSystem}
use glimmer.Submission.Spec.{board, Step, Reaches}
use glimmer.Submission.Spec.Refine.{step_refines, run_refines}
use glimmer.Submission.Delivery.Order.{accepted_is_issued, take_next_oldest}
use glimmer.Submission.Delivery.Tokens.{reply_stays, quarantine_stops}
use glimmer.Submission.Delivery.Resume.{resume_renews}

abbrev pub session : ExecutionSessionIdentity
session = record { client_id = 1; server_incarnation = 9; first_sequence = 7 }

abbrev pub limits : ExecutionSubmissionLimits
limits = record { max_commands = 2; max_parameter_bytes = 64; max_retained_host_bytes = 100 }

abbrev pub worker : Caller
worker = record {
  is_same_process = true;
  thread = 5;
  lives = λ thread. true;
  allocation_throws = false;
}

abbrev pub request : ExecutionRequest
request = record {
  operation = 3;
  context = 1;
  stream = 2;
  parameters = 10 ∷ 20 ∷ 30 ∷ [];
  lifetime = some 1;
  parameter_capacity_bytes = 5;
}

abbrev pub token : ℕ → ExecutionIssueToken
token generation = record { owner = 77; sequence = 7; generation = generation }

abbrev pub by : List Method → List (Caller × Call)
by [] = []
by (m ∷ ms) = (worker, calls m) ∷ by ms

-- The executor has bound itself; two commands are accepted.
abbrev pub opened : List (Caller × Call)
opened = by (binds ∷ accepts 7 request ∷ accepts 8 request ∷ [])

-- The first command has answered and is paused.
abbrev pub paused_calls : List (Caller × Call)
paused_calls = by (
    binds
    ∷ accepts 7 request
    ∷ accepts 8 request
    ∷ takes none
    ∷ publishes (token 1) 0
    ∷ pauses (token 1)
    ∷ [])

-- The first command is continued, completed, acknowledged and released.
abbrev whole : List (Caller × Call)
whole =
    (worker, calls binds)
    ∷ (worker, calls (accepts 7 request))
    ∷ (worker, allocates 40)
    ∷ (worker, calls (takes none))
    ∷ (worker, calls (publishes (token 1) 0))
    ∷ (worker, calls (pauses (token 1)))
    ∷ (worker, calls (resumes (token 1)))
    ∷ (worker, calls (finishes (token 2)))
    ∷ (worker, calls (completes (token 2)))
    ∷ (worker, calls (acknowledges (receipt_of (blank session limits 77) 7)))
    ∷ (worker, detaches 7)
    ∷ (worker, frees 0)
    ∷ (worker, releases 0)
    ∷ []

abbrev pub start : System
start = initial (blank session limits 77)

pub start_queue : new_queue session limits 77 ≡ some (blank session limits 77)
unfolding new_queue
start_queue = refl

run-new-IsSoundSystem_example : IsSoundSystem (run whole (initial (blank session limits 77)))
run-new-IsSoundSystem_example =
    run-new-IsSoundSystem session limits 77 (blank session limits 77) whole start_queue
      (omega arith) (omega arith) (omega arith)

opened-IsSoundSystem : IsSoundSystem (run opened start)
opened-IsSoundSystem =
    run-new-IsSoundSystem session limits 77 (blank session limits 77) opened start_queue
      (omega arith) (omega arith) (omega arith)

paused-IsSoundSystem : IsSoundSystem (run paused_calls start)
paused-IsSoundSystem =
    run-new-IsSoundSystem session limits 77 (blank session limits 77) paused_calls start_queue
      (omega arith) (omega arith) (omega arith)

run_refines_example :
    Reaches
      (board (run opened start).queue.entries)
      (board (run (by (takes none ∷ [])) (run opened start)).queue.entries)
run_refines_example = run_refines (by (takes none ∷ [])) (run opened start) opened-IsSoundSystem

-- Nothing of the command is left.
whole_drains : (run whole start).queue.entries ≡ []
unfolding run bind_executor accept refusal enter new_entry allocate_host_storage free_host_storage
    take_next selection first_queued find issue any_issuing publish_host_result find_issue
    pause_after_physical_stop resume_after_physical_stop finish_continuation_issue
    complete_after_physical_stop acknowledge_result collect detach_payload finish_release lookup
    assign remove
whole_drains = refl

abbrev bound : SubmissionQueue
bound = (run (by (binds ∷ [])) start).queue

bound-IsSound : IsSound 0 bound
unfolding in_flight run
bound-IsSound =
    (run-new-IsSoundSystem session limits 77 (blank session limits 77) (by (binds ∷ [])) start_queue
      (omega arith) (omega arith) (omega arith)).commands

accepted_example : (accept worker 7 request bound).1 ≡ accepted
unfolding run bind_executor accept refusal enter new_entry
accepted_example = refl

bound_idle : any_issuing bound.entries ≡ false
unfolding run bind_executor any_issuing
bound_idle = refl

accepted_is_issued_example :
    (take_next worker (some (receipt_of bound 7)) (accept worker 7 request bound).0).1
    ≡ some (record {
      receipt = receipt_of bound 7;
      token = record { owner = bound.identity; sequence = 7; generation = 1 };
      operation = 3;
      context = 1;
      stream = 2;
      parameters = 10 ∷ 20 ∷ 30 ∷ [];
    })
accepted_is_issued_example =
    accepted_is_issued 0 7 worker worker request bound bound-IsSound accepted_example
      (unfold run bind_executor in refl) bound_idle
