-- ===== src/Submission/Examples/Methods.antt =====
-- The theorems on single methods of src/backend/execution_submission_queue.cc at concrete queues.
use glimmer.Prelude.{
  ℕ, ◌≤◌, ◌≡◌, ◌⊎◌, refl, true, false, not, ◌||◌, none, some, [], ◌∷◌, arith, lookup, assign,
  nat_eq,
}
use glimmer.Submission.{
  Phase, ExecutionReplyOrigin, ExecutionIssue, Entry, SubmissionQueue, blank, is_queued, is_issuing,
  any_issuing, find, find_issue,
}
use glimmer.Submission.Accept.{accept, receipt_of, new_entry, enter, refusal, bind_executor}
use glimmer.Submission.Issue.{
  take_next, selection, first_queued, issue, started, resume_after_physical_stop, is_resuming,
  resumed,
}
use glimmer.Submission.Run.{binds, accepts, takes, resumes, quarantines, run, transition}
use glimmer.Submission.Settle.{publish_host_result, pause_after_physical_stop, quarantine}
use glimmer.Submission.Sound.{IsSound}
use glimmer.Submission.Sound.System.{in_flight}
use glimmer.Submission.Sound.Steps.{run-new-IsSoundSystem}
use glimmer.Submission.Delivery.Order.{take_next_oldest}
use glimmer.Submission.Delivery.Tokens.{reply_stays, quarantine_stops}
use glimmer.Submission.Delivery.Resume.{resume_renews}
use glimmer.Submission.Examples.{
  session, limits, worker, request, token, by, opened, paused_calls, start, start_queue,
}

abbrev ready : SubmissionQueue
ready = (run opened start).queue

ready-IsSound : IsSound 0 ready
unfolding in_flight run accept
ready-IsSound =
    (run-new-IsSoundSystem session limits 77 (blank session limits 77) opened start_queue
      (omega arith) (omega arith) (omega arith)).commands

abbrev taken : ExecutionIssue
taken = record {
  receipt = receipt_of ready 7;
  token = token 1;
  operation = 3;
  context = 1;
  stream = 2;
  parameters = 10 ∷ 20 ∷ 30 ∷ [];
}

take_ready : (take_next worker none ready).1 ≡ some taken
unfolding run bind_executor accept refusal enter new_entry take_next selection first_queued
    any_issuing issue
take_ready = refl

second_there : lookup 8 ready.entries ≡ some (new_entry request)
unfolding run bind_executor accept refusal enter new_entry lookup
second_there = refl

take_next_oldest_example :
    (k : ℕ) × (e : Entry) × (taken ≡ issue ready k (started e))
    × (lookup k ready.entries ≡ some e)
    × (is_queued e.phase ≡ true)
    × (any_issuing ready.entries || ready.is_quarantined ≡ false)
    × (k ≤ 8)
take_next_oldest_example =
    take_next_oldest 0 worker ready taken 8 (new_entry request) ready-IsSound take_ready
      second_there (unfold new_entry in refl)

abbrev waiting : SubmissionQueue
waiting = (run paused_calls start).queue

waiting-IsSound : IsSound 0 waiting
unfolding in_flight run accept
waiting-IsSound =
    (run-new-IsSoundSystem session limits 77 (blank session limits 77) paused_calls start_queue
      (omega arith) (omega arith) (omega arith)).commands

abbrev answered_entry : Entry
answered_entry = record {
  generation = 1;
  operation = 3;
  context = 1;
  stream = 2;
  phase = Phase.paused;
  reply = some (record { status = 0; origin = ExecutionReplyOrigin.native_sdk });
  payload = some (record { parameters = 10 ∷ 20 ∷ 30 ∷ 0 ∷ 0 ∷ []; lifetime = some 1 });
  issue_parameter_bytes = 3;
  is_acknowledged = false;
  is_physically_stopped = false;
  is_releasing_payload = false;
}

abbrev resumed_issue : ExecutionIssue
resumed_issue = record taken { token = token 2 }

paused_there : lookup 7 waiting.entries ≡ some answered_entry
unfolding run bind_executor accept refusal enter new_entry take_next selection first_queued
    any_issuing issue publish_host_result find_issue find pause_after_physical_stop assign lookup
paused_there = refl

resumed_there :
    lookup 7 (transition worker (resumes (token 1)) waiting).entries ≡ some (resumed answered_entry)
unfolding run bind_executor accept refusal enter new_entry take_next selection first_queued
    any_issuing issue publish_host_result find_issue find pause_after_physical_stop assign lookup
    resume_after_physical_stop transition
resumed_there = refl

resume_waiting : (resume_after_physical_stop worker (token 1) waiting).1 ≡ some resumed_issue
unfolding run bind_executor accept refusal enter new_entry take_next selection first_queued
    any_issuing issue publish_host_result find_issue find pause_after_physical_stop assign lookup
    resume_after_physical_stop
resume_waiting = refl

reply_stays_example :
    ((answered_entry.reply ≡ none) ⊎ ((resumed answered_entry).reply ≡ answered_entry.reply))
    × (1 ≤ (resumed answered_entry).generation)
reply_stays_example =
    reply_stays 0 7 worker (resumes (token 1)) waiting answered_entry (resumed answered_entry)
      waiting-IsSound paused_there resumed_there

resume_renews_example :
    (resumed_issue.token ≡ token 2)
    × (find_issue (resume_after_physical_stop worker (token 1) waiting).0 (token 1) ≡ none)
    × ((e : Entry) × (find_issue (resume_after_physical_stop worker (token 1) waiting).0 (token 2)
          ≡ some e)
        × (is_resuming e.phase ≡ true))
resume_renews_example =
    resume_renews 0 worker (token 1) waiting resumed_issue waiting-IsSound resume_waiting

abbrev sealed : SubmissionQueue
sealed = quarantine worker ready

sealed-IsSound : IsSound 0 sealed
unfolding in_flight run accept quarantine
sealed-IsSound =
    (run-new-IsSoundSystem session limits 77 (blank session limits 77)
      (by (binds ∷ accepts 7 request ∷ accepts 8 request ∷ quarantines ∷ [])) start_queue
      (omega arith) (omega arith) (omega arith)).commands

sealed_holds : sealed.is_quarantined ≡ true
unfolding quarantine
sealed_holds = refl

sealed_keeps : lookup 8 (transition worker (takes none) sealed).entries ≡ some (new_entry request)
unfolding run bind_executor accept refusal enter new_entry lookup quarantine take_next transition
sealed_keeps = refl

quarantine_stops_example :
    ((transition worker (takes none) sealed).is_quarantined ≡ true)
    × ((x : Entry) × (lookup 8 sealed.entries ≡ some x)
        × (not (is_issuing (new_entry request).phase) || is_issuing x.phase ≡ true))
quarantine_stops_example =
    quarantine_stops 0 8 worker (takes none) sealed (new_entry request) sealed-IsSound sealed_holds
      sealed_keeps
