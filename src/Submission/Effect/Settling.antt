-- ===== src/Submission/Effect/Settling.antt =====
-- The effect of the methods that answer, reject, pause, complete and acknowledge a command
-- (src/backend/execution_submission_queue.cc).
use glimmer.Prelude.{
  ℕ, ◌≡◌, inl, inr, refl, true, false, not, ◌&&◌, ◌||◌, some, ◌==◌, arith, lookup, nat_eq,
  Bool-cases,
}
use glimmer.Submission.{
  ExecutionReceipt, ExecutionIssueToken, ExecutionReplyOrigin, native_sdk, rejected_before_issue,
  Phase, Entry, SubmissionQueue, Caller, is_queued, is_issuing,
}
use glimmer.Submission.Settle.{
  is_first_issue, is_returned, may_act, replied, retired, publish_found, publish_host_result,
  publish_preparation_failure, failed_uncertain, fail_found, fail_uncertain_issue, reject_unissued,
  reject_before_native_issue, complete_after_physical_stop, is_success, pause_after_physical_stop,
}
use glimmer.Submission.Entries.{all, all-lookup}
use glimmer.Submission.Effect.{
  is_coherent, IsEdit, Effect, idles, edits_seals, find_cases, find_issue_cases,
}
use glimmer.Submission.Effect.Issuing.{guarded-Effect}

replied-IsEdit :
    (e : Entry) (status : ℕ) (origin : ExecutionReplyOrigin)
    → is_coherent e ≡ true
    → is_first_issue e.phase ≡ true
    → IsEdit e (replied status origin e)
replied-IsEdit e status origin v g = record {
  coherent = ground arith;
  bytes = refl;
  moves = ground arith;
  spent = ground arith;
  reply = ground arith;
  generation = refl;
}

failed-IsEdit :
    (e : Entry) (status : ℕ)
    → is_coherent e ≡ true
    → is_issuing e.phase ≡ true
    → IsEdit e (failed_uncertain status e)
failed-IsEdit e status v g = record {
  coherent = ground arith;
  bytes = ground arith;
  moves = ground arith;
  spent = ground arith;
  reply = ground arith;
  generation = ground arith;
}

rejected-IsEdit :
    (e : Entry) (status : ℕ)
    → is_coherent e ≡ true
    → is_queued e.phase || is_first_issue e.phase ≡ true
    → IsEdit e (retired (replied status rejected_before_issue e))
rejected-IsEdit e status v g = record {
  coherent = ground arith;
  bytes = refl;
  moves = ground arith;
  spent = ground arith;
  reply = ground arith;
  generation = refl;
}

retired-IsEdit :
    (e : Entry)
    → is_coherent e ≡ true
    → is_returned e.phase && not e.is_physically_stopped ≡ true
    → IsEdit e (retired e)
retired-IsEdit e v g = record {
  coherent = ground arith;
  bytes = refl;
  moves = ground arith;
  spent = ground arith;
  reply = inr refl;
  generation = refl;
}

paused-IsEdit :
    (e : Entry)
    → is_coherent e ≡ true
    → is_returned e.phase && not e.is_physically_stopped && is_success e.reply ≡ true
    → IsEdit e (record e { phase = Phase.paused })
paused-IsEdit e v g = record {
  coherent = ground arith;
  bytes = refl;
  moves = ground arith;
  spent = ground arith;
  reply = inr refl;
  generation = refl;
}

publish_found-Effect :
    (c : Caller) (k status : ℕ) (origin : ExecutionReplyOrigin) (e : Entry) (s : SubmissionQueue)
    → all is_coherent s.entries ≡ true
    → lookup k s.entries ≡ some e
    → Effect s (publish_found c k status origin (some e) s).0
publish_found-Effect c k status origin e s v l =
    guarded-Effect _ false true s k e _ l (λ g.
      replied-IsEdit e status origin (all-lookup is_coherent k e s.entries v l) (ground arith))

pub publish-Effect :
    (c : Caller) (token : ExecutionIssueToken) (status : ℕ) (s : SubmissionQueue)
    → all is_coherent s.entries ≡ true
    → Effect s (publish_host_result c token status s).0
unfolding publish_host_result
publish-Effect c token status s v = elim (find_issue_cases s token) [
  | inl h ↦ rw h (idles refl)
  | inr (e, f, l, g) ↦ rw f (publish_found-Effect c token.sequence status native_sdk e s v l)
]

pub publish_failure-Effect :
    (c : Caller) (token : ExecutionIssueToken) (status : ℕ) (s : SubmissionQueue)
    → all is_coherent s.entries ≡ true
    → Effect s (publish_preparation_failure c token status s).0
unfolding publish_preparation_failure
publish_failure-Effect c token status s v = elim (Bool-cases (status == 0)) [
  | inl z ↦ rw z (idles refl)
  | inr z ↦ rw z (elim (find_issue_cases s token) [
    | inl h ↦ rw h (idles refl)
    | inr (e, f, l, g) ↦
        rw f (publish_found-Effect c token.sequence status rejected_before_issue e s v l)
  ])
]

fail_found-Effect :
    (c : Caller) (k status : ℕ) (e : Entry) (s : SubmissionQueue)
    → all is_coherent s.entries ≡ true
    → lookup k s.entries ≡ some e
    → Effect s (fail_found c k status (some e) s).0
fail_found-Effect c k status e s v l =
    elim (Bool-cases (not (may_act c s) || not (is_issuing e.phase))) [
      | inl g ↦ rw g (idles refl)
      | inr g ↦ rw g (
          edits_seals k e (failed_uncertain status e) l
            (failed-IsEdit e status (all-lookup is_coherent k e s.entries v l) (ground arith)) refl)
    ]

pub fail-Effect :
    (c : Caller) (token : ExecutionIssueToken) (status : ℕ) (s : SubmissionQueue)
    → all is_coherent s.entries ≡ true
    → Effect s (fail_uncertain_issue c token status s).0
unfolding fail_uncertain_issue
fail-Effect c token status s v = elim (Bool-cases (status == 0)) [
  | inl z ↦ rw z (idles refl)
  | inr z ↦ rw z (elim (find_issue_cases s token) [
    | inl h ↦ rw h (idles refl)
    | inr (e, f, l, g) ↦ rw f (fail_found-Effect c token.sequence status e s v l)
  ])
]

pub reject-Effect :
    (c : Caller) (r : ExecutionReceipt) (status : ℕ) (s : SubmissionQueue)
    → all is_coherent s.entries ≡ true
    → Effect s (reject_unissued c r status s).0
unfolding reject_unissued
reject-Effect c r status s v = elim (Bool-cases (status == 0)) [
  | inl z ↦ rw z (idles refl)
  | inr z ↦ rw z (elim (find_cases s r.owner r.sequence) [
    | inl h ↦ rw h (idles refl)
    | inr (e, f, l) ↦ rw f (
        guarded-Effect _ false true s r.sequence e _ l (λ g.
          rejected-IsEdit e status (all-lookup is_coherent r.sequence e s.entries v l)
            (ground arith)))
  ])
]

pub reject_issue-Effect :
    (c : Caller) (token : ExecutionIssueToken) (status : ℕ) (s : SubmissionQueue)
    → all is_coherent s.entries ≡ true
    → Effect s (reject_before_native_issue c token status s).0
unfolding reject_before_native_issue
reject_issue-Effect c token status s v = elim (Bool-cases (status == 0)) [
  | inl z ↦ rw z (idles refl)
  | inr z ↦ rw z (elim (find_issue_cases s token) [
    | inl h ↦ rw h (idles refl)
    | inr (e, f, l, g) ↦ rw f (
        guarded-Effect _ false true s token.sequence e _ l (λ g.
          rejected-IsEdit e status (all-lookup is_coherent token.sequence e s.entries v l)
            (ground arith)))
  ])
]

pub complete-Effect :
    (c : Caller) (token : ExecutionIssueToken) (s : SubmissionQueue)
    → all is_coherent s.entries ≡ true
    → Effect s (complete_after_physical_stop c token s).0
unfolding complete_after_physical_stop
complete-Effect c token s v = elim (find_issue_cases s token) [
  | inl h ↦ rw h (idles refl)
  | inr (e, f, l, g) ↦ rw f (
      guarded-Effect _ false true s token.sequence e _ l (λ g.
        retired-IsEdit e (all-lookup is_coherent token.sequence e s.entries v l) (ground arith)))
]

pub pause-Effect :
    (c : Caller) (token : ExecutionIssueToken) (s : SubmissionQueue)
    → all is_coherent s.entries ≡ true
    → Effect s (pause_after_physical_stop c token s).0
unfolding pause_after_physical_stop
pause-Effect c token s v = elim (find_issue_cases s token) [
  | inl h ↦ rw h (idles refl)
  | inr (e, f, l, g) ↦ rw f (
      guarded-Effect _ false true s token.sequence e _ l (λ g.
        paused-IsEdit e (all-lookup is_coherent token.sequence e s.entries v l) (ground arith)))
]
