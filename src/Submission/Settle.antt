-- ===== src/Submission/Settle.antt =====
-- How a command gets its reply and is retired: the methods of
-- src/backend/execution_submission_queue.cc that publish, reject, acknowledge, pause and complete,
-- and those that close the queue. A method that retires a payload marks the entry here; the payload
-- is then released outside the lock (Submission/Release).
use glimmer.Prelude.{
  ℕ, Bool, true, false, not, ◌&&◌, ◌||◌, Option, none, some, ◌==◌, if◌then◌else◌, is_some,
}
use glimmer.Submission.{
  ExecutionReceipt, ExecutionIssueToken, ExecutionReplyOrigin, native_sdk, rejected_before_issue,
  uncertain_issue, ExecutionHostReply, Phase, issuing, host_returned, paused, Entry,
  SubmissionQueue, Caller, is_executor, find, find_issue, is_queued, is_issuing, put_entry, collect,
}
use glimmer.Submission.Accept.{seal, is_empty}

abbrev pub is_first_issue : Phase → Bool
is_first_issue issuing = true
is_first_issue _ = false

abbrev pub is_returned : Phase → Bool
is_returned host_returned = true
is_returned _ = false

abbrev pub may_act : Caller → SubmissionQueue → Bool
may_act c s = c.is_same_process && is_executor c s

abbrev pub replied : ℕ → ExecutionReplyOrigin → Entry → Entry
replied status origin e = record e {
  reply = some (record { status = status; origin = origin });
  phase = host_returned;
}

-- The entry has stopped and its payload is to be released.
abbrev pub retired : Entry → Entry
retired e = record e { is_physically_stopped = true; is_releasing_payload = true }

abbrev pub publish_found :
    Caller → ℕ → ℕ → ExecutionReplyOrigin → Option Entry → SubmissionQueue → SubmissionQueue × Bool
publish_found c sequence status origin none s = (s, false)
publish_found c sequence status origin (some e) s =
    if not (may_act c s) || not (is_first_issue e.phase)
    then (s, false)
    else (put_entry sequence (replied status origin e) s, true)

unfoldable pub publish_host_result :
    Caller → ExecutionIssueToken → ℕ → SubmissionQueue → SubmissionQueue × Bool
unfolding find_issue
publish_host_result c token status s =
    publish_found c token.sequence status native_sdk (find_issue s token) s

unfoldable pub publish_preparation_failure :
    Caller → ExecutionIssueToken → ℕ → SubmissionQueue → SubmissionQueue × Bool
unfolding find_issue
publish_preparation_failure c token status s =
    if status == 0
    then (s, false)
    else publish_found c token.sequence status rejected_before_issue (find_issue s token) s

-- A resumed command keeps its first reply.
abbrev pub failed_uncertain : ℕ → Entry → Entry
failed_uncertain status e =
    if is_first_issue e.phase
    then replied status uncertain_issue e
    else record e { phase = host_returned }

abbrev pub fail_found : Caller → ℕ → ℕ → Option Entry → SubmissionQueue → SubmissionQueue × Bool
fail_found c sequence status none s = (s, false)
fail_found c sequence status (some e) s =
    if not (may_act c s) || not (is_issuing e.phase)
    then (s, false)
    else (seal (put_entry sequence (failed_uncertain status e) s), true)

unfoldable pub fail_uncertain_issue :
    Caller → ExecutionIssueToken → ℕ → SubmissionQueue → SubmissionQueue × Bool
unfolding find_issue
fail_uncertain_issue c token status s =
    if status == 0 then (s, false) else fail_found c token.sequence status (find_issue s token) s

abbrev pub reject_found : Caller → ℕ → ℕ → Option Entry → SubmissionQueue → SubmissionQueue × Bool
reject_found c sequence status none s = (s, false)
reject_found c sequence status (some e) s =
    if not (may_act c s) || not (is_queued e.phase)
    then (s, false)
    else (put_entry sequence (retired (replied status rejected_before_issue e)) s, true)

unfoldable pub reject_unissued :
    Caller → ExecutionReceipt → ℕ → SubmissionQueue → SubmissionQueue × Bool
unfolding find
reject_unissued c r status s =
    if status == 0
    then (s, false)
    else reject_found c r.sequence status (find s r.owner r.sequence) s

abbrev pub reject_issue_found :
    Caller → ℕ → ℕ → Option Entry → SubmissionQueue → SubmissionQueue × Bool
reject_issue_found c sequence status none s = (s, false)
reject_issue_found c sequence status (some e) s =
    if not (may_act c s) || not (is_first_issue e.phase)
    then (s, false)
    else (put_entry sequence (retired (replied status rejected_before_issue e)) s, true)

unfoldable pub reject_before_native_issue :
    Caller → ExecutionIssueToken → ℕ → SubmissionQueue → SubmissionQueue × Bool
unfolding find_issue
reject_before_native_issue c token status s =
    if status == 0
    then (s, false)
    else reject_issue_found c token.sequence status (find_issue s token) s

abbrev pub acknowledge_found : ℕ → Option Entry → SubmissionQueue → SubmissionQueue × Bool
acknowledge_found sequence none s = (s, false)
acknowledge_found sequence (some e) s =
    if not (is_some e.reply) || e.is_acknowledged
    then (s, false)
    else let e' = record e { is_acknowledged = true } in
      (collect sequence e' (put_entry sequence e' s), true)

unfoldable pub acknowledge_result :
    Caller → ExecutionReceipt → SubmissionQueue → SubmissionQueue × Bool
unfolding find collect
acknowledge_result c r s =
    if not c.is_same_process
    then (s, false)
    else acknowledge_found r.sequence (find s r.owner r.sequence) s

abbrev pub complete_found : Caller → ℕ → Option Entry → SubmissionQueue → SubmissionQueue × Bool
complete_found c sequence none s = (s, false)
complete_found c sequence (some e) s =
    if not (may_act c s) || not (is_returned e.phase) || e.is_physically_stopped
    then (s, false)
    else (put_entry sequence (retired e) s, true)

unfoldable pub complete_after_physical_stop :
    Caller → ExecutionIssueToken → SubmissionQueue → SubmissionQueue × Bool
unfolding find_issue
complete_after_physical_stop c token s = complete_found c token.sequence (find_issue s token) s

abbrev pub is_native : ExecutionReplyOrigin → Bool
is_native native_sdk = true
is_native _ = false

-- Only what the native call accepted can be continued.
abbrev pub is_success : Option ExecutionHostReply → Bool
is_success none = false
is_success (some r) = r.status == 0 && is_native r.origin

abbrev pub pause_found : Caller → ℕ → Option Entry → SubmissionQueue → SubmissionQueue × Bool
pause_found c sequence none s = (s, false)
pause_found c sequence (some e) s =
    if not (may_act c s)
      || not (is_returned e.phase)
      || e.is_physically_stopped
      || not (is_success e.reply)
    then (s, false)
    else (put_entry sequence (record e { phase = paused }) s, true)

unfoldable pub pause_after_physical_stop :
    Caller → ExecutionIssueToken → SubmissionQueue → SubmissionQueue × Bool
unfolding find_issue
pause_after_physical_stop c token s = pause_found c token.sequence (find_issue s token) s

unfoldable pub close : Caller → SubmissionQueue → SubmissionQueue
close c s = if c.is_same_process then record s { is_closing = true } else s

unfoldable pub quarantine : Caller → SubmissionQueue → SubmissionQueue
quarantine c s = if c.is_same_process then seal s else s

unfoldable pub shutdown : Caller → SubmissionQueue → SubmissionQueue × Bool
shutdown c s =
    if c.is_same_process then (record s { is_closing = true }, is_empty s.entries) else (s, false)
