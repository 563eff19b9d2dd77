-- ===== src/Submission/Report.antt =====
-- What the queue tells its callers: `host_result`, `owns_executor`, `executor_is_quarantined`,
-- `snapshot` and `identity` of src/backend/execution_submission_queue.cc.
use glimmer.Prelude.{
  ◌||◌, ℕ, ◌+◌, Bool, true, false, not, ◌&&◌, Option, none, some, [], ◌∷◌, if◌then◌else◌, is_some,
  length,
}
use glimmer.Submission.{
  ExecutionReceipt, ExecutionSessionIdentity, ExecutionHostReply, Entry, Entries, SubmissionQueue,
  Caller, is_executor, is_expired, find, is_queued, is_issuing,
}
use glimmer.Submission.Issue.{is_paused}
use glimmer.Submission.Settle.{is_returned}

abbrev pub unacknowledged : Option Entry → Option ExecutionHostReply
unacknowledged none = none
unacknowledged (some e) = if e.is_acknowledged then none else e.reply

unfoldable pub host_result : Caller → ExecutionReceipt → SubmissionQueue → Option ExecutionHostReply
unfolding find
host_result c r s = if c.is_same_process then unacknowledged (find s r.owner r.sequence) else none

unfoldable pub owns_executor : Caller → SubmissionQueue → Bool
owns_executor c s = c.is_same_process && is_executor c s

unfoldable pub executor_is_quarantined : Caller → SubmissionQueue → Bool
executor_is_quarantined c s = not c.is_same_process || not (is_executor c s) || s.is_quarantined

pub record ExecutionSubmissionSnapshot : Type 0 where
  pub outstanding : ℕ
  pub queued : ℕ
  pub issuing : ℕ
  pub paused : ℕ
  pub awaiting_physical_stop : ℕ
  pub unacknowledged_replies : ℕ
  pub retained_parameter_bytes : ℕ
  pub retained_host_bytes : ℕ
  pub has_executor : Bool
  pub is_closing : Bool
  pub is_quarantined : Bool

-- One counter of the loop.
unfoldable pub count : (Entry → Bool) → Entries → ℕ
count p [] = 0
count p ((sequence, e) ∷ es) = (if p e then 1 else 0) + count p es

abbrev pub awaits_stop : Entry → Bool
awaits_stop e = is_returned e.phase && not e.is_physically_stopped

abbrev pub awaits_acknowledgement : Entry → Bool
awaits_acknowledgement e = is_some e.reply && not e.is_acknowledged

unfoldable pub snapshot : Caller → SubmissionQueue → ExecutionSubmissionSnapshot
unfolding count
snapshot c s =
    if c.is_same_process
    then record {
      outstanding = length s.entries;
      queued = count (λ e. is_queued e.phase) s.entries;
      issuing = count (λ e. is_issuing e.phase) s.entries;
      paused = count (λ e. is_paused e.phase) s.entries;
      awaiting_physical_stop = count awaits_stop s.entries;
      unacknowledged_replies = count awaits_acknowledgement s.entries;
      retained_parameter_bytes = s.parameter_bytes;
      retained_host_bytes = s.host_bytes;
      has_executor = not (is_expired c s.executor);
      is_closing = s.is_closing;
      is_quarantined = s.is_quarantined;
    }
    else record {
      outstanding = 0;
      queued = 0;
      issuing = 0;
      paused = 0;
      awaiting_physical_stop = 0;
      unacknowledged_replies = 0;
      retained_parameter_bytes = 0;
      retained_host_bytes = 0;
      has_executor = false;
      is_closing = true;
      is_quarantined = true;
    }

unfoldable pub session_identity : Caller → SubmissionQueue → ExecutionSessionIdentity
session_identity c s =
    if c.is_same_process
    then s.session
    else record { client_id = 0; server_incarnation = 0; first_sequence = 0 }
