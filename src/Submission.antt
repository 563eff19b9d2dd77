-- ===== src/Submission.antt =====
-- The submission queue of a session: its data (src/backend/internal/execution_submission_queue.h
-- and src/backend/execution_submission_queue.cc). The entries are kept under their sequence
-- numbers, in the order of acceptance. A lifetime token is named by a number, and so are the
-- threads: the executor's identity is the name of the thread that bound itself. A shared pointer
-- that keeps a payload's inputs alive is the name of what it keeps. An `int32_t` is its bit pattern,
-- and a span with bytes has an address.
pub mod Accept
pub mod Issue
pub mod Settle
pub mod Release
pub mod Report
pub mod Run
pub mod Entries
pub mod Effect
pub mod Sound
pub mod Spec
pub mod Delivery
pub mod Examples
use glimmer.Prelude.{
  ℕ, zero, suc, ◌+◌, Bool, true, false, not, ◌&&◌, ◌||◌, Option, none, some, List, [], ◌∷◌, ◌++◌,
  ◌==◌, leb, if◌then◌else◌, u64_max, lookup, assign, remove, nat_eq, is_some,
}

pub record ExecutionReceipt : Type 0 where
  pub owner : ℕ
  pub sequence : ℕ

pub record ExecutionIssueToken : Type 0 where
  pub owner : ℕ
  pub sequence : ℕ
  pub generation : ℕ

pub record ExecutionSessionIdentity : Type 0 where
  pub client_id : ℕ
  pub server_incarnation : ℕ
  pub first_sequence : ℕ

pub record ExecutionSubmissionLimits : Type 0 where
  pub max_commands : ℕ
  pub max_parameter_bytes : ℕ
  pub max_retained_host_bytes : ℕ

pub record ExecutionRequest : Type 0 where
  pub operation : ℕ
  pub context : ℕ
  pub stream : ℕ
  pub parameters : List ℕ
  pub lifetime : Option ℕ
  pub parameter_capacity_bytes : ℕ

pub data ExecutionAcceptStatus : Type 0 where
  accepted invalid wrong_sequence wrong_process full closed quarantined out_of_memory :
      ExecutionAcceptStatus

pub data ExecutionReplyOrigin : Type 0 where
  native_sdk rejected_before_issue uncertain_issue : ExecutionReplyOrigin

pub record ExecutionHostReply : Type 0 where
  pub status : ℕ
  pub origin : ExecutionReplyOrigin

pub record ExecutionIssue : Type 0 where
  pub receipt : ExecutionReceipt
  pub token : ExecutionIssueToken
  pub operation : ℕ
  pub context : ℕ
  pub stream : ℕ
  pub parameters : List ℕ

pub data Phase : Type 0 where
  queued issuing host_returned paused resuming : Phase

pub record Payload : Type 0 where
  pub parameters : List ℕ
  pub lifetime : Option ℕ

pub record Entry : Type 0 where
  pub generation : ℕ
  pub operation : ℕ
  pub context : ℕ
  pub stream : ℕ
  pub phase : Phase
  pub reply : Option ExecutionHostReply
  pub payload : Option Payload
  pub issue_parameter_bytes : ℕ
  pub is_acknowledged : Bool
  pub is_physically_stopped : Bool
  pub is_releasing_payload : Bool

abbrev pub Entries : Type 0
Entries = List (ℕ × Entry)

pub record SubmissionQueue : Type 0 where
  pub session : ExecutionSessionIdentity
  pub limits : ExecutionSubmissionLimits
  pub identity : ℕ
  pub entries : Entries
  pub executor : Option ℕ
  pub next_sequence : ℕ
  pub parameter_bytes : ℕ
  pub host_bytes : ℕ
  pub has_sequence_space : Bool
  pub has_bound_executor : Bool
  pub is_closing : Bool
  pub is_quarantined : Bool

-- Who calls, and what it finds: whether the process is the one that made the queue, the calling
-- thread, which threads' lifetimes have not ended, and whether an allocation throws.
pub record Caller : Type 0 where
  pub is_same_process : Bool
  pub thread : ℕ
  pub lives : ℕ → Bool
  pub allocation_throws : Bool

-- The constructor, which throws on an invalid domain or limit.
abbrev pub is_invalid_domain : ExecutionSessionIdentity → ExecutionSubmissionLimits → Bool
is_invalid_domain session limits =
    session.client_id == 0
    || session.server_incarnation == 0
    || session.first_sequence == 0
    || limits.max_commands == 0
    || limits.max_parameter_bytes == 0
    || limits.max_retained_host_bytes == 0

abbrev pub blank : ExecutionSessionIdentity → ExecutionSubmissionLimits → ℕ → SubmissionQueue
blank session limits identity = record {
  session = session;
  limits = limits;
  identity = identity;
  entries = [];
  executor = none;
  next_sequence = session.first_sequence;
  parameter_bytes = 0;
  host_bytes = 0;
  has_sequence_space = true;
  has_bound_executor = false;
  is_closing = false;
  is_quarantined = false;
}

unfoldable pub new_queue :
    ExecutionSessionIdentity → ExecutionSubmissionLimits → ℕ → Option SubmissionQueue
new_queue session limits identity =
    if is_invalid_domain session limits then none else some (blank session limits identity)

-- `executor.expired()`
abbrev pub is_expired : Caller → Option ℕ → Bool
is_expired c none = true
is_expired c (some e) = not (c.lives e)

abbrev pub is_bound_to : Caller → Option ℕ → Bool
is_bound_to c none = false
is_bound_to c (some e) = c.lives e && e == c.thread

-- The caller may make the executor's transitions: the process and `is_executor()`.
abbrev pub is_executor : Caller → SubmissionQueue → Bool
is_executor c s = is_bound_to c s.executor

unfoldable pub find : SubmissionQueue → ℕ → ℕ → Option Entry
find s owner sequence =
    if not (owner == s.identity) || sequence == 0 then none else lookup sequence s.entries

abbrev pub of_generation : ℕ → Option Entry → Option Entry
of_generation generation none = none
of_generation generation (some e) =
    if not (e.generation == 0) && e.generation == generation then some e else none

unfoldable pub find_issue : SubmissionQueue → ExecutionIssueToken → Option Entry
unfolding find
find_issue s token = of_generation token.generation (find s token.owner token.sequence)

abbrev pub is_queued : Phase → Bool
is_queued queued = true
is_queued _ = false

abbrev pub is_issuing : Phase → Bool
is_issuing issuing = true
is_issuing resuming = true
is_issuing _ = false

-- `is_issuing()` of the queue
unfoldable pub any_issuing : Entries → Bool
any_issuing [] = false
any_issuing ((sequence, e) ∷ es) = is_issuing e.phase || any_issuing es

-- A write to an entry.
abbrev pub put_entry : ℕ → Entry → SubmissionQueue → SubmissionQueue
put_entry sequence e s = record s { entries = assign sequence e s.entries }

unfoldable pub collect : ℕ → Entry → SubmissionQueue → SubmissionQueue
collect sequence e s =
    if not e.is_acknowledged || not e.is_physically_stopped || e.is_releasing_payload
    then s
    else record s { entries = remove sequence s.entries }

abbrev pub payload_bytes : Option Payload → List ℕ
payload_bytes none = []
payload_bytes (some p) = p.parameters
