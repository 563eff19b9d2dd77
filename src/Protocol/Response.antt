-- ===== src/Protocol/Response.antt =====
-- Responses: `parse_task_protocol_response` and `format_task_protocol_response` of
-- src/control/task_protocol.cc.
pub mod Parse
pub mod Format
pub mod Carried
pub mod Lines
pub mod RoundTrip
use glimmer.Prelude.{
  ℕ, ◌+◌, Bool, true, false, not, ◌&&◌, ◌||◌, Option, none, some, List, [], ◌∷◌, ◌++◌, ◌==◌, ltb,
  leb, if◌then◌else◌, length, u64_max, u32_max, map,
}
use glimmer.Protocol.{
  Bytes, codes, bytes_eq, task_protocol_version, task_protocol_max_line_bytes,
  TaskProtocolParseError, unsupported_version, malformed, internal_error, line_too_long,
  ParseResult, parsed, refused, TokenList, split_tokens, strip_last, is_valid_tenant_id,
  parse_unsigned_integer, parse_positive_integer, to_string, line_of,
}
use glimmer.Protocol.Request.Format.{within_line, task_fields}

pub data TaskProtocolState : Type 0 where
  queued running completed cancelled failed : TaskProtocolState

pub data TaskProtocolErrorCode : Type 0 where
  invalid_request quota_exceeded queue_full unknown_task internal_failure version_unsupported :
      TaskProtocolErrorCode

pub data TaskProtocolResponseKind : Type 0 where
  accepted_kind state_kind error_kind lease_kind empty_kind stats_kind metrics_kind :
      TaskProtocolResponseKind

pub record TaskProtocolStats : Type 0 where
  pub total_task_count : ℕ
  pub queued_task_count : ℕ
  pub running_task_count : ℕ
  pub completed_task_count : ℕ
  pub cancelled_task_count : ℕ
  pub failed_task_count : ℕ
  pub quota_limit_bytes : ℕ
  pub quota_reserved_bytes : ℕ
  pub quota_allocated_bytes : ℕ
  pub max_running_tasks : ℕ
  pub max_queued_tasks : ℕ
  pub total_queue_wait_microseconds : ℕ
  pub max_queue_wait_microseconds : ℕ
  pub total_service_time_microseconds : ℕ
  pub max_service_time_microseconds : ℕ

pub record TaskProtocolResponse : Type 0 where
  pub kind : TaskProtocolResponseKind
  pub task_id : ℕ
  pub state : TaskProtocolState
  pub error : TaskProtocolErrorCode
  pub tenant_id : Bytes
  pub memory_bytes : ℕ
  pub weight : ℕ
  pub work_units : ℕ
  pub stats : TaskProtocolStats

abbrev pub ParsedResponse : Type 0
ParsedResponse = ParseResult TaskProtocolResponse

-- The members' default values.
abbrev pub no_stats : TaskProtocolStats
no_stats = record {
  total_task_count = 0;
  queued_task_count = 0;
  running_task_count = 0;
  completed_task_count = 0;
  cancelled_task_count = 0;
  failed_task_count = 0;
  quota_limit_bytes = 0;
  quota_reserved_bytes = 0;
  quota_allocated_bytes = 0;
  max_running_tasks = 0;
  max_queued_tasks = 0;
  total_queue_wait_microseconds = 0;
  max_queue_wait_microseconds = 0;
  total_service_time_microseconds = 0;
  max_service_time_microseconds = 0;
}

abbrev pub response_of : TaskProtocolResponseKind → TaskProtocolResponse
response_of kind = record {
  kind = kind;
  task_id = 0;
  state = queued;
  error = internal_failure;
  tenant_id = [];
  memory_bytes = 0;
  weight = 0;
  work_units = 0;
  stats = no_stats;
}

unfoldable pub parse_state : Bytes → Option TaskProtocolState
unfolding bytes_eq
parse_state token =
    if bytes_eq token (codes "QUEUED")
    then some queued
    else if bytes_eq token (codes "RUNNING")
    then some running
    else if bytes_eq token (codes "COMPLETED")
    then some completed
    else if bytes_eq token (codes "CANCELLED")
    then some cancelled
    else if bytes_eq token (codes "FAILED")
    then some failed
    else none

unfoldable pub parse_error_code : Bytes → Option TaskProtocolErrorCode
unfolding bytes_eq
parse_error_code token =
    if bytes_eq token (codes "INVALID_REQUEST")
    then some invalid_request
    else if bytes_eq token (codes "QUOTA_EXCEEDED")
    then some quota_exceeded
    else if bytes_eq token (codes "QUEUE_FULL")
    then some queue_full
    else if bytes_eq token (codes "UNKNOWN_TASK")
    then some unknown_task
    else if bytes_eq token (codes "INTERNAL_ERROR")
    then some internal_failure
    else if bytes_eq token (codes "UNSUPPORTED_VERSION")
    then some version_unsupported
    else none

abbrev pub state_token : TaskProtocolState → Bytes
state_token queued = codes "QUEUED"
state_token running = codes "RUNNING"
state_token completed = codes "COMPLETED"
state_token cancelled = codes "CANCELLED"
state_token failed = codes "FAILED"

abbrev pub error_token : TaskProtocolErrorCode → Bytes
error_token invalid_request = codes "INVALID_REQUEST"
error_token quota_exceeded = codes "QUOTA_EXCEEDED"
error_token queue_full = codes "QUEUE_FULL"
error_token unknown_task = codes "UNKNOWN_TASK"
error_token internal_failure = codes "INTERNAL_ERROR"
error_token version_unsupported = codes "UNSUPPORTED_VERSION"
