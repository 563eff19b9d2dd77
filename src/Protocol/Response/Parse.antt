-- ===== src/Protocol/Response/Parse.antt =====
-- `parse_task_protocol_response` of src/control/task_protocol.cc.
use glimmer.Prelude.{
  ℕ, Bool, not, Option, none, some, List, [], ◌∷◌, ltb, if◌then◌else◌, length, u64_max, u32_max,
}
use glimmer.Protocol.{
  Bytes, codes, bytes_eq, task_protocol_version, task_protocol_max_line_bytes,
  TaskProtocolParseError, unsupported_version, malformed, internal_error, line_too_long, parsed,
  refused, split_tokens, strip_last, is_valid_tenant_id, parse_unsigned_integer,
  parse_positive_integer,
}
use glimmer.Protocol.Response.{
  TaskProtocolState, TaskProtocolErrorCode, TaskProtocolResponseKind, accepted_kind, state_kind,
  error_kind, lease_kind, empty_kind, stats_kind, metrics_kind, TaskProtocolStats, no_stats,
  response_of, ParsedResponse, parse_state, parse_error_code,
}

abbrev pub cons_number : Option ℕ → Option (List ℕ) → Option (List ℕ)
cons_number (some n) (some ns) = some (n ∷ ns)
cons_number _ _ = none

unfoldable pub parse_numbers : List Bytes → Option (List ℕ)
unfolding parse_unsigned_integer
parse_numbers [] = some []
parse_numbers (t ∷ ts) = cons_number (parse_unsigned_integer u64_max t) (parse_numbers ts)

-- Eleven numbers, or fifteen.
abbrev pub stats_of : List ℕ → Option TaskProtocolStats
stats_of (a ∷ b ∷ c ∷ d ∷ e ∷ f ∷ g ∷ h ∷ i ∷ j ∷ k ∷ []) = some (record no_stats {
  total_task_count = a;
  queued_task_count = b;
  running_task_count = c;
  completed_task_count = d;
  cancelled_task_count = e;
  failed_task_count = f;
  quota_limit_bytes = g;
  quota_reserved_bytes = h;
  quota_allocated_bytes = i;
  max_running_tasks = j;
  max_queued_tasks = k;
})
stats_of (a ∷ b ∷ c ∷ d ∷ e ∷ f ∷ g ∷ h ∷ i ∷ j ∷ k ∷ l ∷ m ∷ n ∷ o ∷ []) = some (record {
  total_task_count = a;
  queued_task_count = b;
  running_task_count = c;
  completed_task_count = d;
  cancelled_task_count = e;
  failed_task_count = f;
  quota_limit_bytes = g;
  quota_reserved_bytes = h;
  quota_allocated_bytes = i;
  max_running_tasks = j;
  max_queued_tasks = k;
  total_queue_wait_microseconds = l;
  max_queue_wait_microseconds = m;
  total_service_time_microseconds = n;
  max_service_time_microseconds = o;
})
stats_of _ = none

abbrev pub stats_of? : Option (List ℕ) → Option TaskProtocolStats
stats_of? none = none
stats_of? (some ns) = stats_of ns

abbrev pub with_stats : TaskProtocolResponseKind → Option TaskProtocolStats → ParsedResponse
with_stats kind none = refused malformed
with_stats kind (some stats) = parsed (record (response_of kind) { stats = stats })

unfoldable pub parse_stats : Bytes → List Bytes → ParsedResponse
unfolding bytes_eq parse_numbers
parse_stats name fields =
    if bytes_eq name (codes "STATS")
    then with_stats stats_kind (stats_of? (parse_numbers fields))
    else if bytes_eq name (codes "METRICS")
    then with_stats metrics_kind (stats_of? (parse_numbers fields))
    else refused malformed

abbrev pub with_id : Option ℕ → ParsedResponse
with_id none = refused malformed
with_id (some id) = parsed (record (response_of accepted_kind) { task_id = id })

abbrev pub with_error : Option TaskProtocolErrorCode → ParsedResponse
with_error none = refused malformed
with_error (some code) = parsed (record (response_of error_kind) { error = code })

abbrev pub with_state : Option ℕ → Option TaskProtocolState → ParsedResponse
with_state (some id) (some state) =
    parsed (record (response_of state_kind) { task_id = id; state = state })
with_state _ _ = refused malformed

-- The copy of the tenant's name comes last, and may throw.
abbrev pub leased : Bool → Bytes → Option ℕ → Option ℕ → Option ℕ → Option ℕ → ParsedResponse
leased allocation_throws tenant (some id) (some memory) (some weight) (some units) =
    if not (is_valid_tenant_id tenant)
    then refused malformed
    else if allocation_throws
    then refused internal_error
    else parsed (record (response_of lease_kind) {
      task_id = id;
      tenant_id = tenant;
      memory_bytes = memory;
      weight = weight;
      work_units = units;
    })
leased allocation_throws tenant _ _ _ _ = refused malformed

-- What follows the version and the name, by the number of fields.
unfoldable pub parse_response_fields : Bool → Bytes → List Bytes → ParsedResponse
unfolding bytes_eq parse_positive_integer parse_state parse_error_code parse_stats
parse_response_fields allocation_throws name [] =
    if bytes_eq name (codes "EMPTY") then parsed (response_of empty_kind) else refused malformed
parse_response_fields allocation_throws name (t ∷ []) =
    if bytes_eq name (codes "OK")
    then with_id (parse_positive_integer u64_max t)
    else if bytes_eq name (codes "ERROR")
    then with_error (parse_error_code t)
    else refused malformed
parse_response_fields allocation_throws name (t ∷ u ∷ []) =
    if bytes_eq name (codes "STATE")
    then with_state (parse_positive_integer u64_max t) (parse_state u)
    else refused malformed
parse_response_fields allocation_throws name (t ∷ n ∷ m ∷ w ∷ u ∷ []) =
    if bytes_eq name (codes "LEASE")
    then leased allocation_throws n (parse_positive_integer u64_max t)
        (parse_positive_integer u64_max m) (parse_positive_integer u32_max w)
        (parse_positive_integer u32_max u)
    else refused malformed
parse_response_fields allocation_throws name fields = parse_stats name fields

abbrev pub parse_response_tokens : Bool → List Bytes → Bool → ParsedResponse
parse_response_tokens allocation_throws [] overflow = refused TaskProtocolParseError.empty
parse_response_tokens allocation_throws (version ∷ []) overflow =
    if overflow
    then refused malformed
    else if not (bytes_eq version task_protocol_version)
    then refused unsupported_version
    else refused malformed
parse_response_tokens allocation_throws (version ∷ name ∷ fields) overflow =
    if overflow
    then refused malformed
    else if not (bytes_eq version task_protocol_version)
    then refused unsupported_version
    else parse_response_fields allocation_throws name fields

unfoldable pub parse_task_protocol_response : Bool → Bytes → ParsedResponse
unfolding split_tokens strip_last parse_response_fields bytes_eq
parse_task_protocol_response allocation_throws line =
    if ltb task_protocol_max_line_bytes (length line)
    then refused line_too_long
    else let tokens = split_tokens (strip_last 13 (strip_last 10 line)) in
      parse_response_tokens allocation_throws tokens.values tokens.overflow
