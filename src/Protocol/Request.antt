-- ===== src/Protocol/Request.antt =====
-- Requests: `parse_task_protocol_request` of src/control/task_protocol.cc.
pub mod Format
use glimmer.Prelude.{
  ℕ, Bool, not, ◌||◌, Option, none, some, List, [], ◌∷◌, ◌==◌, ltb, if◌then◌else◌, length, u64_max,
  u32_max,
}
use glimmer.Protocol.{
  Bytes, codes, bytes_eq, task_protocol_version, task_protocol_max_line_bytes, max_wait_timeout_ms,
  TaskProtocolOperation, submit, acquire, cancel, query, claim, wait, heartbeat, complete, fail,
  stats, metrics, empty, line_too_long, unsupported_version, malformed, invalid_tenant,
  invalid_value, internal_error, ParseResult, parsed, refused, TaskAdmissionRequest,
  TaskProtocolRequest, split_tokens, strip_last, is_valid_tenant_id, parse_unsigned_integer,
  parse_positive_integer, to_string, line_of,
}

abbrev pub Parsed : Type 0
Parsed = ParseResult TaskProtocolRequest

-- The members' default values.
abbrev pub no_admission : TaskAdmissionRequest
no_admission = record { tenant_id = []; memory_bytes = 0; weight = 1; work_units = 1; priority = 0 }

abbrev pub operation_request : TaskProtocolOperation → TaskProtocolRequest
operation_request op = record {
  operation = op;
  admission = no_admission;
  task_id = 0;
  wait_timeout_ms = 0;
}

abbrev pub priority_of : List Bytes → Option ℕ
priority_of [] = some 0
priority_of (token ∷ ts) = parse_unsigned_integer u32_max token

abbrev pub admitted :
    TaskProtocolOperation → Bytes → Option ℕ → Option ℕ → Option ℕ → Option ℕ → Parsed
admitted op tenant (some memory) (some weight) (some units) (some priority) =
    parsed (record (operation_request op) {
      admission = record {
        tenant_id = tenant;
        memory_bytes = memory;
        weight = weight;
        work_units = units;
        priority = priority;
      };
    })
admitted op tenant _ _ _ _ = refused invalid_value

-- `allocation_throws` is for the copy of the tenant's name.
unfoldable pub parse_fields :
    Bool → TaskProtocolOperation → Bytes → Bytes → Bytes → Bytes → List Bytes → Parsed
unfolding is_valid_tenant_id parse_unsigned_integer parse_positive_integer
parse_fields allocation_throws op tenant memory weight units optional =
    if not (is_valid_tenant_id tenant)
    then refused invalid_tenant
    else if allocation_throws
    then refused internal_error
    else admitted op tenant (parse_positive_integer u64_max memory)
        (parse_positive_integer u32_max weight) (parse_positive_integer u32_max units)
        (priority_of optional)

abbrev pub parse_admission : Bool → TaskProtocolOperation → List Bytes → Parsed
parse_admission allocation_throws op (t ∷ m ∷ w ∷ u ∷ []) =
    parse_fields allocation_throws op t m w u []
parse_admission allocation_throws op (t ∷ m ∷ w ∷ u ∷ p ∷ []) =
    parse_fields allocation_throws op t m w u (p ∷ [])
parse_admission allocation_throws op _ = refused malformed

abbrev pub claimed : Option ℕ → Parsed
claimed none = refused malformed
claimed (some id) =
    if id == 0
    then refused invalid_value
    else parsed (record (operation_request claim) { task_id = id })

unfoldable pub parse_claim : List Bytes → Parsed
unfolding parse_unsigned_integer
parse_claim [] = parsed (operation_request claim)
parse_claim (id ∷ []) = claimed (parse_unsigned_integer u64_max id)
parse_claim _ = refused malformed

abbrev pub waited : Option ℕ → Option ℕ → Parsed
waited (some id) (some ms) =
    if ltb max_wait_timeout_ms ms
    then refused invalid_value
    else parsed (record (operation_request wait) { task_id = id; wait_timeout_ms = ms })
waited _ _ = refused invalid_value

unfoldable pub parse_wait : List Bytes → Parsed
unfolding parse_positive_integer
parse_wait (id ∷ ms ∷ []) =
    waited (parse_positive_integer u64_max id) (parse_positive_integer u32_max ms)
parse_wait _ = refused malformed

abbrev pub parse_bare : TaskProtocolOperation → List Bytes → Parsed
parse_bare op [] = parsed (operation_request op)
parse_bare op _ = refused malformed

unfoldable pub task_operation : Bytes → Option TaskProtocolOperation
unfolding bytes_eq
task_operation name =
    if bytes_eq name (codes "CANCEL")
    then some cancel
    else if bytes_eq name (codes "QUERY")
    then some query
    else if bytes_eq name (codes "HEARTBEAT")
    then some heartbeat
    else if bytes_eq name (codes "COMPLETE")
    then some complete
    else if bytes_eq name (codes "FAIL")
    then some fail
    else none

abbrev pub for_task : Option TaskProtocolOperation → Option ℕ → Parsed
for_task op none = refused invalid_value
for_task none (some id) = refused malformed
for_task (some op) (some id) = parsed (record (operation_request op) { task_id = id })

unfoldable pub parse_task : Bytes → List Bytes → Parsed
unfolding task_operation parse_positive_integer
parse_task name (id ∷ []) = for_task (task_operation name) (parse_positive_integer u64_max id)
parse_task name _ = refused malformed

unfoldable pub parse_operation : Bool → Bytes → List Bytes → Parsed
unfolding bytes_eq parse_claim parse_wait parse_task parse_fields
parse_operation allocation_throws name fields =
    if bytes_eq name (codes "SUBMIT")
    then parse_admission allocation_throws submit fields
    else if bytes_eq name (codes "ACQUIRE")
    then parse_admission allocation_throws acquire fields
    else if bytes_eq name (codes "CLAIM")
    then parse_claim fields
    else if bytes_eq name (codes "WAIT")
    then parse_wait fields
    else if bytes_eq name (codes "STATS")
    then parse_bare stats fields
    else if bytes_eq name (codes "METRICS")
    then parse_bare metrics fields
    else parse_task name fields

abbrev pub parse_versioned : Bool → List Bytes → Parsed
parse_versioned allocation_throws [] = refused malformed
parse_versioned allocation_throws (name ∷ fields) = parse_operation allocation_throws name fields

abbrev pub parse_tokens : Bool → List Bytes → Bool → Parsed
parse_tokens allocation_throws [] overflow = refused empty
parse_tokens allocation_throws (version ∷ ts) overflow =
    if overflow
    then refused malformed
    else if not (bytes_eq version task_protocol_version)
    then refused unsupported_version
    else parse_versioned allocation_throws ts

unfoldable pub parse_task_protocol_request : Bool → Bytes → Parsed
unfolding split_tokens strip_last parse_operation bytes_eq
parse_task_protocol_request allocation_throws line =
    if ltb task_protocol_max_line_bytes (length line)
    then refused line_too_long
    else let tokens = split_tokens (strip_last 13 (strip_last 10 line)) in
      parse_tokens allocation_throws tokens.values tokens.overflow
