-- ===== src/Protocol/Response/Format.antt =====
-- `format_task_protocol_response` of src/control/task_protocol.cc.
use glimmer.Prelude.{ℕ, not, ◌||◌, Option, none, some, List, [], ◌∷◌, ◌++◌, ◌==◌, if◌then◌else◌}
use glimmer.Protocol.{Bytes, codes, is_valid_tenant_id, to_string, line_of}
use glimmer.Protocol.Request.Format.{within_line, task_fields}
use glimmer.Protocol.Response.{
  TaskProtocolResponseKind, accepted_kind, state_kind, error_kind, lease_kind, empty_kind,
  stats_kind, metrics_kind, TaskProtocolStats, TaskProtocolResponse, state_token, error_token,
}

unfoldable pub strings_of : List ℕ → List Bytes
unfolding to_string
strings_of [] = []
strings_of (n ∷ ns) = to_string n ∷ strings_of ns

abbrev pub counts_of : TaskProtocolStats → List ℕ
counts_of s =
    s.total_task_count ∷ s.queued_task_count ∷ s.running_task_count ∷ s.completed_task_count
    ∷ s.cancelled_task_count ∷ s.failed_task_count ∷ s.quota_limit_bytes ∷ s.quota_reserved_bytes
    ∷ s.quota_allocated_bytes ∷ s.max_running_tasks ∷ s.max_queued_tasks ∷ []

abbrev pub times_of : TaskProtocolStats → List ℕ
times_of s =
    s.total_queue_wait_microseconds ∷ s.max_queue_wait_microseconds
    ∷ s.total_service_time_microseconds ∷ s.max_service_time_microseconds ∷ []

abbrev pub named : Bytes → Option (List Bytes) → Option Bytes
named name none = none
named name (some fields) = some (line_of (name ∷ fields))

unfoldable pub format_lease : TaskProtocolResponse → Option Bytes
unfolding is_valid_tenant_id to_string
format_lease r =
    if r.task_id == 0
      || not (is_valid_tenant_id r.tenant_id)
      || r.memory_bytes == 0
      || r.weight == 0
      || r.work_units == 0
    then none
    else within_line (
        line_of (
          codes "LEASE"
          ∷ to_string r.task_id
          ∷ r.tenant_id
          ∷ to_string r.memory_bytes
          ∷ to_string r.weight
          ∷ to_string r.work_units
          ∷ []))

unfoldable pub format_by : TaskProtocolResponse → TaskProtocolResponseKind → Option Bytes
unfolding task_fields format_lease strings_of to_string
format_by r accepted_kind = named (codes "OK") (task_fields r.task_id)
format_by r empty_kind = some (line_of (codes "EMPTY" ∷ []))
format_by r lease_kind = format_lease r
format_by r state_kind =
    if r.task_id == 0
    then none
    else some (line_of (codes "STATE" ∷ to_string r.task_id ∷ state_token r.state ∷ []))
format_by r stats_kind = within_line (line_of (codes "STATS" ∷ strings_of (counts_of r.stats)))
format_by r metrics_kind =
    within_line (line_of (codes "METRICS" ∷ strings_of (counts_of r.stats ++ times_of r.stats)))
format_by r error_kind = some (line_of (codes "ERROR" ∷ error_token r.error ∷ []))

unfoldable pub format_task_protocol_response : TaskProtocolResponse → Option Bytes
unfolding format_by
format_task_protocol_response r = format_by r r.kind
