-- ===== src/Protocol/Request/Format.antt =====
-- `format_task_protocol_request` of src/control/task_protocol.cc.
use glimmer.Prelude.{
  ℕ, not, ◌||◌, Option, none, some, List, [], ◌∷◌, ◌==◌, ltb, if◌then◌else◌, length,
}
use glimmer.Protocol.{
  Bytes, codes, task_protocol_max_line_bytes, max_wait_timeout_ms, TaskProtocolOperation, submit,
  acquire, cancel, query, claim, wait, heartbeat, complete, fail, stats, metrics,
  TaskAdmissionRequest, TaskProtocolRequest, is_valid_tenant_id, to_string, line_of,
}

-- The name of an operation, in the requests of every kind.
abbrev pub operation_name : TaskProtocolOperation → Bytes
operation_name submit = codes "SUBMIT"
operation_name acquire = codes "ACQUIRE"
operation_name cancel = codes "CANCEL"
operation_name query = codes "QUERY"
operation_name claim = codes "CLAIM"
operation_name wait = codes "WAIT"
operation_name heartbeat = codes "HEARTBEAT"
operation_name complete = codes "COMPLETE"
operation_name fail = codes "FAIL"
operation_name stats = codes "STATS"
operation_name metrics = codes "METRICS"

-- The fields after the name, if the request can be written.
unfoldable pub admission_fields : TaskAdmissionRequest → Option (List Bytes)
unfolding is_valid_tenant_id to_string
admission_fields a =
    if not (is_valid_tenant_id a.tenant_id)
      || a.memory_bytes == 0
      || a.weight == 0
      || a.work_units == 0
    then none
    else some (
        a.tenant_id
        ∷ to_string a.memory_bytes
        ∷ to_string a.weight
        ∷ to_string a.work_units
        ∷ (if a.priority == 0 then [] else to_string a.priority ∷ []))

unfoldable pub task_fields : ℕ → Option (List Bytes)
unfolding to_string
task_fields id = if id == 0 then none else some (to_string id ∷ [])

unfoldable pub fields_of : TaskProtocolRequest → TaskProtocolOperation → Option (List Bytes)
unfolding admission_fields task_fields to_string
fields_of r submit = admission_fields r.admission
fields_of r acquire = admission_fields r.admission
fields_of r claim = if r.task_id == 0 then some [] else some (to_string r.task_id ∷ [])
fields_of r wait =
    if r.task_id == 0 || r.wait_timeout_ms == 0 || ltb max_wait_timeout_ms r.wait_timeout_ms
    then none
    else some (to_string r.task_id ∷ to_string r.wait_timeout_ms ∷ [])
fields_of r stats = some []
fields_of r metrics = some []
fields_of r _ = task_fields r.task_id

abbrev pub within_line : Bytes → Option Bytes
within_line line = if ltb task_protocol_max_line_bytes (length line) then none else some line

abbrev pub format_fields : TaskProtocolOperation → Option (List Bytes) → Option Bytes
format_fields op none = none
format_fields op (some fields) = within_line (line_of (operation_name op ∷ fields))

unfoldable pub format_task_protocol_request : TaskProtocolRequest → Option Bytes
unfolding fields_of
format_task_protocol_request r = format_fields r.operation (fields_of r r.operation)
