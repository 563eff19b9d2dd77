-- ===== src/Submission/Accept.antt =====
-- `bind_executor`, `allocate_host_storage` and `accept` of
-- src/backend/execution_submission_queue.cc.
use glimmer.Prelude.{
  ℕ, zero, suc, Bool, true, false, not, ◌&&◌, ◌||◌, Option, none, some, List, [], ◌∷◌, ◌++◌, ◌==◌,
  ltb, leb, if◌then◌else◌, u64_max, add64, sub64, length, is_some,
}
use glimmer.Submission.{
  ExecutionRequest, ExecutionReceipt, ExecutionAcceptStatus, accepted, invalid, wrong_sequence,
  wrong_process, full, closed, quarantined, out_of_memory, queued, Entry, SubmissionQueue, Caller,
  is_expired, is_executor,
}

abbrev pub seal : SubmissionQueue → SubmissionQueue
seal s = record s { is_quarantined = true; is_closing = true }

abbrev pub is_empty {ℓ} : {A : Type ℓ} → List A → Bool
is_empty [] = true
is_empty (x ∷ xs) = false

-- A thread's lifetime is made before the lock, which may throw.
unfoldable pub bind_executor : Caller → SubmissionQueue → SubmissionQueue × Bool
bind_executor c s =
    if not c.is_same_process || c.allocation_throws || (s.is_closing && is_empty s.entries)
    then (s, false)
    else if s.has_bound_executor
    then (if is_expired c s.executor then seal s else s, is_executor c s)
    else (record s { executor = some c.thread; has_bound_executor = true }, true)

-- The bytes of storage that is handed out, if any, are charged.
unfoldable pub allocate_host_storage :
    Caller → ℕ → SubmissionQueue → SubmissionQueue × ExecutionAcceptStatus
allocate_host_storage c bytes s =
    if not c.is_same_process
    then (s, wrong_process)
    else if not (is_executor c s) || bytes == 0
    then (s, invalid)
    else if s.is_quarantined
    then (s, quarantined)
    else if s.is_closing
    then (s, closed)
    else if ltb s.limits.max_retained_host_bytes bytes
    then (s, out_of_memory)
    else if ltb (sub64 s.limits.max_retained_host_bytes s.host_bytes) bytes
    then (s, full)
    else if c.allocation_throws
    then (s, out_of_memory)
    else (record s { host_bytes = add64 s.host_bytes bytes }, accepted)

-- The destruction of storage, on any thread.
unfoldable pub free_host_storage : ℕ → SubmissionQueue → SubmissionQueue
free_host_storage bytes s = record s { host_bytes = sub64 s.host_bytes bytes }

abbrev pub capacity_of : ExecutionRequest → ℕ
capacity_of r =
    if r.parameter_capacity_bytes == 0 then length r.parameters else r.parameter_capacity_bytes

abbrev pub is_invalid_request : ℕ → ExecutionRequest → Bool
is_invalid_request sequence r =
    sequence == 0
    || r.operation == 0
    || r.context == 0
    || not (is_some r.lifetime)
    || ltb (capacity_of r) (length r.parameters)

-- `resize(capacity)` after the copy: the rest is zero bytes.
abbrev pub zeros : ℕ → List ℕ
zeros zero = []
zeros (suc n) = 0 ∷ zeros n

abbrev pub resized : ℕ → List ℕ → List ℕ
resized zero xs = []
resized (suc n) [] = 0 ∷ zeros n
resized (suc n) (x ∷ xs) = x ∷ resized n xs

unfoldable pub new_entry : ExecutionRequest → Entry
new_entry r = record {
  generation = 0;
  operation = r.operation;
  context = r.context;
  stream = r.stream;
  phase = queued;
  reply = none;
  payload =
      some (record { parameters = resized (capacity_of r) r.parameters; lifetime = r.lifetime });
  issue_parameter_bytes = length r.parameters;
  is_acknowledged = false;
  is_physically_stopped = false;
  is_releasing_payload = false;
}

-- A bound executor that has ended closes the queue for good.
abbrev pub note_lost_executor : Caller → SubmissionQueue → SubmissionQueue
note_lost_executor c s = if s.has_bound_executor && is_expired c s.executor then seal s else s

-- The tests under the lock: none if the request is to be entered.
unfoldable pub refusal : ℕ → ℕ → SubmissionQueue → Option ExecutionAcceptStatus
refusal sequence capacity s =
    if s.is_quarantined
    then some quarantined
    else if s.is_closing
    then some closed
    else if not s.has_sequence_space || not (sequence == s.next_sequence)
    then some wrong_sequence
    else if ltb s.limits.max_parameter_bytes capacity
    then some out_of_memory
    else if leb s.limits.max_commands (length s.entries)
        || ltb (sub64 s.limits.max_parameter_bytes s.parameter_bytes) capacity
    then some full
    else none

unfoldable pub enter : ℕ → ExecutionRequest → SubmissionQueue → SubmissionQueue
unfolding new_entry
enter sequence r s = record s {
  entries = s.entries ++ (sequence, new_entry r) ∷ [];
  parameter_bytes = add64 s.parameter_bytes (capacity_of r);
  has_sequence_space = if sequence == u64_max then false else s.has_sequence_space;
  next_sequence = if sequence == u64_max then s.next_sequence else add64 s.next_sequence 1;
}

abbrev pub receipt_of : SubmissionQueue → ℕ → ExecutionReceipt
receipt_of s sequence = record { owner = s.identity; sequence = sequence }

abbrev pub accept_checked :
    Caller
    → ℕ
    → ExecutionRequest
    → Option ExecutionAcceptStatus
    → SubmissionQueue
    → SubmissionQueue × ExecutionAcceptStatus × Option ExecutionReceipt
accept_checked c sequence r (some status) s = (s, status, none)
accept_checked c sequence r none s =
    if c.allocation_throws
    then (s, out_of_memory, none)
    else (enter sequence r s, accepted, some (receipt_of s sequence))

unfoldable pub accept :
    Caller
    → ℕ
    → ExecutionRequest
    → SubmissionQueue
    → SubmissionQueue × ExecutionAcceptStatus × Option ExecutionReceipt
unfolding refusal enter
accept c sequence r s =
    if not c.is_same_process
    then (s, wrong_process, none)
    else if is_invalid_request sequence r
    then (s, invalid, none)
    else let t = note_lost_executor c s in
      accept_checked c sequence r (refusal sequence (capacity_of r) t) t
