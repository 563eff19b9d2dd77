-- ===== src/Submission/Issue.antt =====
-- How the executor takes a command, prepares its parameters and continues a paused one: `take_next`,
-- the three `..._unissued_parameters`, `patch_issue_parameters`, `resume_after_physical_stop` and
-- `finish_continuation_issue` of src/backend/execution_submission_queue.cc.
use glimmer.Prelude.{
  ℕ, zero, suc, Bool, true, false, not, ◌&&◌, ◌||◌, Option, none, some, List, [], ◌∷◌, ◌==◌, ltb,
  if◌then◌else◌, u64_max, add64, sub64, length, is_some,
}
use glimmer.Submission.{
  ExecutionReceipt, ExecutionIssueToken, ExecutionIssue, Phase, issuing, host_returned, paused,
  resuming, Payload, Entry, Entries, SubmissionQueue, Caller, is_executor, find, find_issue,
  is_queued, is_issuing, any_issuing, put_entry, payload_bytes,
}
use glimmer.Submission.Accept.{seal}

-- The first `n` bytes, and those from `n` on.
abbrev pub first : ℕ → List ℕ → List ℕ
first zero xs = []
first (suc n) [] = []
first (suc n) (x ∷ xs) = x ∷ first n xs

-- `memmove(data + offset, bytes)` within the parameters.
abbrev pub overwrite : List ℕ → List ℕ → List ℕ
overwrite [] xs = xs
overwrite (b ∷ bs) [] = []
overwrite (b ∷ bs) (x ∷ xs) = b ∷ overwrite bs xs

abbrev pub overwrite_at : ℕ → List ℕ → List ℕ → List ℕ
overwrite_at zero bytes xs = overwrite bytes xs
overwrite_at (suc n) bytes [] = []
overwrite_at (suc n) bytes (x ∷ xs) = x ∷ overwrite_at n bytes xs

unfoldable pub issue : SubmissionQueue → ℕ → Entry → ExecutionIssue
issue s sequence e = record {
  receipt = record { owner = s.identity; sequence = sequence };
  token = record { owner = s.identity; sequence = sequence; generation = e.generation };
  operation = e.operation;
  context = e.context;
  stream = e.stream;
  parameters = first e.issue_parameter_bytes (payload_bytes e.payload);
}

-- The first queued entry.
unfoldable pub first_queued : Entries → Option (ℕ × Entry)
first_queued [] = none
first_queued ((sequence, e) ∷ es) =
    if is_queued e.phase then some (sequence, e) else first_queued es

abbrev pub if_queued : ℕ → Option Entry → Option (ℕ × Entry)
if_queued sequence none = none
if_queued sequence (some e) = if is_queued e.phase then some (sequence, e) else none

-- With a receipt, only its entry will do.
unfoldable pub selection : Option ExecutionReceipt → SubmissionQueue → Option (ℕ × Entry)
unfolding first_queued find
selection none s = first_queued s.entries
selection (some r) s = if_queued r.sequence (find s r.owner r.sequence)

abbrev pub started : Entry → Entry
started e = record e { phase = issuing; generation = 1 }

abbrev pub take_selected :
    Option (ℕ × Entry) → SubmissionQueue → SubmissionQueue × Option ExecutionIssue
take_selected none s = (s, none)
take_selected (some (sequence, e)) s =
    (put_entry sequence (started e) s, some (issue s sequence (started e)))

unfoldable pub take_next :
    Caller → Option ExecutionReceipt → SubmissionQueue → SubmissionQueue × Option ExecutionIssue
unfolding selection issue
take_next c receipt s =
    if not c.is_same_process || not (is_executor c s) || s.is_quarantined || any_issuing s.entries
    then (s, none)
    else take_selected (selection receipt s) s

-- The tests that the three preparations share.
abbrev pub is_prepared : Entry → Bool
is_prepared e =
    is_some e.payload
    && (is_queued e.phase && e.generation == 0)
    && (not (is_some e.reply) && not e.is_releasing_payload)

abbrev pub may_prepare : Caller → SubmissionQueue → Bool
may_prepare c s = c.is_same_process && is_executor c s && not s.is_quarantined

abbrev pub limit_found : Caller → ℕ → ℕ → Option Entry → SubmissionQueue → SubmissionQueue × Bool
limit_found c sequence bytes none s = (s, false)
limit_found c sequence bytes (some e) s =
    if not (may_prepare c s) || not (is_prepared e) || ltb e.issue_parameter_bytes bytes
    then (s, false)
    else (put_entry sequence (record e { issue_parameter_bytes = bytes }) s, true)

unfoldable pub limit_unissued_parameters :
    Caller → ExecutionReceipt → ℕ → SubmissionQueue → SubmissionQueue × Bool
unfolding find
limit_unissued_parameters c r bytes s = limit_found c r.sequence bytes (find s r.owner r.sequence) s

-- What is copied out; none if it is refused.
abbrev pub copy_found : Caller → ℕ → Option Entry → SubmissionQueue → Option (List ℕ)
copy_found c size none s = none
copy_found c size (some e) s =
    if not (may_prepare c s) || not (is_prepared e) || not (size == e.issue_parameter_bytes)
    then none
    else some (first size (payload_bytes e.payload))

unfoldable pub copy_unissued_parameters :
    Caller → ExecutionReceipt → ℕ → SubmissionQueue → Option (List ℕ)
unfolding find
copy_unissued_parameters c r size s = copy_found c size (find s r.owner r.sequence) s

abbrev pub rewrite_payload : (List ℕ → List ℕ) → Option Payload → Option Payload
rewrite_payload f none = none
rewrite_payload f (some p) = some (record p { parameters = f p.parameters })

abbrev pub replace_found :
    Caller → ℕ → List ℕ → Option Entry → SubmissionQueue → SubmissionQueue × Bool
replace_found c sequence input none s = (s, false)
replace_found c sequence input (some e) s =
    if not (may_prepare c s)
      || not (is_prepared e)
      || ltb (length (payload_bytes e.payload)) (length input)
    then (s, false)
    else (
      put_entry sequence
          (record e {
            payload = rewrite_payload (overwrite input) e.payload;
            issue_parameter_bytes = length input;
          })
          s,
      true,
    )

unfoldable pub replace_unissued_parameters :
    Caller → ExecutionReceipt → List ℕ → SubmissionQueue → SubmissionQueue × Bool
unfolding find
replace_unissued_parameters c r input s =
    replace_found c r.sequence input (find s r.owner r.sequence) s

abbrev pub patch_found :
    Caller → ℕ → ℕ → List ℕ → Option Entry → SubmissionQueue → SubmissionQueue × Bool
patch_found c sequence offset bytes none s = (s, false)
patch_found c sequence offset bytes (some e) s =
    if not (may_prepare c s)
      || not (is_some e.payload)
      || not (is_issuing e.phase)
      || length bytes == 0
      || ltb e.issue_parameter_bytes offset
      || ltb (sub64 e.issue_parameter_bytes offset) (length bytes)
    then (s, false)
    else (
      put_entry sequence
          (record e { payload = rewrite_payload (overwrite_at offset bytes) e.payload }) s,
      true,
    )

unfoldable pub patch_issue_parameters :
    Caller → ExecutionIssueToken → ℕ → List ℕ → SubmissionQueue → SubmissionQueue × Bool
unfolding find_issue
patch_issue_parameters c token offset bytes s =
    patch_found c token.sequence offset bytes (find_issue s token) s

abbrev pub is_paused : Phase → Bool
is_paused paused = true
is_paused _ = false

abbrev pub is_resuming : Phase → Bool
is_resuming resuming = true
is_resuming _ = false

abbrev pub resumed : Entry → Entry
resumed e = record e { phase = resuming; generation = add64 e.generation 1 }

-- A generation is never used twice: at the last one the queue is closed for good.
abbrev pub resume_found :
    Caller → ℕ → Option Entry → SubmissionQueue → SubmissionQueue × Option ExecutionIssue
resume_found c sequence none s = (s, none)
resume_found c sequence (some e) s =
    if not (may_prepare c s) || not (is_paused e.phase) || any_issuing s.entries
    then (s, none)
    else if e.generation == u64_max
    then (seal s, none)
    else (put_entry sequence (resumed e) s, some (issue s sequence (resumed e)))

unfoldable pub resume_after_physical_stop :
    Caller → ExecutionIssueToken → SubmissionQueue → SubmissionQueue × Option ExecutionIssue
unfolding find_issue issue
resume_after_physical_stop c token s = resume_found c token.sequence (find_issue s token) s

abbrev pub finish_found : Caller → ℕ → Option Entry → SubmissionQueue → SubmissionQueue × Bool
finish_found c sequence none s = (s, false)
finish_found c sequence (some e) s =
    if not c.is_same_process || not (is_executor c s) || not (is_resuming e.phase)
    then (s, false)
    else (put_entry sequence (record e { phase = host_returned }) s, true)

unfoldable pub finish_continuation_issue :
    Caller → ExecutionIssueToken → SubmissionQueue → SubmissionQueue × Bool
unfolding find_issue
finish_continuation_issue c token s = finish_found c token.sequence (find_issue s token) s
