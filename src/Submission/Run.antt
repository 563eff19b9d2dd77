-- ===== src/Submission/Run.antt =====
-- A submission queue under every interleaving of its methods. A method that retires a command
-- releases its payload in two later steps of its own thread (Submission/Release); between them the
-- bytes are in the thread's hands. Host storage is handed out and freed in any order.
use glimmer.Prelude.{ℕ, zero, suc, Option, none, some, List, [], ◌∷◌, get_elem?}
use glimmer.Submission.{
  ExecutionRequest, ExecutionReceipt, ExecutionIssueToken, ExecutionAcceptStatus, accepted,
  SubmissionQueue, Caller,
}
use glimmer.Submission.Accept.{bind_executor, allocate_host_storage, free_host_storage, accept}
use glimmer.Submission.Issue.{
  take_next, limit_unissued_parameters, replace_unissued_parameters, patch_issue_parameters,
  resume_after_physical_stop, finish_continuation_issue,
}
use glimmer.Submission.Settle.{
  publish_host_result, publish_preparation_failure, fail_uncertain_issue, reject_unissued,
  reject_before_native_issue, acknowledge_result, complete_after_physical_stop,
  pause_after_physical_stop, close, quarantine, shutdown,
}
use glimmer.Submission.Release.{detach_payload, finish_release}

pub record System : Type 0 where
  pub queue : SubmissionQueue
  -- the payloads that threads are destroying: the command and its bytes
  pub detached : List (ℕ × ℕ)
  -- the sizes of the host storage that is alive
  pub storage : List ℕ

-- The methods under the lock.
pub data Method : Type 0 where
  binds : Method
  accepts : ℕ → ExecutionRequest → Method
  takes : Option ExecutionReceipt → Method
  limits_parameters : ExecutionReceipt → ℕ → Method
  replaces : ExecutionReceipt → List ℕ → Method
  patches : ExecutionIssueToken → ℕ → List ℕ → Method
  publishes fails_preparation fails_uncertain rejects_issue : ExecutionIssueToken → ℕ → Method
  rejects : ExecutionReceipt → ℕ → Method
  acknowledges : ExecutionReceipt → Method
  completes pauses resumes finishes : ExecutionIssueToken → Method
  closes quarantines shuts_down : Method

-- A step: a method, one of the two sections of the release of a command's payload, the second by
-- the place of the bytes, or the birth and the end of host storage.
pub data Call : Type 0 where
  calls : Method → Call
  detaches : ℕ → Call
  releases : ℕ → Call
  allocates : ℕ → Call
  frees : ℕ → Call

abbrev pub drop_at {ℓ} : {A : Type ℓ} → List A → ℕ → List A
drop_at [] i = []
drop_at (x ∷ xs) zero = xs
drop_at (x ∷ xs) (suc i) = x ∷ drop_at xs i

abbrev pub kept_storage : ℕ → List ℕ → ExecutionAcceptStatus → List ℕ
kept_storage bytes storage accepted = bytes ∷ storage
kept_storage bytes storage _ = storage

abbrev pub free_at : ℕ → Option ℕ → System → System
free_at i none s = s
free_at i (some bytes) s = record s {
  queue = free_host_storage bytes s.queue;
  storage = drop_at s.storage i;
}

abbrev pub kept_bytes : ℕ → List (ℕ × ℕ) → Option ℕ → List (ℕ × ℕ)
kept_bytes sequence detached none = detached
kept_bytes sequence detached (some bytes) = (sequence, bytes) ∷ detached

abbrev pub detached_to : ℕ → System → SubmissionQueue × Option ℕ → System
detached_to sequence s (q, bytes) = record s {
  queue = q;
  detached = kept_bytes sequence s.detached bytes;
}

abbrev pub release_at : ℕ → Option (ℕ × ℕ) → System → System
release_at i none s = s
release_at i (some (sequence, bytes)) s = record s {
  queue = finish_release sequence bytes s.queue;
  detached = drop_at s.detached i;
}

-- What a method makes of the queue.
unfoldable pub transition : Caller → Method → SubmissionQueue → SubmissionQueue
transition c binds q = (bind_executor c q).0
transition c (accepts sequence r) q = (accept c sequence r q).0
transition c (takes receipt) q = (take_next c receipt q).0
transition c (limits_parameters r bytes) q = (limit_unissued_parameters c r bytes q).0
transition c (replaces r input) q = (replace_unissued_parameters c r input q).0
transition c (patches token offset bytes) q = (patch_issue_parameters c token offset bytes q).0
transition c (publishes token status) q = (publish_host_result c token status q).0
transition c (fails_preparation token status) q = (publish_preparation_failure c token status q).0
transition c (fails_uncertain token status) q = (fail_uncertain_issue c token status q).0
transition c (rejects_issue token status) q = (reject_before_native_issue c token status q).0
transition c (rejects r status) q = (reject_unissued c r status q).0
transition c (acknowledges r) q = (acknowledge_result c r q).0
transition c (completes token) q = (complete_after_physical_stop c token q).0
transition c (pauses token) q = (pause_after_physical_stop c token q).0
transition c (resumes token) q = (resume_after_physical_stop c token q).0
transition c (finishes token) q = (finish_continuation_issue c token q).0
transition c closes q = close c q
transition c quarantines q = quarantine c q
transition c shuts_down q = (shutdown c q).0

unfoldable pub step : Caller → Call → System → System
unfolding transition
step c (calls method) s = record s { queue = transition c method s.queue }
step c (detaches sequence) s = detached_to sequence s (detach_payload sequence s.queue)
step c (releases i) s = release_at i (get_elem? s.detached i) s
step c (allocates bytes) s = record s {
  queue = (allocate_host_storage c bytes s.queue).0;
  storage = kept_storage bytes s.storage (allocate_host_storage c bytes s.queue).1;
}
step c (frees i) s = free_at i (get_elem? s.storage i) s

unfoldable pub run : List (Caller × Call) → System → System
unfolding step
run [] s = s
run ((c, call) ∷ rest) s = run rest (step c call s)

abbrev pub initial : SubmissionQueue → System
initial q = record { queue = q; detached = []; storage = [] }
