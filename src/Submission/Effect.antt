-- ===== src/Submission/Effect.antt =====
-- What a method of src/backend/execution_submission_queue.cc does to the queue, in the few ways
-- that all of them share: it opens or closes it, enters a command, edits one, starts or continues
-- one, or drops it.
pub mod Issuing
pub mod Taking
pub mod Settling
pub mod Dropping
pub mod Methods
use glimmer.Prelude.{
  ℕ, ◌+◌, ◌≤◌, ◌≡◌, ◌≢◌, ◌⊎◌, inl, inr, refl, Bool, true, false, not, ◌&&◌, ◌||◌, Option, none,
  some, List, arith, ◌==◌, leb, if◌then◌else◌, u64_max, lookup, remove, nat_eq, length, is_some,
  Option-cases, Bool-cases,
}
use glimmer.Submission.{
  ExecutionRequest, Phase, queued, issuing, host_returned, paused, resuming, Payload, Entry,
  SubmissionQueue, any_issuing, put_entry, payload_bytes, is_queued, find, find_issue,
  ExecutionIssueToken, of_generation,
}
use glimmer.Submission.Accept.{enter, refusal, is_invalid_request, capacity_of, seal}
use glimmer.Submission.Issue.{started, resumed, is_paused}
use glimmer.Submission.Settle.{is_success}

-- A command as a client sees it: waiting, running, answered, suspended after its answer,
-- continuing, or over, when the device does nothing more for it.
pub data Status : Type 0 where
  waiting running answered suspended continuing over : Status

abbrev pub status_in : Phase → Bool → Status
status_in queued stopped = waiting
status_in issuing stopped = running
status_in host_returned stopped = if stopped then over else answered
status_in paused stopped = suspended
status_in resuming stopped = continuing

abbrev pub status_of : Entry → Status
status_of e = status_in e.phase e.is_physically_stopped

-- The moves of a command other than being started or continued.
abbrev pub may_move : Status → Status → Bool
may_move waiting waiting = true
may_move waiting over = true
may_move running running = true
may_move running answered = true
may_move running over = true
may_move answered answered = true
may_move answered suspended = true
may_move answered over = true
may_move suspended suspended = true
may_move continuing continuing = true
may_move continuing answered = true
may_move over over = true
may_move _ _ = false

-- The payload is there, and what is to be issued of it is within it.
abbrev pub is_live : Entry → Bool
is_live e =
    is_some e.payload
    && not e.is_physically_stopped
    && not e.is_releasing_payload
    && leb e.issue_parameter_bytes (length (payload_bytes e.payload))

abbrev pub is_spent : Entry → Bool
is_spent e = e.is_physically_stopped && not (is_some e.payload)

abbrev pub is_coherent_in : Phase → Entry → Bool
is_coherent_in queued e =
    is_live e && e.generation == 0 && not (is_some e.reply) && not e.is_acknowledged
is_coherent_in issuing e =
    is_live e && e.generation == 1 && not (is_some e.reply) && not e.is_acknowledged
is_coherent_in host_returned e =
    is_some e.reply
    && ((is_live e && not (e.generation == 0))
        || (e.is_physically_stopped && (e.is_releasing_payload || not (is_some e.payload))))
is_coherent_in paused e = is_live e && is_success e.reply && not (e.generation == 0)
is_coherent_in resuming e = is_live e && is_success e.reply && not (e.generation == 0)

-- What holds of an entry at all times.
abbrev pub is_coherent : Entry → Bool
is_coherent e = leb e.generation u64_max && is_coherent_in e.phase e

pub record IsEdit (e e' : Entry) : Type 0 where
  pub coherent : is_coherent e' ≡ true
  pub bytes : length (payload_bytes e'.payload) ≡ length (payload_bytes e.payload)
  pub moves : may_move (status_of e) (status_of e') ≡ true
  pub spent : not (is_spent e) || is_spent e' ≡ true
  pub reply : (e.reply ≡ none) ⊎ (e'.reply ≡ e.reply)
  pub generation : e'.generation ≡ e.generation

pub data Effect : SubmissionQueue → SubmissionQueue → Type 0 where
  idles : {s t : SubmissionQueue} → t ≡ s → Effect s t
  binds :
      {s t : SubmissionQueue} (thread : ℕ)
      → t ≡ record s { executor = some thread; has_bound_executor = true }
      → Effect s t
  closes : {s t : SubmissionQueue} → t ≡ record s { is_closing = true } → Effect s t
  seals : {s t : SubmissionQueue} → t ≡ seal s → Effect s t
  enters :
      {s t : SubmissionQueue} (sequence : ℕ) (r : ExecutionRequest)
      → is_invalid_request sequence r ≡ false
      → refusal sequence (capacity_of r) s ≡ none
      → t ≡ enter sequence r s
      → Effect s t
  edits :
      {s t : SubmissionQueue} (sequence : ℕ) (e e' : Entry)
      → lookup sequence s.entries ≡ some e
      → IsEdit e e'
      → t ≡ put_entry sequence e' s
      → Effect s t
  edits_seals :
      {s t : SubmissionQueue} (sequence : ℕ) (e e' : Entry)
      → lookup sequence s.entries ≡ some e
      → IsEdit e e'
      → t ≡ seal (put_entry sequence e' s)
      → Effect s t
  starts :
      {s t : SubmissionQueue} (sequence : ℕ) (e : Entry)
      → lookup sequence s.entries ≡ some e
      → is_queued e.phase ≡ true
      → any_issuing s.entries ≡ false
      → s.is_quarantined ≡ false
      → t ≡ put_entry sequence (started e) s
      → Effect s t
  continues :
      {s t : SubmissionQueue} (sequence : ℕ) (e : Entry)
      → lookup sequence s.entries ≡ some e
      → is_paused e.phase ≡ true
      → e.generation ≢ u64_max
      → any_issuing s.entries ≡ false
      → s.is_quarantined ≡ false
      → t ≡ put_entry sequence (resumed e) s
      → Effect s t
  -- An entry that is stopped, acknowledged and without payload goes; its last edit is with it.
  drops :
      {s t : SubmissionQueue} (sequence : ℕ) (e e' : Entry)
      → lookup sequence s.entries ≡ some e
      → IsEdit e e'
      → is_spent e' && e'.is_acknowledged ≡ true
      → status_of e ≡ over
      → t ≡ record (put_entry sequence e' s) {
        entries = remove sequence (put_entry sequence e' s).entries;
      }
      → Effect s t

pub find_cases :
    (s : SubmissionQueue) (owner k : ℕ)
    → (find s owner k ≡ none)
      ⊎ ((e : Entry) × (find s owner k ≡ some e) × (lookup k s.entries ≡ some e))
unfolding find
find_cases s owner k = elim (Option-cases (lookup k s.entries)) [
  | inl h ↦ inl (ground arith)
  | inr (e, h) ↦ ground arith
]

of_generation_cases :
    (g : ℕ) (o : Option Entry)
    → (of_generation g o ≡ none)
      ⊎ ((e : Entry) × (of_generation g o ≡ some e) × (o ≡ some e) × (e.generation ≡ g))
of_generation_cases g none = inl refl
of_generation_cases g (some e) = elim (Bool-cases (not (e.generation == 0) && e.generation == g)) [
  | inl h ↦ inr (e, rw h refl, refl, ground arith)
  | inr h ↦ inl (rw h refl)
]

pub find_issue_cases :
    (s : SubmissionQueue) (token : ExecutionIssueToken)
    → (find_issue s token ≡ none)
      ⊎ ((e : Entry) × (find_issue s token ≡ some e)
          × (lookup token.sequence s.entries ≡ some e)
          × (e.generation ≡ token.generation))
unfolding find_issue
find_issue_cases s token =
    elim (of_generation_cases token.generation (find s token.owner token.sequence)) [
      | inl h ↦ inl h
      | inr (e, h, f, g) ↦ elim (find_cases s token.owner token.sequence) [
        | inl n ↦ cc
        | inr (x, d, l) ↦ inr (e, h, cc, g)
      ]
    ]
