-- ===== src/Submission/Sound.antt =====
-- The well-formedness of a submission queue (src/backend/execution_submission_queue.cc), and when a
-- request has room in it.
pub mod Effects
pub mod Spent
pub mod System
pub mod Releasing
pub mod Steps
use glimmer.Prelude.{
  ℕ, zero, suc, ◌+◌, ◌≤◌, ◌≡◌, inl, inr, refl, ap, Bool, true, false, not, ◌&&◌, ◌||◌, Option, none,
  some, List, [], ◌∷◌, arith, if◌then◌else◌, lookup, assign, remove, nat_eq, length, length-append,
  u64_max, add64, Bool-cases, ◌==◌,
}
use glimmer.Submission.{
  ExecutionRequest, Entry, SubmissionQueue, payload_bytes, any_issuing, is_queued, put_entry,
}
use glimmer.Submission.Accept.{
  enter, new_entry, refusal, capacity_of, resized, zeros, is_invalid_request,
}
use glimmer.Submission.Issue.{started, resumed, is_paused}
use glimmer.Submission.Entries.{
  ascends, total, all, burden, ascends-append, ascends-assign, ascends-remove, length-assign,
  length-remove, total-append, total-assign, total-remove, all-append, all-assign, all-remove,
  all-lookup, lookup_assigned, any_issuing-total,
}
use glimmer.Submission.Effect.{
  is_coherent, is_spent, IsEdit, Effect, idles, binds, closes, seals, enters, edits, edits_seals,
  starts, continues, drops, may_move, status_of,
}

abbrev pub size : Entry → ℕ
size e = length (payload_bytes e.payload)

-- All sequence numbers in use are below it.
abbrev pub bound : SubmissionQueue → ℕ
bound q = if q.has_sequence_space then q.next_sequence else 18446744073709551616

-- `held` bytes are in the hands of threads that destroy a payload.
pub record IsSound (held : ℕ) (q : SubmissionQueue) : Type 0 where
  pub accounted : q.parameter_bytes ≡ total size q.entries + held
  pub within : q.parameter_bytes ≤ q.limits.max_parameter_bytes
  pub word : q.limits.max_parameter_bytes ≤ u64_max
  pub few : length q.entries ≤ q.limits.max_commands
  pub ordered : ascends 1 q.entries (bound q) ≡ true
  pub next : q.next_sequence ≤ u64_max
  pub single : total burden q.entries ≤ 1
  pub coherent : all is_coherent q.entries ≡ true

length-zeros : (n : ℕ) → length (zeros n) ≡ n
length-zeros zero = refl
length-zeros (suc n) = ap suc (length-zeros n)

pub length-resized : (n : ℕ) (xs : List ℕ) → length (resized n xs) ≡ n
length-resized zero xs = refl
length-resized (suc n) [] = ap suc (length-zeros n)
length-resized (suc n) (x ∷ xs) = ap suc (length-resized n xs)

-- What is entered is open, next in turn and has room.
pub record HasRoom (sequence bytes : ℕ) (q : SubmissionQueue) : Type 0 where
  pub admits : q.is_quarantined || q.is_closing ≡ false
  pub space : q.has_sequence_space ≡ true
  pub turn : sequence ≡ q.next_sequence
  pub bytes_fit : q.parameter_bytes + bytes ≤ q.limits.max_parameter_bytes
  pub commands_fit : suc (length q.entries) ≤ q.limits.max_commands

pub refusal-HasRoom :
    (sequence bytes : ℕ) (q : SubmissionQueue)
    → q.parameter_bytes ≤ q.limits.max_parameter_bytes
    → q.limits.max_parameter_bytes ≤ u64_max
    → refusal sequence bytes q ≡ none
    → HasRoom sequence bytes q
unfolding refusal
refusal-HasRoom sequence bytes q w m h = record {
  admits = ground arith;
  space = ground arith;
  turn = ground arith;
  bytes_fit = ground arith;
  commands_fit = ground arith;
}

pub new_entry-size : (r : ExecutionRequest) → size (new_entry r) ≡ capacity_of r
unfolding new_entry
new_entry-size r = length-resized (capacity_of r) r.parameters
