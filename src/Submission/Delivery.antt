-- ===== src/Submission/Delivery.antt =====
-- What a client and the executor see of single methods of
-- src/backend/execution_submission_queue.cc.
pub mod Order
pub mod Tokens
pub mod Resume
use glimmer.Prelude.{
  ℕ, zero, suc, ◌+◌, ◌≤◌, ◌≡◌, inl, inr, refl, ap, Bool, true, false, not, ◌&&◌, ◌||◌, Option, none,
  some, List, [], ◌∷◌, ◌++◌, arith, lookup, nat_eq, length, if◌then◌else◌, ◌==◌, Bool-cases,
  Option-cases, add64,
}
use glimmer.Submission.{
  ExecutionRequest, ExecutionReceipt, ExecutionIssueToken, ExecutionIssue, ExecutionAcceptStatus,
  accepted, Entry, Entries, Payload, SubmissionQueue, Caller, is_executor, find, any_issuing,
  put_entry, is_issuing,
}
use glimmer.Submission.Accept.{
  resized, zeros, new_entry, capacity_of, is_invalid_request, enter, accept, receipt_of, refusal,
  accept_checked, note_lost_executor,
}
use glimmer.Submission.Issue.{first, take_next, selection, take_selected, issue, started}
use glimmer.Submission.Entries.{ascends, ascends-le}
use glimmer.Submission.Sound.{IsSound, bound, refusal-HasRoom}

first-resized : (n : ℕ) (xs : List ℕ) → length xs ≤ n → first (length xs) (resized n xs) ≡ xs
first-resized n [] h = refl
first-resized zero (x ∷ xs) h = ground arith
first-resized (suc n) (x ∷ xs) h = ap (λ ys. x ∷ ys) (first-resized n xs (ground arith))

pub lookup-entered :
    (lo k : ℕ) (e : Entry) (es : Entries)
    → ascends lo es k ≡ true
    → lookup k (es ++ (k, e) ∷ []) ≡ some e
unfolding ascends lookup
lookup-entered lo k e [] a = ground arith
lookup-entered lo k e ((j, x) ∷ es) a =
    ground (arith, lookup-entered (suc j) k e es, ascends-le (suc j) k es)

-- What is issued for a new entry is what the client asked for.
pub issue-new_entry :
    (k : ℕ) (r : ExecutionRequest) (s : SubmissionQueue)
    → is_invalid_request k r ≡ false
    → issue s k (started (new_entry r)) ≡ record {
      receipt = record { owner = s.identity; sequence = k };
      token = record { owner = s.identity; sequence = k; generation = 1 };
      operation = r.operation;
      context = r.context;
      stream = r.stream;
      parameters = r.parameters;
    }
unfolding issue new_entry
issue-new_entry k r s i =
    ap
      (λ (ps : List ℕ). record {
        receipt = record { owner = s.identity; sequence = k };
        token = record { owner = s.identity; sequence = k; generation = 1 };
        operation = r.operation;
        context = r.context;
        stream = r.stream;
        parameters = ps;
      })
      (first-resized (capacity_of r) r.parameters (ground arith))

pub accept_inv :
    (c : Caller) (k : ℕ) (r : ExecutionRequest) (s : SubmissionQueue)
    → (accept c k r s).1 ≡ accepted
    → (is_invalid_request k r ≡ false)
      × (refusal k (capacity_of r) s ≡ none)
      × (accept c k r s ≡ (enter k r s, accepted, some (receipt_of s k)))
unfolding accept refusal
accept_inv c k r s h = (ground arith, ground arith, ground arith)
