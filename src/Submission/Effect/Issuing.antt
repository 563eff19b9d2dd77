-- ===== src/Submission/Effect/Issuing.antt =====
-- The effect of the methods that prepare, issue and continue a command
-- (src/backend/execution_submission_queue.cc).
use glimmer.Prelude.{
  ℕ, zero, suc, ◌≡◌, inl, inr, refl, ap, Bool, true, false, not, ◌||◌, some, List, [], ◌∷◌, ◌==◌,
  ltb, arith, if◌then◌else◌, u64_max, length, lookup, nat_eq, is_some, Bool-cases, Option-cases,
}
use glimmer.Submission.{
  ExecutionReceipt, ExecutionIssueToken, host_returned, Entry, SubmissionQueue, Caller, is_issuing,
  any_issuing, put_entry, payload_bytes,
}
use glimmer.Submission.Issue.{
  overwrite, overwrite_at, is_prepared, may_prepare, rewrite_payload, limit_unissued_parameters,
  replace_unissued_parameters, patch_issue_parameters, resume_found, resume_after_physical_stop,
  finish_continuation_issue, is_resuming, is_paused,
}
use glimmer.Submission.Entries.{all, all-lookup}
use glimmer.Submission.Effect.{
  Status, waiting, running, answered, suspended, continuing, over, may_move, status_of, is_coherent,
  IsEdit, Effect, idles, edits, continues, seals, find_cases, find_issue_cases,
}

pub guarded-Effect {ℓ} :
    {A : Type ℓ} (g : Bool) (a b : A) (s : SubmissionQueue) (k : ℕ) (e e' : Entry)
    → lookup k s.entries ≡ some e
    → (g ≡ false → IsEdit e e')
    → Effect s (if◌then◌else◌ {A = SubmissionQueue × A} g (s, a) (put_entry k e' s, b)).0
guarded-Effect true a b s k e e' l h = idles refl
guarded-Effect false a b s k e e' l h = edits k e e' l (h refl) refl

pub length-overwrite : (bs xs : List ℕ) → length (overwrite bs xs) ≡ length xs
length-overwrite [] xs = refl
length-overwrite (b ∷ bs) [] = refl
length-overwrite (b ∷ bs) (x ∷ xs) = ap suc (length-overwrite bs xs)

pub length-overwrite_at : (n : ℕ) (bs xs : List ℕ) → length (overwrite_at n bs xs) ≡ length xs
length-overwrite_at zero bs xs = length-overwrite bs xs
length-overwrite_at (suc n) bs [] = refl
length-overwrite_at (suc n) bs (x ∷ xs) = ap suc (length-overwrite_at n bs xs)

pub may_stay : (x : Status) → may_move x x ≡ true
may_stay waiting = refl
may_stay running = refl
may_stay answered = refl
may_stay suspended = refl
may_stay continuing = refl
may_stay over = refl

limit-IsEdit :
    (e : Entry) (bytes : ℕ)
    → is_coherent e ≡ true
    → not (is_prepared e) || ltb e.issue_parameter_bytes bytes ≡ false
    → IsEdit e (record e { issue_parameter_bytes = bytes })
limit-IsEdit e bytes v g = record {
  coherent = ground arith;
  bytes = refl;
  moves = may_stay (status_of e);
  spent = ground arith;
  reply = inr refl;
  generation = refl;
}

pub limit-Effect :
    (c : Caller) (r : ExecutionReceipt) (bytes : ℕ) (s : SubmissionQueue)
    → all is_coherent s.entries ≡ true
    → Effect s (limit_unissued_parameters c r bytes s).0
unfolding limit_unissued_parameters
limit-Effect c r bytes s v = elim (find_cases s r.owner r.sequence) [
  | inl h ↦ rw h (idles refl)
  | inr (e, f, l) ↦ rw f (
      guarded-Effect _ false true s r.sequence e _ l (λ g.
        limit-IsEdit e bytes (all-lookup is_coherent r.sequence e s.entries v l) (ground arith)))
]

replace-IsEdit :
    (e : Entry) (input : List ℕ)
    → is_coherent e ≡ true
    → not (is_prepared e) || ltb (length (payload_bytes e.payload)) (length input) ≡ false
    → IsEdit e (record e {
      payload = rewrite_payload (overwrite input) e.payload;
      issue_parameter_bytes = length input;
    })
replace-IsEdit e input v g = elim (Option-cases e.payload) [
  | inl h ↦ ground arith
  | inr (p, h) ↦ record {
    coherent = ground (arith, length-overwrite input p.parameters);
    bytes = ground (arith, length-overwrite input p.parameters);
    moves = may_stay (status_of e);
    spent = ground arith;
    reply = inr refl;
    generation = refl;
  }
]

pub replace-Effect :
    (c : Caller) (r : ExecutionReceipt) (input : List ℕ) (s : SubmissionQueue)
    → all is_coherent s.entries ≡ true
    → Effect s (replace_unissued_parameters c r input s).0
unfolding replace_unissued_parameters
replace-Effect c r input s v = elim (find_cases s r.owner r.sequence) [
  | inl h ↦ rw h (idles refl)
  | inr (e, f, l) ↦ rw f (
      guarded-Effect _ false true s r.sequence e _ l (λ g.
        replace-IsEdit e input (all-lookup is_coherent r.sequence e s.entries v l) (ground arith)))
]

patch-IsEdit :
    (e : Entry) (offset : ℕ) (bytes : List ℕ)
    → is_coherent e ≡ true
    → not (is_some e.payload) || not (is_issuing e.phase) ≡ false
    → IsEdit e (record e { payload = rewrite_payload (overwrite_at offset bytes) e.payload })
patch-IsEdit e offset bytes v g = elim (Option-cases e.payload) [
  | inl h ↦ ground arith
  | inr (p, h) ↦ record {
    coherent = ground (arith, length-overwrite_at offset bytes p.parameters);
    bytes = ground (arith, length-overwrite_at offset bytes p.parameters);
    moves = may_stay (status_of e);
    spent = ground arith;
    reply = inr refl;
    generation = refl;
  }
]

pub patch-Effect :
    (c : Caller) (token : ExecutionIssueToken) (offset : ℕ) (bytes : List ℕ) (s : SubmissionQueue)
    → all is_coherent s.entries ≡ true
    → Effect s (patch_issue_parameters c token offset bytes s).0
unfolding patch_issue_parameters
patch-Effect c token offset bytes s v = elim (find_issue_cases s token) [
  | inl h ↦ rw h (idles refl)
  | inr (e, f, l, g) ↦ rw f (
      guarded-Effect _ false true s token.sequence e _ l (λ h.
        patch-IsEdit e offset bytes (all-lookup is_coherent token.sequence e s.entries v l)
          (ground arith)))
]

finish-IsEdit :
    (e : Entry)
    → is_coherent e ≡ true
    → is_resuming e.phase ≡ true
    → IsEdit e (record e { phase = host_returned })
finish-IsEdit e v g = record {
  coherent = ground arith;
  bytes = refl;
  moves = ground arith;
  spent = ground arith;
  reply = inr refl;
  generation = refl;
}

pub finish-Effect :
    (c : Caller) (token : ExecutionIssueToken) (s : SubmissionQueue)
    → all is_coherent s.entries ≡ true
    → Effect s (finish_continuation_issue c token s).0
unfolding finish_continuation_issue
finish-Effect c token s v = elim (find_issue_cases s token) [
  | inl h ↦ rw h (idles refl)
  | inr (e, f, l, g) ↦ rw f (
      guarded-Effect _ false true s token.sequence e _ l (λ h.
        finish-IsEdit e (all-lookup is_coherent token.sequence e s.entries v l) (ground arith)))
]

resume_found-Effect :
    (c : Caller) (k : ℕ) (e : Entry) (s : SubmissionQueue)
    → lookup k s.entries ≡ some e
    → Effect s (resume_found c k (some e) s).0
resume_found-Effect c k e s l =
    elim (Bool-cases (not (may_prepare c s) || not (is_paused e.phase) || any_issuing s.entries)) [
      | inl g ↦ rw g (idles refl)
      | inr g ↦ elim (Bool-cases (e.generation == u64_max)) [
        | inl h ↦ rw (g, h) (seals refl)
        | inr h ↦
            rw (g, h)
              (continues k e l (ground arith) (ground arith) (ground arith) (ground arith) refl)
      ]
    ]

pub resume-Effect :
    (c : Caller) (token : ExecutionIssueToken) (s : SubmissionQueue)
    → Effect s (resume_after_physical_stop c token s).0
unfolding resume_after_physical_stop
resume-Effect c token s = elim (find_issue_cases s token) [
  | inl h ↦ rw h (idles refl)
  | inr (e, f, l, g) ↦ rw f (resume_found-Effect c token.sequence e s l)
]
