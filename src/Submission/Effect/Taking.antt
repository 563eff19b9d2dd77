-- ===== src/Submission/Effect/Taking.antt =====
-- The command that the executor takes next (src/backend/execution_submission_queue.cc).
use glimmer.Prelude.{
  ℕ, suc, ◌≡◌, ◌⊎◌, inl, inr, refl, true, not, ◌||◌, Option, none, some, [], ◌∷◌, arith, lookup,
  nat_eq, Bool-cases, Option-cases,
}
use glimmer.Submission.{
  ExecutionReceipt, Entry, Entries, SubmissionQueue, Caller, is_queued, any_issuing, is_executor,
}
use glimmer.Submission.Issue.{selection, first_queued, take_next}
use glimmer.Submission.Entries.{ascends, lookup_bounded}
use glimmer.Submission.Effect.{Effect, idles, starts, find_cases}

pub first_queued-lookup :
    (lo hi k : ℕ) (e : Entry) (es : Entries)
    → ascends lo es hi ≡ true
    → first_queued es ≡ some (k, e)
    → (lookup k es ≡ some e) × (is_queued e.phase ≡ true)
unfolding ascends first_queued lookup
first_queued-lookup lo hi k e [] a h = cc
first_queued-lookup lo hi k e ((j, x) ∷ es) a h = elim (Bool-cases (is_queued x.phase)) [
  | inl q ↦ ground arith
  | inr q ↦
      let (l, d) = first_queued-lookup (suc j) hi k e es (ground arith) (ground arith) in
      (ground (arith, lookup_bounded (suc j) hi k e es), d)
]

pub selection_cases :
    (lo hi : ℕ) (receipt : Option ExecutionReceipt) (s : SubmissionQueue)
    → ascends lo s.entries hi ≡ true
    → (selection receipt s ≡ none)
      ⊎ ((k : ℕ) × (e : Entry) × (selection receipt s ≡ some (k, e))
          × (lookup k s.entries ≡ some e)
          × (is_queued e.phase ≡ true))
unfolding selection
selection_cases lo hi none s a = elim (Option-cases (first_queued s.entries)) [
  | inl h ↦ inl h
  | inr ((k, e), h) ↦
      let (l, q) = first_queued-lookup lo hi k e s.entries a h in inr (k, e, h, l, q)
]
selection_cases lo hi (some r) s a = elim (find_cases s r.owner r.sequence) [
  | inl h ↦ inl (rw h refl)
  | inr (e, f, l) ↦ elim (Bool-cases (is_queued e.phase)) [
    | inl q ↦ inr (r.sequence, e, rw (f, q) refl, l, q)
    | inr q ↦ inl (rw (f, q) refl)
  ]
]

pub take-Effect :
    (lo hi : ℕ) (c : Caller) (receipt : Option ExecutionReceipt) (s : SubmissionQueue)
    → ascends lo s.entries hi ≡ true
    → Effect s (take_next c receipt s).0
unfolding take_next
take-Effect lo hi c receipt s a =
    elim (Bool-cases (
      not c.is_same_process
      || not (is_executor c s)
      || s.is_quarantined
      || any_issuing s.entries)) [
        | inl g ↦ rw g (idles refl)
        | inr g ↦ rw g (elim (selection_cases lo hi receipt s a) [
          | inl h ↦ rw h (idles refl)
          | inr (k, e, h, l, q) ↦ rw h (starts k e l q (ground arith) (ground arith) refl)
        ])
      ]
