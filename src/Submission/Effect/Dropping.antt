-- ===== src/Submission/Effect/Dropping.antt =====
-- The effect of what can drop a command from the queue, `acknowledge_result` and the end of a
-- release, and of the methods that enter one or open and close the queue
-- (src/backend/execution_submission_queue.cc).
use glimmer.Prelude.{
  ℕ, ◌≡◌, inl, inr, refl, Bool, true, false, not, ◌&&◌, ◌||◌, Option, none, some, arith, lookup,
  nat_eq, is_some, Bool-cases, Option-cases,
}
use glimmer.Submission.{
  ExecutionReceipt, ExecutionRequest, Entry, SubmissionQueue, Caller, put_entry, collect,
  is_expired,
}
use glimmer.Submission.Accept.{
  bind_executor, accept, is_invalid_request, refusal, capacity_of, accept_checked, is_empty,
}
use glimmer.Submission.Settle.{acknowledge_found, acknowledge_result, close, quarantine, shutdown}
use glimmer.Submission.Release.{finish_release_found}
use glimmer.Submission.Entries.{all, all-lookup}
use glimmer.Submission.Effect.{
  status_of, over, is_coherent, is_spent, IsEdit, Effect, idles, binds, closes, seals, enters,
  edits, drops, find_cases,
}

over_when_stopped :
    (e e' : Entry)
    → IsEdit e e'
    → status_of e' ≡ status_of e
    → e'.is_physically_stopped ≡ true
    → status_of e ≡ over
over_when_stopped e e' d same stopped = ground (arith, d.coherent)

-- An edit after which the entry may go.
collect-Effect :
    (k : ℕ) (e e' : Entry) (s : SubmissionQueue)
    → lookup k s.entries ≡ some e
    → IsEdit e e'
    → status_of e' ≡ status_of e
    → Effect s (collect k e' (put_entry k e' s))
unfolding collect
collect-Effect k e e' s l d same =
    elim (Bool-cases
      (not e'.is_acknowledged || not e'.is_physically_stopped || e'.is_releasing_payload)) [
        | inl g ↦ rw g (edits k e e' l d refl)
        | inr g ↦ rw g (
            drops k e e' l d (ground (arith, d.coherent))
              (over_when_stopped e e' d same (ground arith)) refl)
      ]

acknowledged-IsEdit :
    (e : Entry)
    → is_coherent e ≡ true
    → is_some e.reply ≡ true
    → IsEdit e (record e { is_acknowledged = true })
acknowledged-IsEdit e v g = record {
  coherent = ground arith;
  bytes = refl;
  moves = ground arith;
  spent = ground arith;
  reply = inr refl;
  generation = refl;
}

acknowledge_found-Effect :
    (k : ℕ) (e : Entry) (s : SubmissionQueue)
    → all is_coherent s.entries ≡ true
    → lookup k s.entries ≡ some e
    → Effect s (acknowledge_found k (some e) s).0
acknowledge_found-Effect k e s v l =
    elim (Bool-cases (not (is_some e.reply) || e.is_acknowledged)) [
      | inl g ↦ rw g (idles refl)
      | inr g ↦ rw g (
          collect-Effect k e _ s l
            (acknowledged-IsEdit e (all-lookup is_coherent k e s.entries v l) (ground arith)) refl)
    ]

pub acknowledge-Effect :
    (c : Caller) (r : ExecutionReceipt) (s : SubmissionQueue)
    → all is_coherent s.entries ≡ true
    → Effect s (acknowledge_result c r s).0
unfolding acknowledge_result
acknowledge-Effect c r s v = elim (Bool-cases c.is_same_process) [
  | inr p ↦ rw p (idles refl)
  | inl p ↦ rw p (elim (find_cases s r.owner r.sequence) [
    | inl h ↦ rw h (idles refl)
    | inr (e, f, l) ↦ rw f (acknowledge_found-Effect r.sequence e s v l)
  ])
]

released-IsEdit :
    (e : Entry)
    → is_coherent e ≡ true
    → is_spent e ≡ true
    → IsEdit e (record e { is_releasing_payload = false })
released-IsEdit e v g = record {
  coherent = ground arith;
  bytes = refl;
  moves = ground arith;
  spent = ground arith;
  reply = inr refl;
  generation = refl;
}

abbrev pub is_spent? : Option Entry → Bool
is_spent? none = true
is_spent? (some e) = is_spent e

pub finish_release-Effect :
    (k : ℕ) (s : SubmissionQueue)
    → all is_coherent s.entries ≡ true
    → is_spent? (lookup k s.entries) ≡ true
    → Effect s (finish_release_found k (lookup k s.entries) s)
finish_release-Effect k s v d = elim (Option-cases (lookup k s.entries)) [
  | inl h ↦ rw h (idles refl)
  | inr (e, l) ↦ rw l (
      collect-Effect k e _ s l
        (released-IsEdit e (all-lookup is_coherent k e s.entries v l) (ground arith)) refl)
]

pub bind-Effect : (c : Caller) (s : SubmissionQueue) → Effect s (bind_executor c s).0
unfolding bind_executor
bind-Effect c s =
    elim (Bool-cases
      (not c.is_same_process || c.allocation_throws || (s.is_closing && is_empty s.entries))) [
        | inl g ↦ rw g (idles refl)
        | inr g ↦ elim (Bool-cases s.has_bound_executor) [
          | inr b ↦ rw (g, b) (binds c.thread refl)
          | inl b ↦ elim (Bool-cases (is_expired c s.executor)) [
            | inl x ↦ rw (g, b, x) (seals refl)
            | inr x ↦ rw (g, b, x) (idles refl)
          ]
        ]
      ]

accept_checked-Effect :
    (c : Caller) (sequence : ℕ) (r : ExecutionRequest) (s : SubmissionQueue)
    → is_invalid_request sequence r ≡ false
    → Effect s (accept_checked c sequence r (refusal sequence (capacity_of r) s) s).0
accept_checked-Effect c sequence r s i = elim (Option-cases (refusal sequence (capacity_of r) s)) [
  | inr (status, h) ↦ rw h (idles refl)
  | inl h ↦ elim (Bool-cases c.allocation_throws) [
    | inl t ↦ rw (h, t) (idles refl)
    | inr t ↦ rw (h, t) (enters sequence r i h refl)
  ]
]

pub accept-Effect :
    (c : Caller) (sequence : ℕ) (r : ExecutionRequest) (s : SubmissionQueue)
    → Effect s (accept c sequence r s).0
unfolding accept
accept-Effect c sequence r s = elim (Bool-cases c.is_same_process) [
  | inr p ↦ rw p (idles refl)
  | inl p ↦ elim (Bool-cases (is_invalid_request sequence r)) [
    | inl i ↦ rw (p, i) (idles refl)
    | inr i ↦ elim (Bool-cases (s.has_bound_executor && is_expired c s.executor)) [
      | inl x ↦ rw (p, i, x) (seals refl)
      | inr x ↦ rw (p, i, x) (accept_checked-Effect c sequence r s i)
    ]
  ]
]

pub close-Effect : (c : Caller) (s : SubmissionQueue) → Effect s (close c s)
unfolding close
close-Effect c s = elim (Bool-cases c.is_same_process) [
  | inl p ↦ rw p (closes refl)
  | inr p ↦ rw p (idles refl)
]

pub quarantine-Effect : (c : Caller) (s : SubmissionQueue) → Effect s (quarantine c s)
unfolding quarantine
quarantine-Effect c s = elim (Bool-cases c.is_same_process) [
  | inl p ↦ rw p (seals refl)
  | inr p ↦ rw p (idles refl)
]

pub shutdown-Effect : (c : Caller) (s : SubmissionQueue) → Effect s (shutdown c s).0
unfolding shutdown
shutdown-Effect c s = elim (Bool-cases c.is_same_process) [
  | inl p ↦ rw p (closes refl)
  | inr p ↦ rw p (idles refl)
]
