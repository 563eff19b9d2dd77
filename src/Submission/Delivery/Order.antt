-- ===== src/Submission/Delivery/Order.antt =====
-- Which command the executor gets, and with which parameters
-- (src/backend/execution_submission_queue.cc).
use glimmer.Prelude.{
  ℕ, suc, ◌≤◌, ◌≡◌, refl, ap, sym, ◌∙◌, Bool, true, false, not, ◌&&◌, ◌||◌, Option, none, some, [],
  ◌∷◌, ◌++◌, arith, lookup, nat_eq, if◌then◌else◌,
}
use glimmer.Submission.{
  ExecutionRequest, ExecutionIssue, accepted, Entry, Entries, SubmissionQueue, Caller, is_executor,
  find, any_issuing, is_queued, is_issuing,
}
use glimmer.Submission.Accept.{
  new_entry, capacity_of, is_invalid_request, enter, accept, receipt_of, refusal,
}
use glimmer.Submission.Issue.{take_next, selection, take_selected, issue, started, first_queued}
use glimmer.Submission.Entries.{ascends, lookup_bounded}
use glimmer.Submission.Effect.Taking.{first_queued-lookup}
use glimmer.Submission.Sound.{IsSound, bound, refusal-HasRoom}
use glimmer.Submission.Delivery.{lookup-entered, issue-new_entry, accept_inv}

any_issuing-entered :
    (k : ℕ) (r : ExecutionRequest) (es : Entries)
    → any_issuing (es ++ (k, new_entry r) ∷ []) ≡ any_issuing es
unfolding any_issuing new_entry
any_issuing-entered k r [] = refl
any_issuing-entered k r ((j, x) ∷ es) =
    ap (λ b. is_issuing x.phase || b) (any_issuing-entered k r es)

find-entered :
    (held k : ℕ) (r : ExecutionRequest) (s : SubmissionQueue)
    → IsSound held s
    → is_invalid_request k r ≡ false
    → refusal k (capacity_of r) s ≡ none
    → find (enter k r s) s.identity k ≡ some (new_entry r)
unfolding find enter
find-entered held k r s v i f =
    let room = refusal-HasRoom k (capacity_of r) s v.within v.word f in
    ground (
      arith,
      lookup-entered 1 k (new_entry r) s.entries (ground (arith, room.turn, room.space, v.ordered)),
    )

pub refusal_admits :
    (k bytes : ℕ) (s : SubmissionQueue) → refusal k bytes s ≡ none → s.is_quarantined ≡ false
unfolding refusal
refusal_admits k bytes s f = ground arith

take-entered :
    (held k : ℕ) (d : Caller) (r : ExecutionRequest) (s : SubmissionQueue)
    → IsSound held s
    → is_invalid_request k r ≡ false
    → refusal k (capacity_of r) s ≡ none
    → d.is_same_process && is_executor d s ≡ true
    → any_issuing s.entries ≡ false
    → (take_next d (some (receipt_of s k)) (enter k r s)).1
      ≡ some (issue s k (started (new_entry r)))
unfolding take_next selection enter
take-entered held k d r s v i f g a =
    let open_guard : not d.is_same_process
          || not (is_executor d (enter k r s))
          || (enter k r s).is_quarantined
          || any_issuing (enter k r s).entries
        ≡ false =
      ground (arith, refusal_admits k (capacity_of r) s f, any_issuing-entered k r s.entries) in
    rw (open_guard, find-entered held k r s v i f) (unfold new_entry enter issue in refl)

-- In a well-formed queue let a request be accepted while no command is with the executor. When the
-- executor then takes it by its receipt, it gets the operation, the context, the stream and the
-- very parameters of the request, under the first generation.
pub accepted_is_issued :
    (held k : ℕ) (c d : Caller) (r : ExecutionRequest) (s : SubmissionQueue)
    → IsSound held s
    → (accept c k r s).1 ≡ accepted
    → d.is_same_process && is_executor d s ≡ true
    → any_issuing s.entries ≡ false
    → (take_next d (some (receipt_of s k)) (accept c k r s).0).1
      ≡ some (record {
        receipt = receipt_of s k;
        token = record { owner = s.identity; sequence = k; generation = 1 };
        operation = r.operation;
        context = r.context;
        stream = r.stream;
        parameters = r.parameters;
      })
accepted_is_issued held k c d r s v h g a =
    let (i, f, e) = accept_inv c k r s h in
    rw e (take-entered held k d r s v i f g a ∙ ap some (issue-new_entry k r s i))

first_queued_lowest :
    (lo hi k j : ℕ) (e x : Entry) (es : Entries)
    → ascends lo es hi ≡ true
    → first_queued es ≡ some (k, e)
    → lookup j es ≡ some x
    → is_queued x.phase ≡ true
    → k ≤ j
unfolding ascends first_queued lookup
first_queued_lowest lo hi k j e x [] a h l q = cc
first_queued_lowest lo hi k j e x ((i, y) ∷ es) a h l q =
    ground (arith, first_queued_lowest (suc i) hi k j e x es, lookup_bounded (suc i) hi j x es)

take_guarded_inv :
    (g : Bool) (o : Option (ℕ × Entry)) (s : SubmissionQueue) (i : ExecutionIssue)
    → (if◌then◌else◌ {A = SubmissionQueue × Option ExecutionIssue} g
        (s, none)
        (take_selected o s)).1
      ≡ some i
    → (k : ℕ) × (e : Entry) × (g ≡ false) × (o ≡ some (k, e)) × (issue s k (started e) ≡ i)
take_guarded_inv true o s i h = cc
take_guarded_inv false none s i h = cc
take_guarded_inv false (some (k, e)) s i h = (k, e, refl, refl, ground arith)

-- In a well-formed queue let the executor take the next command without naming one. The command it
-- gets was queued, none was with the executor, the queue was not quarantined, and no queued command
-- was accepted before it.
pub take_next_oldest :
    (held : ℕ) (c : Caller) (s : SubmissionQueue) (i : ExecutionIssue) (j : ℕ) (x : Entry)
    → IsSound held s
    → (take_next c none s).1 ≡ some i
    → lookup j s.entries ≡ some x
    → is_queued x.phase ≡ true
    → (k : ℕ) × (e : Entry) × (i ≡ issue s k (started e))
      × (lookup k s.entries ≡ some e)
      × (is_queued e.phase ≡ true)
      × (any_issuing s.entries || s.is_quarantined ≡ false)
      × (k ≤ j)
unfolding take_next selection
take_next_oldest held c s i j x v h l q =
    let (k, e, g, f, t) = take_guarded_inv _ (first_queued s.entries) s i h in
    let (here, queued) = first_queued-lookup 1 (bound s) k e s.entries v.ordered f in
    (
      k,
      e,
      sym t,
      here,
      queued,
      ground arith,
      first_queued_lowest 1 (bound s) k j e x s.entries v.ordered f l q,
    )
