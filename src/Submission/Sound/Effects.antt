-- ===== src/Submission/Sound/Effects.antt =====
-- Every effect keeps a submission queue well formed (src/backend/execution_submission_queue.cc).
use glimmer.Prelude.{
  ℕ, ◌≤◌, ◌≡◌, inl, inr, refl, Bool, true, false, Option, none, some, [], ◌∷◌, arith, lookup,
  assign, remove, nat_eq, length-append, u64_max, Bool-cases, ◌==◌,
}
use glimmer.Submission.{ExecutionRequest, Entry, SubmissionQueue, any_issuing, is_queued, put_entry}
use glimmer.Submission.Accept.{enter, new_entry, refusal, capacity_of, is_invalid_request}
use glimmer.Submission.Issue.{started, resumed, is_paused}
use glimmer.Submission.Entries.{
  ascends, total, burden, ascends-append, ascends-assign, ascends-remove, length-assign,
  length-remove, total-append, total-assign, total-remove, all-append, all-assign, all-remove,
  all-lookup, lookup_assigned, any_issuing-total,
}
use glimmer.Submission.Effect.{
  is_coherent, is_spent, IsEdit, Effect, idles, binds, closes, seals, enters, edits, edits_seals,
  starts, continues, drops, may_move, status_of,
}
use glimmer.Submission.Sound.{
  size, bound, IsSound, HasRoom, refusal-HasRoom, length-resized, new_entry-size,
}

pub IsEdit-burden :
    (e e' : Entry) → may_move (status_of e) (status_of e') ≡ true → burden e' ≤ burden e
IsEdit-burden e e' m = ground arith

-- An entry is rewritten; its size stays, and the executor's burden does not pass 1.
put-IsSound :
    (held k : ℕ) (q : SubmissionQueue) (e e' : Entry)
    → IsSound held q
    → lookup k q.entries ≡ some e
    → is_coherent e' ≡ true
    → size e' ≡ size e
    → total burden (assign k e' q.entries) ≤ 1
    → IsSound held (put_entry k e' q)
put-IsSound held k q e e' v l c n b = record {
  accounted = ground (arith, v.accounted, total-assign size k e e' q.entries l);
  within = v.within;
  word = v.word;
  few = ground (arith, v.few, length-assign k e' q.entries);
  ordered = ascends-assign 1 (bound q) k e' q.entries v.ordered;
  next = v.next;
  single = b;
  coherent = all-assign is_coherent k e' q.entries v.coherent c;
}

edit-IsSound :
    (held k : ℕ) (q : SubmissionQueue) (e e' : Entry)
    → IsSound held q
    → lookup k q.entries ≡ some e
    → IsEdit e e'
    → IsSound held (put_entry k e' q)
edit-IsSound held k q e e' v l d =
    put-IsSound held k q e e' v l d.coherent d.bytes
      (ground (arith, v.single, IsEdit-burden e e' d.moves, total-assign burden k e e' q.entries l))

-- A command is given to the executor, which has none.
issue-IsSound :
    (held k : ℕ) (q : SubmissionQueue) (e e' : Entry)
    → IsSound held q
    → lookup k q.entries ≡ some e
    → is_coherent e' ≡ true
    → size e' ≡ size e
    → any_issuing q.entries ≡ false
    → IsSound held (put_entry k e' q)
issue-IsSound held k q e e' v l c n a =
    put-IsSound held k q e e' v l c n
      (ground (arith, any_issuing-total q.entries a, total-assign burden k e e' q.entries l))

started-is_coherent :
    (e : Entry) → is_coherent e ≡ true → is_queued e.phase ≡ true → is_coherent (started e) ≡ true
started-is_coherent e v q = ground arith

resumed-is_coherent :
    (e : Entry)
    → is_coherent e ≡ true
    → is_paused e.phase ≡ true
    → (e.generation == u64_max) ≡ false
    → is_coherent (resumed e) ≡ true
resumed-is_coherent e v p g = ground arith

remove-IsSound :
    (held k : ℕ) (q : SubmissionQueue) (e : Entry)
    → IsSound held q
    → lookup k q.entries ≡ some e
    → is_spent e ≡ true
    → IsSound held (record q { entries = remove k q.entries })
remove-IsSound held k q e v l d = record {
  accounted = ground (arith, v.accounted, total-remove size 1 (bound q) k e q.entries v.ordered l);
  within = v.within;
  word = v.word;
  few = ground (arith, v.few, length-remove k q.entries);
  ordered = ascends-remove 1 (bound q) k q.entries v.ordered;
  next = v.next;
  single = ground (arith, v.single, total-remove burden 1 (bound q) k e q.entries v.ordered l);
  coherent = all-remove is_coherent k q.entries v.coherent;
}

new_entry-is_coherent :
    (sequence : ℕ) (r : ExecutionRequest)
    → is_invalid_request sequence r ≡ false
    → is_coherent (new_entry r) ≡ true
unfolding new_entry
new_entry-is_coherent sequence r i = ground (arith, length-resized (capacity_of r) r.parameters)

enter_ordered :
    (sequence : ℕ) (r : ExecutionRequest) (q : SubmissionQueue)
    → HasRoom sequence (capacity_of r) q
    → q.next_sequence ≤ u64_max
    → ascends 1 q.entries (bound q) ≡ true
    → (ascends 1 (enter sequence r q).entries (bound (enter sequence r q)) ≡ true)
      × ((enter sequence r q).next_sequence ≤ u64_max)
unfolding enter
enter_ordered sequence r q room n a =
    let last : sequence ≡ bound q = ground (arith, room.space, room.turn) in
    let up = ascends-append 1 (bound q) (new_entry r) q.entries a in
    elim (Bool-cases (sequence == u64_max)) [
      | inl m ↦ (ground (arith, up, last, room.space), rw m n)
      | inr m ↦ (ground (arith, up, last, room.space, room.turn), ground (arith, room.turn))
    ]

enter-IsSound :
    (held sequence : ℕ) (r : ExecutionRequest) (q : SubmissionQueue)
    → IsSound held q
    → is_invalid_request sequence r ≡ false
    → refusal sequence (capacity_of r) q ≡ none
    → IsSound held (enter sequence r q)
unfolding enter
enter-IsSound held sequence r q v i h =
    let room = refusal-HasRoom sequence (capacity_of r) q v.within v.word h in
    let (up, next) = enter_ordered sequence r q room v.next v.ordered in
    record {
      accounted = ground (
        arith,
        v.accounted,
        v.word,
        room.bytes_fit,
        new_entry-size r,
        total-append size sequence (new_entry r) q.entries,
      );
      within = ground (arith, v.word, room.bytes_fit);
      word = v.word;
      few =
          ground (arith, room.commands_fit, length-append q.entries ((sequence, new_entry r) ∷ []));
      ordered = up;
      next = next;
      single =
          unfold new_entry in
          ground (arith, v.single, total-append burden sequence (new_entry r) q.entries);
      coherent =
          all-append is_coherent sequence (new_entry r) q.entries v.coherent
            (new_entry-is_coherent sequence r i);
    }

-- The rest of the queue does not matter.
pub relabel-IsSound :
    (held : ℕ) (q : SubmissionQueue) (executor : Option ℕ) (host_bytes : ℕ)
    (bound closing sealed : Bool)
    → IsSound held q
    → IsSound held (record q {
      executor = executor;
      host_bytes = host_bytes;
      has_bound_executor = bound;
      is_closing = closing;
      is_quarantined = sealed;
    })
relabel-IsSound held q executor host_bytes bound closing sealed v = record {
  accounted = v.accounted;
  within = v.within;
  word = v.word;
  few = v.few;
  ordered = v.ordered;
  next = v.next;
  single = v.single;
  coherent = v.coherent;
}

pub effect-IsSound :
    (held : ℕ) {s t : SubmissionQueue} → Effect s t → IsSound held s → IsSound held t
effect-IsSound held (idles h) v = rw h v
effect-IsSound held (binds thread h) v = rw h (relabel-IsSound held _ _ _ _ _ _ v)
effect-IsSound held (closes h) v = rw h (relabel-IsSound held _ _ _ _ _ _ v)
effect-IsSound held (seals h) v = rw h (relabel-IsSound held _ _ _ _ _ _ v)
effect-IsSound held (enters k r i f h) v = rw h (enter-IsSound held k r _ v i f)
effect-IsSound held (edits k e e' l d h) v = rw h (edit-IsSound held k _ e e' v l d)
effect-IsSound held (edits_seals k e e' l d h) v =
    rw h (relabel-IsSound held _ _ _ _ _ _ (edit-IsSound held k _ e e' v l d))
effect-IsSound held (starts k e l q a z h) v =
    let c = all-lookup is_coherent k e _ v.coherent l in
    rw h (issue-IsSound held k _ e _ v l (started-is_coherent e c q) refl a)
effect-IsSound held (continues k e l p g a z h) v =
    let c = all-lookup is_coherent k e _ v.coherent l in
    rw h (issue-IsSound held k _ e _ v l (resumed-is_coherent e c p (ground arith)) refl a)
effect-IsSound held (drops k e e' l d f o h) v = rw h (
    remove-IsSound held k _ e' (edit-IsSound held k _ e e' v l d) (lookup_assigned k e e' _ l)
      (ground arith))
