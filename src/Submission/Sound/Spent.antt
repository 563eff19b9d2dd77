-- ===== src/Submission/Sound/Spent.antt =====
-- The commands whose payload a thread is destroying (src/backend/execution_submission_queue.cc):
-- they are stopped, their entry has no payload, and their number is not used again.
use glimmer.Prelude.{
  ℕ, ◌≡◌, inl, inr, refl, Bool, true, not, ◌&&◌, ◌||◌, some, List, [], ◌∷◌, arith, ltb, lookup,
  assign, lookup-assign, lookup-remove, nat_eq, ◌++◌, ◌==◌, Bool-cases,
}
use glimmer.Submission.{Entry, Entries, SubmissionQueue, put_entry}
use glimmer.Submission.Accept.{enter, new_entry, capacity_of}
use glimmer.Submission.Issue.{started, resumed}
use glimmer.Submission.Entries.{all-lookup}
use glimmer.Submission.Effect.{
  is_coherent, is_spent, Effect, idles, binds, closes, seals, enters, edits, edits_seals, starts,
  continues, drops,
}
use glimmer.Submission.Effect.Dropping.{is_spent?}
use glimmer.Submission.Sound.{IsSound, bound, refusal-HasRoom}

abbrev pub is_spent_at : SubmissionQueue → ℕ → Bool
is_spent_at q k = is_spent? (lookup k q.entries) && ltb k (bound q)

abbrev pub all_spent : SubmissionQueue → List (ℕ × ℕ) → Bool
all_spent q [] = true
all_spent q ((k, bytes) ∷ detached) = is_spent_at q k && all_spent q detached

pub lookup-append :
    (k j : ℕ) (e : Entry) (es : Entries)
    → not (j == k) ≡ true
    → lookup k (es ++ (j, e) ∷ []) ≡ lookup k es
unfolding lookup
lookup-append k j e [] h = ground arith
lookup-append k j e ((i, x) ∷ es) h = ground (arith, lookup-append k j e es h)

pub put_spent :
    (k j : ℕ) (e e' : Entry) (q : SubmissionQueue)
    → lookup j q.entries ≡ some e
    → not (is_spent e) || is_spent e' ≡ true
    → is_spent_at q k ≡ true
    → is_spent_at (put_entry j e' q) k ≡ true
put_spent k j e e' q l d h = elim (Bool-cases (j == k)) [
  | inl m ↦ ground (arith, lookup-assign j k e' q.entries)
  | inr m ↦ ground (arith, lookup-assign j k e' q.entries)
]

effect_spent_at :
    (held k : ℕ) {s t : SubmissionQueue}
    → Effect s t
    → IsSound held s
    → is_spent_at s k ≡ true
    → is_spent_at t k ≡ true
effect_spent_at held k (idles h) v d = rw h d
effect_spent_at held k (binds thread h) v d = rw h d
effect_spent_at held k (closes h) v d = rw h d
effect_spent_at held k (seals h) v d = rw h d
effect_spent_at held k {s = s} (enters j r i f h) v d =
    let room = refusal-HasRoom j (capacity_of r) s v.within v.word f in
    rw h (
      unfold enter in
      ground (arith, room.turn, room.space, v.next, lookup-append k j (new_entry r) s.entries))
effect_spent_at held k {s = s} (edits j e e' l m h) v d = rw h (put_spent k j e e' s l m.spent d)
effect_spent_at held k {s = s} (edits_seals j e e' l m h) v d =
    rw h (put_spent k j e e' s l m.spent d)
effect_spent_at held k {s = s} (starts j e l q a z h) v d =
    let c = all-lookup is_coherent j e _ v.coherent l in
    rw h (put_spent k j e (started e) s l (ground arith) d)
effect_spent_at held k {s = s} (continues j e l p g a z h) v d =
    let c = all-lookup is_coherent j e _ v.coherent l in
    rw h (put_spent k j e (resumed e) s l (ground arith) d)
effect_spent_at held k {s = s} (drops j e e' l m f o h) v d =
    rw h
      (ground (arith, put_spent k j e e' s l m.spent d, lookup-remove j k (assign j e' s.entries)))

pub effect_spent :
    (held : ℕ) {s t : SubmissionQueue} (detached : List (ℕ × ℕ))
    → Effect s t
    → IsSound held s
    → all_spent s detached ≡ true
    → all_spent t detached ≡ true
effect_spent held [] e v d = refl
effect_spent held ((k, bytes) ∷ detached) e v d =
    ground (arith, effect_spent_at held k e v, effect_spent held detached e v)
