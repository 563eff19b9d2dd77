-- ===== src/Submission/Delivery/Tokens.antt =====
-- Replies, generations and the end of the service under every step of
-- src/backend/execution_submission_queue.cc.
use glimmer.Prelude.{
  ◌++◌, ◌∷◌, [], ℕ, ◌≤◌, ◌≡◌, ◌⊎◌, inl, inr, refl, true, false, not, ◌||◌, none, some, arith,
  lookup, assign, lookup-assign, lookup-remove, nat_eq, ◌==◌, Bool-cases,
}
use glimmer.Submission.{Entry, SubmissionQueue, Caller, is_issuing}
use glimmer.Submission.Accept.{enter, capacity_of, new_entry}
use glimmer.Submission.Issue.{started, resumed}
use glimmer.Submission.Run.{Method, transition}
use glimmer.Submission.Entries.{all-lookup, lookup_bounded}
use glimmer.Submission.Effect.{
  is_coherent, IsEdit, Effect, idles, binds, closes, seals, enters, edits, edits_seals, starts,
  continues, drops,
}
use glimmer.Submission.Effect.Methods.{transition-Effect}
use glimmer.Submission.Sound.{IsSound, HasRoom, refusal-HasRoom, new_entry-size, size, bound}
use glimmer.Submission.Delivery.Order.{refusal_admits}
use glimmer.Submission.Sound.Spent.{lookup-append}

-- An entry before and after a step.
abbrev Keeps : Entry → Entry → Type 0
Keeps e x = ((e.reply ≡ none) ⊎ (x.reply ≡ e.reply)) × (e.generation ≤ x.generation)

put-Keeps :
    (k j : ℕ) (e e' x y : Entry) (s : SubmissionQueue)
    → lookup j s.entries ≡ some e
    → Keeps e e'
    → lookup k s.entries ≡ some x
    → lookup k (assign j e' s.entries) ≡ some y
    → Keeps x y
put-Keeps k j e e' x y s l d h h' = ground (arith, lookup-assign j k e' s.entries)

enter-Keeps :
    (held k j : ℕ) (e x y : Entry) (s : SubmissionQueue)
    → IsSound held s
    → HasRoom j (size e) s
    → lookup k s.entries ≡ some x
    → lookup k (s.entries ++ (j, e) ∷ []) ≡ some y
    → Keeps x y
enter-Keeps held k j e x y s v room l m =
    let (low, high) = lookup_bounded 1 (bound s) k x s.entries v.ordered l in
    ground (arith, lookup-append k j e s.entries, room.space, room.turn)

effect-Keeps :
    (held k : ℕ) (x y : Entry) {s t : SubmissionQueue}
    → Effect s t
    → IsSound held s
    → lookup k s.entries ≡ some x
    → lookup k t.entries ≡ some y
    → Keeps x y
effect-Keeps held k x y (idles h) v l m = ground arith
effect-Keeps held k x y (binds thread h) v l m = ground arith
effect-Keeps held k x y (closes h) v l m = ground arith
effect-Keeps held k x y (seals h) v l m = ground arith
effect-Keeps held k x y {s = s} (enters j r i f h) v l m =
    let room = refusal-HasRoom j (capacity_of r) s v.within v.word f in
    enter-Keeps held k j (new_entry r) x y s v (rw (new_entry-size r) room) l
      (unfold enter in ground arith)
effect-Keeps held k x y {s = s} (edits j e e' d m h) v l n =
    put-Keeps k j e e' x y s d (m.reply, ground (arith, m.generation)) l (ground arith)
effect-Keeps held k x y {s = s} (edits_seals j e e' d m h) v l n =
    put-Keeps k j e e' x y s d (m.reply, ground (arith, m.generation)) l (ground arith)
effect-Keeps held k x y {s = s} (starts j e d q a z h) v l n =
    let c = all-lookup is_coherent j e s.entries v.coherent d in
    put-Keeps k j e (started e) x y s d (inr refl, ground arith) l (ground arith)
effect-Keeps held k x y {s = s} (continues j e d p g a z h) v l n =
    let c = all-lookup is_coherent j e s.entries v.coherent d in
    put-Keeps k j e (resumed e) x y s d (inr refl, ground arith) l (ground arith)
effect-Keeps held k x y {s = s} (drops j e e' d m f o h) v l n = ground (
  arith,
  m.reply,
  m.generation,
  lookup-remove j k (assign j e' s.entries),
  lookup-assign j k e' s.entries,
)

-- Let a command be known to a well-formed queue before and after a method that any caller calls. A
-- reply that it had is its reply still, and its generation has not gone back.
pub reply_stays :
    (held k : ℕ) (c : Caller) (m : Method) (s : SubmissionQueue) (x y : Entry)
    → IsSound held s
    → lookup k s.entries ≡ some x
    → lookup k (transition c m s).entries ≡ some y
    → ((x.reply ≡ none) ⊎ (y.reply ≡ x.reply)) × (x.generation ≤ y.generation)
reply_stays held k c m s x y v l n =
    effect-Keeps held k x y (transition-Effect 1 (bound s) c m s v.ordered v.coherent) v l n

-- An entry after a step of a queue that gives out nothing more.
abbrev Stops : ℕ → Entry → SubmissionQueue → Type 0
Stops k y s =
    (x : Entry) × (lookup k s.entries ≡ some x)
    × (not (is_issuing y.phase) || is_issuing x.phase ≡ true)

put-Stops :
    (k j : ℕ) (e e' y : Entry) (s : SubmissionQueue)
    → lookup j s.entries ≡ some e
    → not (is_issuing e'.phase) || is_issuing e.phase ≡ true
    → lookup k (assign j e' s.entries) ≡ some y
    → Stops k y s
put-Stops k j e e' y s l d h = elim (Bool-cases (j == k)) [
  | inl m ↦ (e, ground arith, ground (arith, lookup-assign j k e' s.entries))
  | inr m ↦ (y, ground (arith, lookup-assign j k e' s.entries), ground arith)
]

edit_never_issues :
    (e e' : Entry) → IsEdit e e' → not (is_issuing e'.phase) || is_issuing e.phase ≡ true
edit_never_issues e e' d = ground (arith, d.moves)

effect-Stops :
    (held k : ℕ) (y : Entry) {s t : SubmissionQueue}
    → Effect s t
    → s.is_quarantined ≡ true
    → lookup k t.entries ≡ some y
    → (t.is_quarantined ≡ true) × Stops k y s
effect-Stops held k y {s = s} (idles h) z l = (rw h z, (y, ground arith, ground arith))
effect-Stops held k y {s = s} (binds thread h) z l = (rw h z, (y, ground arith, ground arith))
effect-Stops held k y {s = s} (closes h) z l = (rw h z, (y, ground arith, ground arith))
effect-Stops held k y {s = s} (seals h) z l = (rw h refl, (y, ground arith, ground arith))
effect-Stops held k y {s = s} (enters j r i f h) z l =
    let open_queue : s.is_quarantined ≡ false = refusal_admits j (capacity_of r) s f in ground arith
effect-Stops held k y {s = s} (edits j e e' d m h) z l =
    (rw h z, put-Stops k j e e' y s d (edit_never_issues e e' m) (ground arith))
effect-Stops held k y {s = s} (edits_seals j e e' d m h) z l =
    (rw h refl, put-Stops k j e e' y s d (edit_never_issues e e' m) (ground arith))
effect-Stops held k y {s = s} (starts j e d q a o h) z l = ground arith
effect-Stops held k y {s = s} (continues j e d p g a o h) z l = ground arith
effect-Stops held k y {s = s} (drops j e e' d m f o h) z l = (
  rw h z,
  put-Stops k j e e' y s d (edit_never_issues e e' m)
      (ground (arith, lookup-remove j k (assign j e' s.entries))),
)

-- Let a well-formed queue be quarantined, and let a command be known after a method that any caller
-- calls. The queue is quarantined still, the command was known before, and if it is with the
-- executor it was so before: nothing is accepted, started or continued any more.
pub quarantine_stops :
    (held k : ℕ) (c : Caller) (m : Method) (s : SubmissionQueue) (y : Entry)
    → IsSound held s
    → s.is_quarantined ≡ true
    → lookup k (transition c m s).entries ≡ some y
    → ((transition c m s).is_quarantined ≡ true)
      × ((x : Entry) × (lookup k s.entries ≡ some x)
          × (not (is_issuing y.phase) || is_issuing x.phase ≡ true))
quarantine_stops held k c m s y v z l =
    effect-Stops held k y (transition-Effect 1 (bound s) c m s v.ordered v.coherent) z l
