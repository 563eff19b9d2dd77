-- ===== src/Submission/Spec/Refine.antt =====
-- The submission queue of src/backend/execution_submission_queue.cc implements the board.
use glimmer.Prelude.{
  ℕ, suc, ◌≡◌, inl, inr, refl, ap, Bool, true, false, Option, none, some, List, [], ◌∷◌, ◌++◌,
  arith, lookup, assign, remove, nat_eq, Option-cases, get_elem?, if◌then◌else◌,
}
use glimmer.Submission.{Entry, Entries, Payload, SubmissionQueue, Caller, any_issuing}
use glimmer.Submission.Accept.{enter, new_entry, capacity_of, free_host_storage}
use glimmer.Submission.Issue.{started, resumed}
use glimmer.Submission.Release.{detach_payload, detach_found, detach_from}
use glimmer.Submission.Run.{
  System, Call, calls, detaches, releases, allocates, frees, step, run, detached_to, release_at,
}
use glimmer.Submission.Entries.{ascends, ascends-le}
use glimmer.Submission.Effect.{
  status_of, Effect, idles, binds, closes, seals, enters, edits, edits_seals, starts, continues,
  drops,
}
use glimmer.Submission.Effect.Issuing.{may_stay}
use glimmer.Submission.Effect.Methods.{transition-Effect}
use glimmer.Submission.Sound.{IsSound, bound, refusal-HasRoom}
use glimmer.Submission.Sound.System.{IsSoundSystem}
use glimmer.Submission.Sound.Releasing.{release_at_effect}
use glimmer.Submission.Sound.Steps.{step-IsSoundSystem, allocate_cases}
use glimmer.Submission.Spec.{board, is_later, any_busy, Step, Reaches, here, next}

lookup-board :
    (k : ℕ) (e : Entry) (es : Entries)
    → lookup k es ≡ some e
    → lookup k (board es) ≡ some (status_of e)
unfolding board lookup
lookup-board k e [] h = cc
lookup-board k e ((j, x) ∷ es) h = ground (arith, lookup-board k e es)

board-assign :
    (k : ℕ) (e : Entry) (es : Entries) → board (assign k e es) ≡ assign k (status_of e) (board es)
unfolding board assign
board-assign k e [] = refl
board-assign k e ((j, x) ∷ es) = ground (arith, board-assign k e es)

board-remove : (k : ℕ) (es : Entries) → board (remove k es) ≡ remove k (board es)
unfolding board remove
board-remove k [] = refl
board-remove k ((j, x) ∷ es) = ground (arith, board-remove k es)

board-append :
    (k : ℕ) (e : Entry) (es : Entries)
    → board (es ++ (k, e) ∷ []) ≡ board es ++ (k, status_of e) ∷ []
unfolding board
board-append k e [] = refl
board-append k e ((j, x) ∷ es) = ap (λ b. (j, status_of x) ∷ b) (board-append k e es)

remove-assign : (k : ℕ) (e : Entry) (es : Entries) → remove k (assign k e es) ≡ remove k es
unfolding assign remove
remove-assign k e [] = refl
remove-assign k e ((j, x) ∷ es) = ground (arith, remove-assign k e es)

any_busy-board : (es : Entries) → any_busy (board es) ≡ any_issuing es
unfolding board any_busy any_issuing
any_busy-board [] = refl
any_busy-board ((j, x) ∷ es) = ground (arith, any_busy-board es)

is_later-board :
    (lo hi : ℕ) (es : Entries) → ascends lo es hi ≡ true → is_later hi (board es) ≡ true
unfolding board is_later ascends
is_later-board lo hi [] a = refl
is_later-board lo hi ((j, x) ∷ es) a =
    ground (arith, is_later-board (suc j) hi es, ascends-le (suc j) hi es)

effect_refines :
    (held : ℕ) {s t : SubmissionQueue}
    → Effect s t
    → IsSound held s
    → Step (board s.entries) (board t.entries)
effect_refines held (idles h) v = Step.stays (rw h refl)
effect_refines held (binds thread h) v = Step.stays (rw h refl)
effect_refines held (closes h) v = Step.stays (rw h refl)
effect_refines held (seals h) v = Step.stays (rw h refl)
effect_refines held {s = s} (enters k r i f h) v =
    let room = refusal-HasRoom k (capacity_of r) s v.within v.word f in
    Step.accepts k
      (ground (arith, room.space, room.turn, is_later-board 1 (bound s) s.entries v.ordered))
      (rw h (unfold enter in board-append k (new_entry r) s.entries))
effect_refines held {s = s} (edits k e e' l d h) v =
    Step.moves k _ _ (lookup-board k e s.entries l) d.moves (rw h (board-assign k e' s.entries))
effect_refines held {s = s} (edits_seals k e e' l d h) v =
    Step.moves k _ _ (lookup-board k e s.entries l) d.moves (rw h (board-assign k e' s.entries))
effect_refines held {s = s} (starts k e l q a z h) v =
    Step.starts k (ground (arith, lookup-board k e s.entries l))
      (ground (arith, any_busy-board s.entries)) (rw h (board-assign k (started e) s.entries))
effect_refines held {s = s} (continues k e l p g a z h) v =
    Step.continues k (ground (arith, lookup-board k e s.entries l))
      (ground (arith, any_busy-board s.entries)) (rw h (board-assign k (resumed e) s.entries))
effect_refines held {s = s} (drops k e e' l d f o h) v =
    Step.drops k (ground (arith, lookup-board k e s.entries l))
      (rw (h, remove-assign k e' s.entries) (board-remove k s.entries))

detach_from_refines :
    (s : System) (k : ℕ) (e : Entry) (o : Option Payload) (releasing : Bool)
    → lookup k s.queue.entries ≡ some e
    → Step (board s.queue.entries) (
        board
          (detached_to k s
            (if releasing then detach_from k e o s.queue else (s.queue, none))).queue.entries)
detach_from_refines s k e o false l = Step.stays refl
detach_from_refines s k e none true l = Step.stays refl
detach_from_refines s k e (some p) true l =
    Step.moves k _ _ (lookup-board k e s.queue.entries l) (may_stay (status_of e))
      (board-assign k _ s.queue.entries)

detach_found_refines :
    (s : System) (k : ℕ) (o : Option Entry)
    → lookup k s.queue.entries ≡ o
    → Step
        (board s.queue.entries)
        (board (detached_to k s (detach_found k o s.queue)).queue.entries)
detach_found_refines s k none l = Step.stays refl
detach_found_refines s k (some e) l = detach_from_refines s k e e.payload e.is_releasing_payload l

release_at_refines :
    (s : System) (i k bytes : ℕ)
    → get_elem? s.detached i ≡ some (k, bytes)
    → IsSoundSystem s
    → Step (board s.queue.entries) (board (release_at i (some (k, bytes)) s).queue.entries)
release_at_refines s i k bytes h v =
    let (effect, sound) = release_at_effect s i k bytes h v in
    effect_refines _ effect sound.commands

-- Every step of a well-formed queue, be it a method that any caller calls with any result, a
-- section of a release or an operation on storage, is one step of the board.
pub step_refines :
    (c : Caller) (call : Call) (s : System)
    → IsSoundSystem s
    → Step (board s.queue.entries) (board (step c call s).queue.entries)
unfolding step detach_payload free_host_storage
step_refines c (calls m) s v =
    let k = v.commands in
    effect_refines _ (transition-Effect 1 (bound s.queue) c m s.queue k.ordered k.coherent) k
step_refines c (detaches k) s v = detach_found_refines s k (lookup k s.queue.entries) refl
step_refines c (releases i) s v = elim (Option-cases (get_elem? s.detached i)) [
  | inl h ↦ rw h (Step.stays refl)
  | inr ((k, bytes), h) ↦ rw h (release_at_refines s i k bytes h v)
]
step_refines c (allocates bytes) s v =
    elim (allocate_cases c bytes s.storage s.queue v.host_within v.host_word) [
      | inl (q, kept) ↦ Step.stays (rw q refl)
      | inr (q, kept, room) ↦ Step.stays (rw q refl)
    ]
step_refines c (frees i) s v = elim (Option-cases (get_elem? s.storage i)) [
  | inl h ↦ rw h (Step.stays refl)
  | inr (bytes, h) ↦ rw h (Step.stays refl)
]

-- From a well-formed queue every run of steps, by any callers, takes the board along a chain of
-- its own steps: a command enters behind those on the board, with a number above theirs; commands
-- start and continue one at a time, follow their life cycle, and leave only when they are over.
pub run_refines :
    (cs : List (Caller × Call)) (s : System)
    → IsSoundSystem s
    → Reaches (board s.queue.entries) (board (run cs s).queue.entries)
unfolding run
run_refines [] s v = here refl
run_refines ((c, call) ∷ rest) s v =
    next (step_refines c call s v)
      (run_refines rest (step c call s) (step-IsSoundSystem c call s v))
