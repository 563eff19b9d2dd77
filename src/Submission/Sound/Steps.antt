-- ===== src/Submission/Sound/Steps.antt =====
-- Every step of a submission queue (src/backend/execution_submission_queue.cc) keeps it well
-- formed.
use glimmer.Prelude.{
  ℕ, ◌+◌, ◌≤◌, ◌≡◌, ◌⊎◌, inl, inr, refl, false, some, List, [], ◌∷◌, arith, lookup, nat_eq,
  Option-cases, u64_max, sub64, get_elem?,
}
use glimmer.Submission.{
  SubmissionQueue, Caller, ExecutionSessionIdentity, ExecutionSubmissionLimits, new_queue, blank,
  is_invalid_domain,
}
use glimmer.Submission.Accept.{allocate_host_storage, free_host_storage}
use glimmer.Submission.Release.{detach_payload}
use glimmer.Submission.Run.{
  System, Call, calls, detaches, releases, allocates, frees, step, run, kept_storage, free_at,
  drop_at, initial,
}
use glimmer.Submission.Entries.{all, total, ascends}
use glimmer.Submission.Effect.Methods.{transition-Effect}
use glimmer.Submission.Sound.{bound}
use glimmer.Submission.Sound.Effects.{relabel-IsSound}
use glimmer.Submission.Sound.Releasing.{detach_found-IsSoundSystem, release_at-IsSoundSystem}
use glimmer.Submission.Sound.System.{
  in_flight, sum, IsSoundSystem, effect-IsSoundSystem, sum-drop, all_spent-relabel,
}

recharged-IsSoundSystem :
    (s : System) (host_bytes : ℕ) (storage : List ℕ)
    → IsSoundSystem s
    → host_bytes ≡ sum storage
    → host_bytes ≤ s.queue.limits.max_retained_host_bytes
    → IsSoundSystem
        (record s { queue = record s.queue { host_bytes = host_bytes }; storage = storage })
recharged-IsSoundSystem s host_bytes storage v a w = record {
  commands = relabel-IsSound (in_flight s.detached) s.queue _ host_bytes _ _ _ v.commands;
  spent =
      ground
        (arith, all_spent-relabel s.queue s.queue.parameter_bytes host_bytes s.detached, v.spent);
  host_accounted = a;
  host_within = w;
  host_word = v.host_word;
}

pub allocate_cases :
    (c : Caller) (bytes : ℕ) (storage : List ℕ) (q : SubmissionQueue)
    → q.host_bytes ≤ q.limits.max_retained_host_bytes
    → q.limits.max_retained_host_bytes ≤ u64_max
    → (((allocate_host_storage c bytes q).0 ≡ q)
        × (kept_storage bytes storage (allocate_host_storage c bytes q).1 ≡ storage))
      ⊎ (((allocate_host_storage c bytes q).0 ≡ record q { host_bytes = q.host_bytes + bytes })
          × (kept_storage bytes storage (allocate_host_storage c bytes q).1 ≡ bytes ∷ storage)
          × (q.host_bytes + bytes ≤ q.limits.max_retained_host_bytes))
unfolding allocate_host_storage
allocate_cases c bytes storage q w m = ground arith

allocate-IsSoundSystem :
    (c : Caller) (bytes : ℕ) (s : System)
    → IsSoundSystem s
    → IsSoundSystem (step c (allocates bytes) s)
unfolding step
allocate-IsSoundSystem c bytes s v =
    elim (allocate_cases c bytes s.storage s.queue v.host_within v.host_word) [
      | inl (q, kept) ↦ rw (q, kept) v
      | inr (q, kept, room) ↦
          rw (q, kept)
            (recharged-IsSoundSystem s (s.queue.host_bytes + bytes) (bytes ∷ s.storage) v
              (unfold sum in ground (arith, v.host_accounted)) room)
    ]

free_at-IsSoundSystem :
    (s : System) (i bytes : ℕ)
    → get_elem? s.storage i ≡ some bytes
    → IsSoundSystem s
    → IsSoundSystem (free_at i (some bytes) s)
unfolding free_host_storage
free_at-IsSoundSystem s i bytes h v =
    let less = sum-drop i bytes s.storage h in
    recharged-IsSoundSystem s (sub64 s.queue.host_bytes bytes) (drop_at s.storage i) v
      (ground (arith, v.host_accounted, v.host_within, v.host_word, less))
      (ground (arith, v.host_accounted, v.host_within, v.host_word, less))

pub step-IsSoundSystem :
    (c : Caller) (call : Call) (s : System) → IsSoundSystem s → IsSoundSystem (step c call s)
unfolding step detach_payload
step-IsSoundSystem c (calls m) s v =
    let k = v.commands in
    effect-IsSoundSystem s (transition-Effect 1 (bound s.queue) c m s.queue k.ordered k.coherent) v
step-IsSoundSystem c (detaches k) s v =
    detach_found-IsSoundSystem s k (lookup k s.queue.entries) refl v
step-IsSoundSystem c (releases i) s v = elim (Option-cases (get_elem? s.detached i)) [
  | inl h ↦ rw h v
  | inr ((k, bytes), h) ↦ rw h (release_at-IsSoundSystem s i k bytes h v)
]
step-IsSoundSystem c (allocates bytes) s v = allocate-IsSoundSystem c bytes s v
step-IsSoundSystem c (frees i) s v = elim (Option-cases (get_elem? s.storage i)) [
  | inl h ↦ rw h v
  | inr (bytes, h) ↦ rw h (free_at-IsSoundSystem s i bytes h v)
]

pub run-IsSoundSystem :
    (cs : List (Caller × Call)) (s : System) → IsSoundSystem s → IsSoundSystem (run cs s)
unfolding run
run-IsSoundSystem [] s v = v
run-IsSoundSystem ((c, call) ∷ rest) s v =
    run-IsSoundSystem rest (step c call s) (step-IsSoundSystem c call s v)

blank-IsSoundSystem :
    (session : ExecutionSessionIdentity) (limits : ExecutionSubmissionLimits) (identity : ℕ)
    → is_invalid_domain session limits ≡ false
    → session.first_sequence ≤ u64_max
    → limits.max_parameter_bytes ≤ u64_max
    → limits.max_retained_host_bytes ≤ u64_max
    → IsSoundSystem (initial (blank session limits identity))
unfolding in_flight sum total ascends all
blank-IsSoundSystem session limits identity i first parameters host = record {
  commands = record {
    accounted = refl;
    within = ground arith;
    word = parameters;
    few = ground arith;
    ordered = ground arith;
    next = first;
    single = ground arith;
    coherent = refl;
  };
  spent = refl;
  host_accounted = refl;
  host_within = ground arith;
  host_word = host;
}

pub new_queue_inv :
    (session : ExecutionSessionIdentity) (limits : ExecutionSubmissionLimits) (identity : ℕ)
    (q : SubmissionQueue)
    → new_queue session limits identity ≡ some q
    → (is_invalid_domain session limits ≡ false) × (q ≡ blank session limits identity)
unfolding new_queue
new_queue_inv session limits identity q made = ground arith

-- Let the limits and the first number be 64-bit words. Whatever methods, releases and storage
-- operations follow each other on a new queue, by any callers, the queue is well formed: the
-- parameter bytes are those of its commands and of the payloads that threads are destroying, the
-- host bytes are those of the storage that is alive, and both are within their limits, as is the
-- number of commands; the commands stand in the order of their numbers, all below the next one; at
-- most one is with the executor; and every command's reply, payload and generation fit its phase.
pub run-new-IsSoundSystem :
    (session : ExecutionSessionIdentity) (limits : ExecutionSubmissionLimits) (identity : ℕ)
    (q : SubmissionQueue) (cs : List (Caller × Call))
    → new_queue session limits identity ≡ some q
    → session.first_sequence ≤ u64_max
    → limits.max_parameter_bytes ≤ u64_max
    → limits.max_retained_host_bytes ≤ u64_max
    → IsSoundSystem (run cs (initial q))
run-new-IsSoundSystem session limits identity q cs made first parameters host =
    let (i, e) = new_queue_inv session limits identity q made in
    run-IsSoundSystem cs (initial q)
      (rw e (blank-IsSoundSystem session limits identity i first parameters host))
