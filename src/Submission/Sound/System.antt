-- ===== src/Submission/Sound/System.antt =====
-- A submission queue with what threads and clients hold of it
-- (src/backend/execution_submission_queue.cc): when it is well formed.
use glimmer.Prelude.{
  ℕ, zero, suc, ◌+◌, ◌≤◌, ◌≡◌, refl, ap, true, ◌&&◌, some, List, [], ◌∷◌, arith, nat_eq, u64_max,
  get_elem?,
}
use glimmer.Submission.{SubmissionQueue}
use glimmer.Submission.Accept.{enter}
use glimmer.Submission.Run.{System, drop_at}
use glimmer.Submission.Effect.{
  Effect, idles, binds, closes, seals, enters, edits, edits_seals, starts, continues, drops,
}
use glimmer.Submission.Sound.{IsSound}
use glimmer.Submission.Sound.Effects.{effect-IsSound}
use glimmer.Submission.Sound.Spent.{is_spent_at, all_spent, effect_spent}

unfoldable pub in_flight : List (ℕ × ℕ) → ℕ
in_flight [] = 0
in_flight ((k, bytes) ∷ detached) = bytes + in_flight detached

unfoldable pub sum : List ℕ → ℕ
sum [] = 0
sum (x ∷ xs) = x + sum xs

pub record IsSoundSystem (s : System) : Type 0 where
  pub commands : IsSound (in_flight s.detached) s.queue
  pub spent : all_spent s.queue s.detached ≡ true
  pub host_accounted : s.queue.host_bytes ≡ sum s.storage
  pub host_within : s.queue.host_bytes ≤ s.queue.limits.max_retained_host_bytes
  pub host_word : s.queue.limits.max_retained_host_bytes ≤ u64_max

effect-limits :
    {s t : SubmissionQueue} → Effect s t → (t.limits ≡ s.limits) × (t.host_bytes ≡ s.host_bytes)
effect-limits (idles h) = (rw h refl, rw h refl)
effect-limits (binds thread h) = (rw h refl, rw h refl)
effect-limits (closes h) = (rw h refl, rw h refl)
effect-limits (seals h) = (rw h refl, rw h refl)
effect-limits (enters j r i f h) = (rw h (unfold enter in refl), rw h (unfold enter in refl))
effect-limits (edits j e e' l m h) = (rw h refl, rw h refl)
effect-limits (edits_seals j e e' l m h) = (rw h refl, rw h refl)
effect-limits (starts j e l q a z h) = (rw h refl, rw h refl)
effect-limits (continues j e l p g a z h) = (rw h refl, rw h refl)
effect-limits (drops j e e' l m f o h) = (rw h refl, rw h refl)

pub effect-IsSoundSystem :
    (s : System) {t : SubmissionQueue}
    → Effect s.queue t
    → IsSoundSystem s
    → IsSoundSystem (record s { queue = t })
effect-IsSoundSystem s e v =
    let (limits, host) = effect-limits e in
    record {
      commands = effect-IsSound (in_flight s.detached) e v.commands;
      spent = effect_spent (in_flight s.detached) s.detached e v.commands v.spent;
      host_accounted = ground (arith, v.host_accounted, host);
      host_within = ground (arith, v.host_within, host, limits);
      host_word = ground (arith, v.host_word, limits);
    }

pub in_flight-drop :
    (i k bytes : ℕ) (detached : List (ℕ × ℕ))
    → get_elem? detached i ≡ some (k, bytes)
    → in_flight (drop_at detached i) + bytes ≡ in_flight detached
unfolding in_flight
in_flight-drop i k bytes [] h = cc
in_flight-drop zero k bytes ((j, b) ∷ detached) h = ground arith
in_flight-drop (suc i) k bytes ((j, b) ∷ detached) h =
    ground (arith, in_flight-drop i k bytes detached h)

pub sum-drop : (i x : ℕ) (xs : List ℕ) → get_elem? xs i ≡ some x → sum (drop_at xs i) + x ≡ sum xs
unfolding sum
sum-drop i x [] h = cc
sum-drop zero x (y ∷ xs) h = ground arith
sum-drop (suc i) x (y ∷ xs) h = ground (arith, sum-drop i x xs h)

pub spent-drop :
    (i : ℕ) (q : SubmissionQueue) (detached : List (ℕ × ℕ))
    → all_spent q detached ≡ true
    → all_spent q (drop_at detached i) ≡ true
spent-drop i q [] h = refl
spent-drop zero q ((j, b) ∷ detached) h = ground arith
spent-drop (suc i) q ((j, b) ∷ detached) h = ground (arith, spent-drop i q detached)

pub spent-get_elem? :
    (i k bytes : ℕ) (q : SubmissionQueue) (detached : List (ℕ × ℕ))
    → all_spent q detached ≡ true
    → get_elem? detached i ≡ some (k, bytes)
    → is_spent_at q k ≡ true
spent-get_elem? i k bytes q [] h e = cc
spent-get_elem? zero k bytes q ((j, b) ∷ detached) h e = ground arith
spent-get_elem? (suc i) k bytes q ((j, b) ∷ detached) h e =
    spent-get_elem? i k bytes q detached (ground arith) e

pub all_spent-relabel :
    (q : SubmissionQueue) (parameter_bytes host_bytes : ℕ) (detached : List (ℕ × ℕ))
    → all_spent (record q { parameter_bytes = parameter_bytes; host_bytes = host_bytes }) detached
      ≡ all_spent q detached
all_spent-relabel q parameter_bytes host_bytes [] = refl
all_spent-relabel q parameter_bytes host_bytes ((k, bytes) ∷ detached) =
    ap (λ b. is_spent_at q k && b) (all_spent-relabel q parameter_bytes host_bytes detached)
