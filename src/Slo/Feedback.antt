-- ===== src/Slo/Feedback.antt =====
-- What the controller of src/core/adaptive_slo.cc does over whole windows of observations.
use glimmer.Prelude.{
  Option-cases, Bool-cases, ◌==◌, inl, inr, List, [], ◌∷◌, ℕ, zero, suc, ◌+◌, ◌-◌, ◌*◌, ◌≤◌, ◌<◌,
  ◌≡◌, ◌≢◌, refl, ◌⊎◌, false, none, some, arith, min, max,
}
use glimmer.Slo.{
  AdaptiveSloOptions, AdaptiveSloObservation, AdaptiveSloController, required_violations, ignores,
  violations_with, observe,
}
use glimmer.Slo.Bounds.{IsSteady, observe-IsSteady, required_violations-eq-ceiling}

-- In a steady controller a recommendation is the new reservation and differs from the old one,
-- and it comes exactly at the end of a window: the counters are 0 again. With no recommendation
-- the reservation is unchanged.
pub observe_reports :
    (c : AdaptiveSloController) (seen : AdaptiveSloObservation)
    → IsSteady c
    → ((n : ℕ) × ((observe c seen).1 ≡ some n)
        × ((observe c seen).0.reserved_slots ≡ n)
        × (n ≢ c.reserved_slots)
        × ((observe c seen).0.window_samples ≡ 0)
        × ((observe c seen).0.window_violations ≡ 0))
      ⊎ (((observe c seen).1 ≡ none) × ((observe c seen).0.reserved_slots ≡ c.reserved_slots))
unfolding observe
observe_reports c seen v = elim (Option-cases (observe c seen).1) [
  | inl e ↦ inr (e, ground arith)
  | inr (n, e) ↦ inl (n, e, ground arith, ground arith, ground arith, ground arith)
]

-- A window of a steady controller closes at its last relevant observation. If its violations reach
-- the required number the reservation rises by the step, up to the maximum; otherwise it falls by
-- the step, down to the minimum.
pub observe_closes :
    (c : AdaptiveSloController) (seen : AdaptiveSloObservation)
    → IsSteady c
    → ignores c.options seen ≡ false
    → c.window_samples + 1 ≡ c.options.observation_window
    → ((required_violations c.options ≤ violations_with c seen)
        × ((observe c seen).0.reserved_slots
            ≡ min c.options.max_reserved_slots (c.reserved_slots + c.options.increase_step)))
      ⊎ ((violations_with c seen < required_violations c.options)
          × ((observe c seen).0.reserved_slots
              ≡ max c.options.min_reserved_slots (c.reserved_slots - c.options.decrease_step)))
unfolding observe
observe_closes c seen v i w = ground arith

-- One observation after the other.
unfoldable pub observes :
    List AdaptiveSloObservation → AdaptiveSloController → AdaptiveSloController
observes [] c = c
observes (seen ∷ rest) c = observes rest (observe c seen).0

-- The controller is enabled and looks at the observation, which waited too long.
pub record IsViolation (o : AdaptiveSloOptions) (seen : AdaptiveSloObservation) : Type 0 where
  pub enabled : 0 < o.target_queue_wait_microseconds
  pub relevant : o.priority_threshold ≤ seen.priority
  pub slow : o.target_queue_wait_microseconds < seen.queue_wait_microseconds

-- An observation below the threshold of priority.
abbrev pub IsLow : AdaptiveSloOptions → AdaptiveSloObservation → Type 0
IsLow o seen = seen.priority < o.priority_threshold

-- A sequence of n violations, with any number of observations of low priority between them.
pub data Violations (o : AdaptiveSloOptions) : ℕ → List AdaptiveSloObservation → Type 0 where
  no_violation : Violations o 0 []
  violation :
      {n : ℕ}
      → {seen : AdaptiveSloObservation} → {rest : List AdaptiveSloObservation} → IsViolation o seen
      → Violations o n rest
      → Violations o (suc n) (seen ∷ rest)
  low :
      {n : ℕ}
      → {seen : AdaptiveSloObservation} → {rest : List AdaptiveSloObservation} → IsLow o seen
      → Violations o n rest
      → Violations o n (seen ∷ rest)

abbrev raised : AdaptiveSloController → AdaptiveSloController
raised c = record c {
  reserved_slots = min c.options.max_reserved_slots (c.reserved_slots + c.options.increase_step);
  window_samples = 0;
  window_violations = 0;
}

abbrev counted : AdaptiveSloController → AdaptiveSloController
counted c = record c {
  window_samples = c.window_samples + 1;
  window_violations = c.window_violations + 1;
}

observe_counts :
    (c : AdaptiveSloController) (seen : AdaptiveSloObservation)
    → IsSteady c
    → IsViolation c.options seen
    → c.window_samples + 1 < c.options.observation_window
    → (observe c seen).0 ≡ counted c
unfolding observe
observe_counts c seen v h w = ground arith

observe_raises :
    (c : AdaptiveSloController) (seen : AdaptiveSloObservation)
    → IsSteady c
    → IsViolation c.options seen
    → c.window_samples + 1 ≡ c.options.observation_window
    → c.window_violations ≡ c.window_samples
    → (observe c seen).0 ≡ raised c
unfolding observe
observe_raises c seen v h w e = ground (arith, required_violations-eq-ceiling c.options v.normal)

observe-low :
    (c : AdaptiveSloController) (seen : AdaptiveSloObservation)
    → IsLow c.options seen
    → (observe c seen).0 ≡ c
unfolding observe
observe-low c seen h = ground arith

raised-IsSteady : (c : AdaptiveSloController) → IsSteady c → IsSteady (raised c)
raised-IsSteady c v = ground arith

-- What n violations make of a controller whose window holds violations only: with those of the
-- window they are k windows and r more.
IsRaised : AdaptiveSloController → ℕ → ℕ → AdaptiveSloController → Type 0
IsRaised c k r d =
    (d.reserved_slots
      ≡ min c.options.max_reserved_slots (c.reserved_slots + k * c.options.increase_step))
    × (d.window_samples ≡ r)
    × (d.window_violations ≡ r)

raised_once :
    (j r : ℕ) (c d : AdaptiveSloController) → IsRaised (raised c) j r d → IsRaised c (suc j) r d
unfolding IsRaised
raised_once j r c d (slots, samples, violations) = (omega (arith, slots), samples, violations)

-- The violation that closes a window is one window less to come; another one is not.
rest_of_windows :
    (k w s n r : ℕ)
    → r < w
    → s + 1 ≡ w
    → s + suc n ≡ k * w + r
    → (j : ℕ) × (k ≡ suc j) × (0 + n ≡ j * w + r)
rest_of_windows zero w s n r l e h = absurd (omega (arith, l, e, h))
rest_of_windows (suc j) w s n r l e h = (j, refl, omega (arith, e, h))

observes_raise :
    (o : AdaptiveSloOptions) (n : ℕ) (seen : List AdaptiveSloObservation)
    → Violations o n seen
    → (k r : ℕ) (c : AdaptiveSloController) → IsSteady c
    → c.options ≡ o
    → c.window_violations ≡ c.window_samples
    → r < o.observation_window
    → c.window_samples + n ≡ k * o.observation_window + r
    → IsRaised c k r (observes seen c)
unfolding observes IsRaised
observes_raise o n seen no_violation zero r c v t e l s =
    (omega (arith, v.below_max), omega (arith, s), omega (arith, s, e))
observes_raise o n seen no_violation (suc k) r c v t e l s =
    let open_window : c.window_samples < o.observation_window = rw (← t) v.samples_open in
    absurd (omega (arith, s, open_window))
observes_raise o n (x ∷ seen) (low h rest) k r c v t e l s =
    rw (observes, observe-low c x (rw t h)) (observes_raise o n seen rest k r c v t e l s)
observes_raise o (suc n) (x ∷ seen) (violation h rest) k r c v t e l s =
    elim (Bool-cases (c.window_samples + 1 == c.options.observation_window)) [
      | inl w ↦
          let full : c.window_samples + 1 ≡ c.options.observation_window = ground arith in
          let (j, ek, en) =
            rest_of_windows k o.observation_window c.window_samples n r l (rw (← t) full) s in
          rw (ek, observes, observe_raises c x v (rw t h) full e)
            (raised_once j r c (observes seen (raised c))
              (observes_raise o n seen rest j r (raised c) (raised-IsSteady c v) t refl l en))
      | inr w ↦
          let part : c.window_samples + 1 < c.options.observation_window = ground arith in
          rw (observes, observe_counts c x v (rw t h) part)
            (observes_raise o n seen rest k r (counted c)
              (rw (observe_counts c x v (rw t h) part) at (observe-IsSteady c x v)) t
              (omega (arith, e)) l (omega (arith, s)))
    ]

-- Take a steady controller at the start of a window, and any observations of which n are
-- violations and the others are of low priority, in any order. Where n is k whole windows and r
-- more, the reservation has risen by k steps, up to the maximum, and the new window holds r samples,
-- all violations.
pub windows_raise :
    (k r n : ℕ) (seen : List AdaptiveSloObservation) (c : AdaptiveSloController)
    → IsSteady c
    → c.window_samples ≡ 0
    → c.window_violations ≡ 0
    → Violations c.options n seen
    → r < c.options.observation_window
    → n ≡ k * c.options.observation_window + r
    → ((observes seen c).reserved_slots
        ≡ min c.options.max_reserved_slots (c.reserved_slots + k * c.options.increase_step))
      × ((observes seen c).window_samples ≡ r)
      × ((observes seen c).window_violations ≡ r)
unfolding IsRaised
windows_raise k r n seen c v s e h l m =
    observes_raise c.options n seen h k r c v refl (omega (arith, s, e)) l (omega (arith, s, m))
