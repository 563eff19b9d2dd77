-- ===== src/Slo/Examples.antt =====
-- The theorems on src/core/adaptive_slo.cc at a concrete controller.
use glimmer.Prelude.{List, [], ◌∷◌, ◌≤◌, ◌<◌, ◌≡◌, ◌⊎◌, refl, arith, min, max}
use glimmer.Slo.{
  AdaptiveSloOptions, AdaptiveSloObservation, AdaptiveSloController, required_violations, ignores,
  violations_with, observe,
}
use glimmer.Slo.Bounds.{IsSteady, observe-IsSteady}
use glimmer.Slo.Feedback.{observe_closes, observes, windows_raise, no_violation, violation, low}

abbrev options : AdaptiveSloOptions
options = record {
  initial_reserved_slots = 1;
  min_reserved_slots = 1;
  max_reserved_slots = 4;
  priority_threshold = 10;
  target_queue_wait_microseconds = 500;
  observation_window = 2;
  violation_ratio_percent = 60;
  increase_step = 2;
  decrease_step = 1;
}

abbrev late : AdaptiveSloObservation
late = record { priority = 20; queue_wait_microseconds = 900 }

abbrev half_full : AdaptiveSloController
half_full = record {
  options = options;
  reserved_slots = 1;
  window_samples = 1;
  window_violations = 1;
}

abbrev started : AdaptiveSloController
started = record {
  options = options;
  reserved_slots = 1;
  window_samples = 0;
  window_violations = 0;
}

observe-IsSteady_example : IsSteady (observe half_full late).0
observe-IsSteady_example = observe-IsSteady half_full late (omega arith)

observe_closes_example :
    ((required_violations options ≤ violations_with half_full late)
      × ((observe half_full late).0.reserved_slots ≡ min 4 3))
    ⊎ ((violations_with half_full late < required_violations options)
        × ((observe half_full late).0.reserved_slots ≡ max 1 0))
unfolding ignores
observe_closes_example = observe_closes half_full late (omega arith) refl (omega arith)

abbrev unimportant : AdaptiveSloObservation
unimportant = record { priority = 3; queue_wait_microseconds = 900 }

abbrev later : AdaptiveSloObservation
later = record { priority = 10; queue_wait_microseconds = 501 }

-- Three violations, the last two with an observation of low priority between them.
abbrev seen : List AdaptiveSloObservation
seen = late ∷ later ∷ unimportant ∷ late ∷ []

windows_raise_example :
    ((observes seen started).reserved_slots ≡ 3)
    × ((observes seen started).window_samples ≡ 1)
    × ((observes seen started).window_violations ≡ 1)
windows_raise_example =
    windows_raise 1 1 3 seen started (omega arith) refl refl
      (violation (omega arith)
        (violation (omega arith) (low (omega arith) (violation (omega arith) no_violation))))
      (omega arith) refl
