-- ===== src/Slo.antt =====
-- The adaptive controller of the priority reservation (src/core/adaptive_slo.cc,
-- include/glimmer/core/adaptive_slo.h). The constructor and `observe` return the new controller;
-- the mutex makes each call one step. `size_t` has 64 bits.
pub mod Bounds
pub mod Feedback
mod Examples
use glimmer.Prelude.{
  ℕ, ◌+◌, ◌/◌, ◌%◌, Bool, true, false, ◌||◌, Option, none, some, ltb, leb, ◌==◌, if◌then◌else◌, min,
  max, add64, sub64, mul64,
}

pub record AdaptiveSloOptions : Type 0 where
  pub initial_reserved_slots : ℕ
  pub min_reserved_slots : ℕ
  pub max_reserved_slots : ℕ
  pub priority_threshold : ℕ
  pub target_queue_wait_microseconds : ℕ
  pub observation_window : ℕ
  pub violation_ratio_percent : ℕ
  pub increase_step : ℕ
  pub decrease_step : ℕ

pub record AdaptiveSloObservation : Type 0 where
  pub priority : ℕ
  pub queue_wait_microseconds : ℕ

pub record AdaptiveSloController : Type 0 where
  pub options : AdaptiveSloOptions
  pub reserved_slots : ℕ
  pub window_samples : ℕ
  pub window_violations : ℕ

abbrev pub maximum_observation_window : ℕ
maximum_observation_window = 1000000

-- `std::clamp`
abbrev pub clamp : ℕ → ℕ → ℕ → ℕ
clamp x lo hi = if ltb x lo then lo else if ltb hi x then hi else x

unfoldable pub normalize : AdaptiveSloOptions → AdaptiveSloOptions
normalize o =
    let high = max o.max_reserved_slots o.min_reserved_slots in
    record o {
      max_reserved_slots = high;
      initial_reserved_slots = clamp o.initial_reserved_slots o.min_reserved_slots high;
      observation_window = clamp o.observation_window 1 maximum_observation_window;
      violation_ratio_percent = clamp o.violation_ratio_percent 1 100;
      increase_step = max o.increase_step 1;
      decrease_step = max o.decrease_step 1;
    }

unfoldable pub new_controller : AdaptiveSloOptions → AdaptiveSloController
unfolding normalize
new_controller o = record {
  options = normalize o;
  reserved_slots = (normalize o).initial_reserved_slots;
  window_samples = 0;
  window_violations = 0;
}

unfoldable pub required_violations : AdaptiveSloOptions → ℕ
required_violations o =
    add64 (mul64 (o.observation_window / 100) o.violation_ratio_percent)
      (add64 (mul64 (o.observation_window % 100) o.violation_ratio_percent) 99 / 100)

-- The reservation after a complete window.
unfoldable pub adjusted_slots : AdaptiveSloOptions → Bool → ℕ → ℕ
adjusted_slots o true slots = add64 slots (min o.increase_step (sub64 o.max_reserved_slots slots))
adjusted_slots o false slots =
    if ltb o.min_reserved_slots slots
    then sub64 slots (min o.decrease_step (sub64 slots o.min_reserved_slots))
    else slots

-- Whether the controller ignores an observation.
unfoldable pub ignores : AdaptiveSloOptions → AdaptiveSloObservation → Bool
ignores o seen = (o.target_queue_wait_microseconds == 0) || ltb seen.priority o.priority_threshold

-- The violations of the current window, the observation included.
unfoldable pub violations_with : AdaptiveSloController → AdaptiveSloObservation → ℕ
violations_with c seen =
    if ltb c.options.target_queue_wait_microseconds seen.queue_wait_microseconds
    then add64 c.window_violations 1
    else c.window_violations

-- The end of a window: the counters start again, and a change is reported.
unfoldable pub close_window : AdaptiveSloController → Bool → AdaptiveSloController × Option ℕ
unfolding adjusted_slots
close_window c violated =
    let slots = adjusted_slots c.options violated c.reserved_slots in
    (
      record c { reserved_slots = slots; window_samples = 0; window_violations = 0 },
      if slots == c.reserved_slots then none else some slots,
    )

unfoldable pub observe :
    AdaptiveSloController → AdaptiveSloObservation → AdaptiveSloController × Option ℕ
unfolding ignores violations_with close_window required_violations
observe c seen =
    let samples = add64 c.window_samples 1 in
    let violations = violations_with c seen in
    if ignores c.options seen
    then (c, none)
    else if ltb samples c.options.observation_window
    then (record c { window_samples = samples; window_violations = violations }, none)
    else close_window c (leb (required_violations c.options) violations)
