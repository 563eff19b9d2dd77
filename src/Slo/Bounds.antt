-- ===== src/Slo/Bounds.antt =====
-- The ranges that the controller of src/core/adaptive_slo.cc keeps.
use glimmer.Prelude.{ℕ, ◌+◌, ◌*◌, ◌/◌, ◌%◌, ◌≤◌, ◌<◌, ◌≡◌, ap, arith, u64_max}
use glimmer.Slo.{
  AdaptiveSloOptions, AdaptiveSloObservation, AdaptiveSloController, maximum_observation_window,
  new_controller, required_violations, observe,
}

-- The options are words of their C++ types.
pub record IsWord (o : AdaptiveSloOptions) : Type 0 where
  pub initial : o.initial_reserved_slots ≤ u64_max
  pub low : o.min_reserved_slots ≤ u64_max
  pub high : o.max_reserved_slots ≤ u64_max
  pub up : o.increase_step ≤ u64_max
  pub down : o.decrease_step ≤ u64_max

pub record IsNormal (o : AdaptiveSloOptions) : Type 0 where
  pub word : o.max_reserved_slots ≤ u64_max
  pub ordered : o.min_reserved_slots ≤ o.max_reserved_slots
  pub window_pos : 1 ≤ o.observation_window
  pub window_capped : o.observation_window ≤ maximum_observation_window
  pub ratio_pos : 1 ≤ o.violation_ratio_percent
  pub ratio_capped : o.violation_ratio_percent ≤ 100
  pub up_pos : 1 ≤ o.increase_step
  pub down_pos : 1 ≤ o.decrease_step

pub record IsSteady (c : AdaptiveSloController) : Type 0 where
  pub normal : IsNormal c.options
  pub above_min : c.options.min_reserved_slots ≤ c.reserved_slots
  pub below_max : c.reserved_slots ≤ c.options.max_reserved_slots
  pub samples_open : c.window_samples < c.options.observation_window
  pub violations_counted : c.window_violations ≤ c.window_samples

-- The constructor brings any options, of which the slots and steps are 64-bit words, into the
-- documented ranges, and the controller that it builds starts within them.
pub new_controller-IsSteady : (o : AdaptiveSloOptions) → IsWord o → IsSteady (new_controller o)
unfolding new_controller
new_controller-IsSteady o w = ground arith

-- In a steady controller, that is one with normal options, the reservation between its minimum and
-- maximum, the window incomplete and its violations no more than its samples, every observation
-- keeps all of this.
pub observe-IsSteady :
    (c : AdaptiveSloController) (seen : AdaptiveSloObservation)
    → IsSteady c
    → IsSteady (observe c seen).0
unfolding observe
observe-IsSteady c seen v = ground arith

product_bound : (q r : ℕ) → q ≤ 10000 → r ≤ 100 → q * r ≤ 1000000
product_bound q r h k = grind arith

ceiling_split : (w r : ℕ) → w / 100 * r + (w % 100 * r + 99) / 100 ≡ (w * r + 99) / 100
ceiling_split w r =
    let parts : w ≡ w / 100 * 100 + w % 100 = omega arith in
    omega (arith, ap (λ (t : ℕ). t * r) parts)

-- Under normal options the violations that the code asks for, computed so that no product can
-- overflow, are the window's share of the ratio, rounded up; and they are at least 1 and at most
-- the window.
pub required_violations-eq-ceiling :
    (o : AdaptiveSloOptions)
    → IsNormal o
    → (required_violations o ≡ (o.observation_window * o.violation_ratio_percent + 99) / 100)
      × (1 ≤ required_violations o)
      × (required_violations o ≤ o.observation_window)
unfolding required_violations
required_violations-eq-ceiling o v =
    let w = o.observation_window in
    let r = o.violation_ratio_percent in
    let low : w / 100 * r ≤ 1000000 = product_bound (w / 100) r (omega arith) v.ratio_capped in
    let high : w % 100 * r ≤ 1000000 = product_bound (w % 100) r (omega arith) v.ratio_capped in
    let least : 1 ≤ w * r = grind (arith, v.window_pos, v.ratio_pos) in
    let most : w * r ≤ w * 100 = grind (arith, v.ratio_capped) in
    let split = ceiling_split w r in
    (
      omega (arith, low, high, split),
      omega (arith, low, high, split, least),
      omega (arith, low, high, split, most),
    )
