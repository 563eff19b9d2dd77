-- ===== src/Scheduler/Policy.antt =====
-- The names of the scheduling policies (src/core/scheduler.cc).
use text.Mathlib.Text.{◌==◌ as str_eq}
use glimmer.Prelude.{Option, none, some, String, ◌≡◌, refl, if◌then◌else◌, ◌↔◌, arith}
use text.Mathlib.TextEquality.{eq_iff}
use glimmer.Scheduler.{SchedulingPolicy, weighted_round_robin, deficit_round_robin, fifo, priority}

unfoldable pub parse_scheduling_policy : String → Option SchedulingPolicy
parse_scheduling_policy value =
    if str_eq value "weighted_rr"
    then some weighted_round_robin
    else if str_eq value "drr"
    then some deficit_round_robin
    else if str_eq value "fifo"
    then some fifo
    else if str_eq value "priority"
    then some priority
    else none

unfoldable pub scheduling_policy_name : SchedulingPolicy → String
scheduling_policy_name weighted_round_robin = "weighted_rr"
scheduling_policy_name deficit_round_robin = "drr"
scheduling_policy_name fifo = "fifo"
scheduling_policy_name priority = "priority"

-- Parsing and naming are inverse: a text parses as a policy exactly when it is that policy's name.
pub parse-eq-name :
    (value : String) (policy : SchedulingPolicy)
    → (parse_scheduling_policy value ≡ some policy) ↔ (value ≡ scheduling_policy_name policy)
unfolding parse_scheduling_policy scheduling_policy_name
parse-eq-name value policy = (λ h. parsed policy h, λ e. named policy e)
  where
    parsed :
        (p : SchedulingPolicy)
        → parse_scheduling_policy value ≡ some p
        → value ≡ scheduling_policy_name p
    parsed p h = ground (
      arith,
      eq_iff value "weighted_rr",
      eq_iff value "drr",
      eq_iff value "fifo",
      eq_iff value "priority",
    )

    named :
        (p : SchedulingPolicy)
        → value ≡ scheduling_policy_name p
        → parse_scheduling_policy value ≡ some p
    named weighted_round_robin e = rw e refl
    named deficit_round_robin e = rw e refl
    named fifo e = rw e refl
    named priority e = rw e refl
