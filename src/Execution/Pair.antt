-- ===== src/Execution/Pair.antt =====
-- `plan_execution_pair` of src/core/execution_priority.cc: two measured legs, or one of them. The
-- array of grants with its count is the list `grants`.
pub mod Legs
pub mod Outcomes
pub mod Grants
use glimmer.Prelude.{
  ℕ, zero, suc, Bool, true, false, not, ◌&&◌, ◌||◌, Option, none, some, List, [], ◌∷◌, ltb, ◌==◌,
  if◌then◌else◌, any, map, get_elem?,
}
use glimmer.Execution.{
  ExecutionSchedulingMode, priority, profile, priority_space_share, ExecutionPriorityPeer,
  ExecutionPriorityCommand, ExecutionPairContext, wait, execute, ExecutionPriorityDecision,
  ExecutionPriorityPlan, invalid_plan, nonzero, is_execute, find_peer,
}
use glimmer.Execution.Plan.{plan_execution_priority}
use glimmer.Execution.Rebalance.{is_command, modify}

pub record ExecutionPairLeg : Type 0 where
  pub session : ℕ
  pub command : ExecutionPriorityCommand
  pub catalog_generation : ℕ
  pub workers : ℕ

pub record ExecutionPairProposal : Type 0 where
  pub leg_0 : ExecutionPairLeg
  pub leg_1 : ExecutionPairLeg
  pub is_shared : Bool
  pub first_serial : ℕ

pub record ExecutionPairPlan : Type 0 where
  pub priority_plan : ExecutionPriorityPlan
  pub grants : List ExecutionPairLeg
  pub is_valid : Bool
  pub is_shared : Bool

abbrev pub invalid_pair : ExecutionPairPlan
invalid_pair = record {
  priority_plan = invalid_plan;
  grants = [];
  is_valid = false;
  is_shared = false;
}

abbrev pub excludes_pairs : ExecutionSchedulingMode → Bool
excludes_pairs profile = true
excludes_pairs priority_space_share = true
excludes_pairs _ = false

unfoldable pub rejects_proposal : ExecutionPairProposal → ExecutionSchedulingMode → Bool
rejects_proposal r mode =
    excludes_pairs mode
    || ltb 1 r.first_serial
    || (r.is_shared && nonzero r.first_serial)
    || r.leg_0.session == 0
    || r.leg_0.session == r.leg_1.session

abbrev pub int32_max : ℕ
int32_max = 2147483647

-- A leg with its position, its peer and the peer's context.
pub record Placed : Type 0 where
  pub index : ℕ
  pub peer : ExecutionPriorityPeer
  pub context : ExecutionPairContext

abbrev pub rejects_leg : Bool → ExecutionPairLeg → ExecutionPairContext → Bool
rejects_leg shared leg context =
    leg.catalog_generation == 0
    || not (leg.catalog_generation == context.catalog_generation)
    || not (leg.workers == context.workers)
    || ltb int32_max leg.workers
    || (leg.command.is_resume && leg.workers == 0)
    || (shared && leg.workers == 0)

abbrev pub place_found :
    Bool
    → ExecutionPairLeg
    → ℕ
    → ExecutionPriorityPeer
    → Option ExecutionPairContext
    → Option Placed
place_found shared leg i found none = none
place_found shared leg i found (some context) =
    if not (is_command leg.command found.command) || rejects_leg shared leg context
    then none
    else some (record { index = i; peer = found; context = context })

unfoldable pub place_leg : List ExecutionPriorityPeer → Bool → ExecutionPairLeg → Option Placed
unfolding find_peer
place_leg peers shared leg = elim (find_peer leg.session peers) [
  | none ↦ none
  | some (i, found) ↦ place_found shared leg i found found.pair_context
]

-- The tests on a shared pair; the peers' commands are those of the legs.
unfoldable pub rejects_shared : ExecutionPairProposal → Placed → Placed → Bool
rejects_shared r first second =
    r.is_shared
    && (first.context.execution_domain == 0
        || not (first.context.execution_domain == second.context.execution_domain)
        || r.leg_0.command.member_generation == 0
        || r.leg_1.command.member_generation == 0
        || r.leg_0.command.member_generation == r.leg_1.command.member_generation
        || not (
            r.leg_0.command.physical_configuration_epoch
            == r.leg_1.command.physical_configuration_epoch))

-- Without a grant nobody may execute; dependency cuts, retreats and quarantine stay.
abbrev pub close : ExecutionPriorityDecision → ExecutionPriorityDecision
close d = record d { action = if is_execute d.action then wait else d.action; command = none }

abbrev pub executes : Option ExecutionPriorityDecision → Bool
executes none = false
executes (some d) = is_execute d.action

abbrev pub can_grant : ExecutionPriorityPlan → Placed → Bool
can_grant ordinary placed =
    executes (get_elem? ordinary.decisions placed.index)
    && placed.context.is_configuration_materialized

abbrev pub grant : ExecutionPairLeg → ExecutionPriorityDecision → ExecutionPriorityDecision
grant leg d = record d { action = execute; command = some leg.command }

abbrev pub is_occupied : ExecutionPriorityPeer → Bool
is_occupied p = p.has_physical_work || p.has_unknown_state

abbrev pub grant_one :
    ExecutionPriorityPlan → ExecutionPriorityPlan → ExecutionPairLeg → Placed → ExecutionPairPlan
grant_one ordinary closed leg placed =
    if can_grant ordinary placed
    then record {
      priority_plan = record closed {
        decisions = modify (grant leg) placed.index closed.decisions;
      };
      grants = leg ∷ [];
      is_valid = true;
      is_shared = false;
    }
    else record { priority_plan = closed; grants = []; is_valid = true; is_shared = false }

abbrev pub grant_both :
    ExecutionPriorityPlan
    → ExecutionPriorityPlan
    → ExecutionPairProposal
    → Placed
    → Placed
    → ExecutionPairPlan
grant_both ordinary closed r first second =
    if can_grant ordinary first && can_grant ordinary second
    then record {
      priority_plan = record closed {
        decisions =
            modify (grant r.leg_1) second.index
              (modify (grant r.leg_0) first.index closed.decisions);
      };
      grants = r.leg_0 ∷ r.leg_1 ∷ [];
      is_valid = true;
      is_shared = true;
    }
    else record { priority_plan = closed; grants = []; is_valid = true; is_shared = false }

-- The grants for two legs that have been placed.
unfoldable pub grant_legs :
    List ExecutionPriorityPeer
    → ExecutionPairProposal
    → ExecutionPriorityPlan
    → Placed
    → Placed
    → ExecutionPairPlan
grant_legs peers r ordinary first second =
    let closed = record ordinary { decisions = map close ordinary.decisions } in
    if any is_occupied peers
    then record { priority_plan = closed; grants = []; is_valid = true; is_shared = false }
    else if r.is_shared
    then grant_both ordinary closed r first second
    else if r.first_serial == 0
    then grant_one ordinary closed r.leg_0 first
    else grant_one ordinary closed r.leg_1 second

unfoldable pub pair_placed :
    List ExecutionPriorityPeer
    → ExecutionPairProposal
    → ExecutionPriorityPlan
    → Option Placed
    → Option Placed
    → ExecutionPairPlan
unfolding rejects_shared grant_legs
pair_placed peers r ordinary none second = invalid_pair
pair_placed peers r ordinary (some first) none = invalid_pair
pair_placed peers r ordinary (some first) (some second) =
    if rejects_shared r first second then invalid_pair else grant_legs peers r ordinary first second

unfoldable pub plan_execution_pair :
    List ExecutionPriorityPeer → ExecutionPairProposal → ExecutionSchedulingMode → ExecutionPairPlan
unfolding rejects_proposal place_leg pair_placed
plan_execution_pair peers r mode =
    let ordinary = plan_execution_priority peers mode in
    if rejects_proposal r mode || not ordinary.is_valid
    then invalid_pair
    else pair_placed peers r ordinary (place_leg peers r.is_shared r.leg_0)
        (place_leg peers r.is_shared r.leg_1)
