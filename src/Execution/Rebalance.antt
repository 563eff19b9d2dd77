-- ===== src/Execution/Rebalance.antt =====
-- `plan_execution_rebalance` of src/core/execution_priority.cc: a checkpoint that only stops work.
-- The array of two legs is `leg_0` and `leg_1`, of which `size` are used.
pub mod Retreats
pub mod Stops
use glimmer.Prelude.{
  ℕ, zero, suc, Bool, true, false, not, ◌&&◌, ◌||◌, Option, none, some, List, [], ◌∷◌, ltb, ◌==◌,
  if◌then◌else◌, is_some, any, length, map,
}
use glimmer.Execution.{
  ExecutionSchedulingMode, priority, ExecutionPriorityPeer, ExecutionPriorityCommand,
  ExecutionPriorityPhysical, ExecutionPriorityCommand-discrete, ExecutionPriorityPhysical-discrete,
  ExecutionPriorityAction, wait, execute, execute_progress, request_retreat,
  ExecutionPriorityDecision, ExecutionPriorityPlan, invalid_plan, nonzero, is_execute, find_peer,
}
use glimmer.Execution.Plan.{plan_execution_priority}

pub record ExecutionRebalanceTrigger : Type 0 where
  pub session : ℕ
  pub command : ExecutionPriorityCommand

pub record ExecutionRebalanceLeg : Type 0 where
  pub session : ℕ
  pub physical : ExecutionPriorityPhysical

pub record ExecutionRebalanceProposal : Type 0 where
  pub trigger : Option ExecutionRebalanceTrigger
  pub leg_0 : ExecutionRebalanceLeg
  pub leg_1 : ExecutionRebalanceLeg
  pub size : ℕ

-- The legs that the proposal uses; a size above two is refused before.
unfoldable pub used_legs : ExecutionRebalanceProposal → List ExecutionRebalanceLeg
used_legs r = if r.size == 1 then r.leg_0 ∷ [] else r.leg_0 ∷ r.leg_1 ∷ []

-- `found->physical == target.physical`
abbrev pub is_physical : ExecutionPriorityPhysical → Option ExecutionPriorityPhysical → Bool
is_physical target none = false
is_physical target (some seen) = elim (ExecutionPriorityPhysical-discrete seen target) [
  | yes e ↦ true
  | no n ↦ false
]

abbrev pub is_command : ExecutionPriorityCommand → Option ExecutionPriorityCommand → Bool
is_command target none = false
is_command target (some seen) = elim (ExecutionPriorityCommand-discrete seen target) [
  | yes e ↦ true
  | no n ↦ false
]

abbrev pub is_priority : Option ℕ → ℕ → Bool
is_priority none n = false
is_priority (some m) n = m == n

abbrev pub rejects_leg : List ℕ → Option ℕ → ExecutionRebalanceLeg → ExecutionPriorityPeer → Bool
rejects_leg earlier wanted target found =
    target.session == 0
    || not found.has_physical_work
    || not (is_physical target.physical found.physical)
    || target.physical.sequence == 0
    || target.physical.generation == 0
    || nonzero found.reservation_generation
    || is_some found.progress
    || (is_some wanted && not (is_priority wanted found.priority))
    || any (λ n. target.session == n) earlier

-- The position and the peer of a leg.
unfoldable pub place_leg :
    List ExecutionPriorityPeer
    → List ℕ
    → Option ℕ
    → ExecutionRebalanceLeg
    → Option (ℕ × ExecutionPriorityPeer)
unfolding find_peer
place_leg peers earlier wanted target = elim (find_peer target.session peers) [
  | none ↦ none
  | some (i, found) ↦ if rejects_leg earlier wanted target found then none else some (i, found)
]

-- The common priority of the legs and their positions.
unfoldable pub place_legs :
    List ExecutionPriorityPeer
    → List ℕ
    → Option ℕ
    → List ExecutionRebalanceLeg
    → Option (Option ℕ × List ℕ)
unfolding place_leg
place_legs peers earlier wanted [] = some (wanted, [])
place_legs peers earlier wanted (target ∷ legs) = elim (place_leg peers earlier wanted target) [
  | none ↦ none
  | some (i, found) ↦
      elim (place_legs peers (target.session ∷ earlier) (some found.priority) legs) [
        | none ↦ none
        | some (common, indices) ↦ some (common, i ∷ indices)
      ]
]

abbrev pub rejects_found_trigger :
    ExecutionRebalanceTrigger
    → Option ℕ
    → List ExecutionRebalanceLeg
    → Option (ℕ × ExecutionPriorityPeer)
    → Bool
rejects_found_trigger trigger wanted legs none = true
rejects_found_trigger trigger wanted legs (some (i, found)) =
    trigger.session == 0
    || not found.has_ready_work
    || found.has_physical_work
    || found.has_paused_work
    || not (is_priority wanted found.priority)
    || not (is_command trigger.command found.command)
    || trigger.command.is_resume
    || nonzero trigger.command.physical_generation
    || not (trigger.command.command_epoch == 1)
    || any (λ leg. leg.session == trigger.session) legs

unfoldable pub rejects_trigger :
    List ExecutionPriorityPeer
    → Option ℕ
    → List ExecutionRebalanceLeg
    → Option ExecutionRebalanceTrigger
    → Bool
unfolding find_peer
rejects_trigger peers wanted legs none = false
rejects_trigger peers wanted legs (some trigger) =
    rejects_found_trigger trigger wanted legs (find_peer trigger.session peers)

-- An ordinary permission to execute is taken back.
abbrev pub withhold : ExecutionPriorityPeer → ExecutionPriorityDecision → ExecutionPriorityDecision
withhold p d =
    if is_execute d.action
    then if is_some p.progress
      then record d { command = none; action = execute_progress; progress = p.progress }
      else record d { command = none; action = wait }
    else d

unfoldable pub withhold_all :
    List ExecutionPriorityPeer → List ExecutionPriorityDecision → List ExecutionPriorityDecision
withhold_all [] ds = ds
withhold_all (p ∷ ps) [] = []
withhold_all (p ∷ ps) (d ∷ ds) = withhold p d ∷ withhold_all ps ds

abbrev pub retreat : ExecutionPriorityDecision → ExecutionPriorityDecision
retreat d = record d { action = request_retreat; command = none }

abbrev pub modify :
    (ExecutionPriorityDecision → ExecutionPriorityDecision)
    → ℕ
    → List ExecutionPriorityDecision
    → List ExecutionPriorityDecision
modify f i [] = []
modify f zero (d ∷ ds) = f d ∷ ds
modify f (suc i) (d ∷ ds) = d ∷ modify f i ds

unfoldable pub retreat_all :
    List ℕ → List ExecutionPriorityDecision → List ExecutionPriorityDecision
retreat_all [] ds = ds
retreat_all (i ∷ is) ds = retreat_all is (modify retreat i ds)

abbrev pub same_priority : Option ℕ → Option ℕ → Bool
same_priority none none = true
same_priority (some a) (some b) = a == b
same_priority _ _ = false

-- The checkpoint for legs that have been placed.
unfoldable pub checkpoint :
    List ExecutionPriorityPeer
    → ExecutionRebalanceProposal
    → ExecutionPriorityPlan
    → Option (Option ℕ × List ℕ)
    → ExecutionPriorityPlan
unfolding rejects_trigger used_legs withhold_all retreat_all
checkpoint peers proposal plan none = invalid_plan
checkpoint peers proposal plan (some (common, indices)) =
    if rejects_trigger peers common (used_legs proposal) proposal.trigger
    then invalid_plan
    else if not (same_priority plan.selected_priority common)
        || any (λ p. p.has_unknown_state) peers
    then plan
    else record plan { decisions = retreat_all indices (withhold_all peers plan.decisions) }

unfoldable pub plan_execution_rebalance :
    List ExecutionPriorityPeer → ExecutionRebalanceProposal → ExecutionPriorityPlan
unfolding checkpoint place_legs used_legs
plan_execution_rebalance peers proposal =
    let plan = plan_execution_priority peers priority in
    if (proposal.size == 0 || ltb 2 proposal.size) || not plan.is_valid
    then invalid_plan
    else checkpoint peers proposal plan (place_legs peers [] none (used_legs proposal))
