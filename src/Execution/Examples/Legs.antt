-- ===== src/Execution/Examples/Legs.antt =====
-- The theorems on checkpoints and pairs at concrete legs.
use native.Mathlib.Decide.{ℕ_discrete}
use glimmer.Prelude.{ℕ, ◌≡◌, ◌⊎◌, refl, true, false, some, none, List, [], ◌∷◌, get_elem?}
use glimmer.Execution.{
  priority, ExecutionPriorityPeer, ExecutionPriorityPhysical, ExecutionPairContext, execute,
  ExecutionPriorityDecision, find_peer, ExecutionPriorityPhysical-discrete,
  ExecutionPriorityCommand-discrete,
}
use glimmer.Execution.Plan.{plan_execution_priority, scan_peer, rejects_peer, decide_peer}
use glimmer.Execution.Examples.{resting, ready, launch}
use glimmer.Execution.Rebalance.{
  ExecutionRebalanceLeg, ExecutionRebalanceProposal, used_legs, plan_execution_rebalance,
}
use glimmer.Execution.Rebalance.Retreats.{NoneExecutes, RetreatsAt}
use glimmer.Execution.Rebalance.Stops.{IsOverruled, rebalance_stops}
use glimmer.Execution.Pair.{ExecutionPairLeg, ExecutionPairProposal, plan_execution_pair}
use glimmer.Execution.Pair.Grants.{pair_executes_grants}

abbrev epoch : ExecutionPriorityPhysical
epoch = record { sequence = 3; generation = 2 }

abbrev busy_peers : List ExecutionPriorityPeer
busy_peers =
    record (resting 1 9) { has_physical_work = true; physical = some epoch } ∷ ready 2 9 ∷ []

abbrev checkpointed : ExecutionRebalanceProposal
checkpointed = record {
  trigger = some (record { session = 2; command = launch });
  leg_0 = record { session = 1; physical = epoch };
  leg_1 = record { session = 0; physical = epoch };
  size = 1;
}

rebalance_stops_example :
    ((plan_execution_rebalance busy_peers checkpointed
        ≡ plan_execution_priority busy_peers priority)
      × IsOverruled busy_peers checkpointed)
    ⊎ (NoneExecutes (plan_execution_rebalance busy_peers checkpointed).decisions
        × ((k : ℕ) (leg : ExecutionRebalanceLeg)
            → get_elem? (used_legs checkpointed) k ≡ some leg
            → (i : ℕ) × RetreatsAt
                (plan_execution_rebalance busy_peers checkpointed).decisions
                i
                leg.session))
unfolding plan_execution_rebalance plan_execution_priority scan_peer rejects_peer decide_peer
    find_peer ExecutionPriorityPhysical-discrete ExecutionPriorityCommand-discrete ℕ_discrete
rebalance_stops_example = rebalance_stops busy_peers checkpointed refl

abbrev context : ExecutionPairContext
context = record {
  execution_domain = 1;
  catalog_generation = 6;
  workers = 40;
  is_configuration_materialized = true;
}

abbrev measured_peers : List ExecutionPriorityPeer
measured_peers =
    record (ready 1 9) { pair_context = some context }
    ∷ record (ready 2 9) { pair_context = some context }
    ∷ []

abbrev leg_of : ℕ → ExecutionPairLeg
leg_of session = record {
  session = session;
  command = launch;
  catalog_generation = 6;
  workers = 40;
}

abbrev pair : ExecutionPairProposal
pair = record { leg_0 = leg_of 1; leg_1 = leg_of 2; is_shared = false; first_serial = 1 }

abbrev started : ExecutionPriorityDecision
started = record { session = 2; action = execute; progress = none; command = some launch }

pair_executes_grants_example :
    (k : ℕ) × (leg : ExecutionPairLeg) × (get_elem?
        (plan_execution_pair measured_peers pair priority).grants
        k
      ≡ some leg)
    × (2 ≡ leg.session)
    × (some launch ≡ some leg.command)
unfolding plan_execution_pair plan_execution_priority scan_peer rejects_peer decide_peer find_peer
    ExecutionPriorityCommand-discrete ℕ_discrete
pair_executes_grants_example =
    pair_executes_grants measured_peers pair priority 1 started refl refl refl
