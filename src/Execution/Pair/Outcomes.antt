-- ===== src/Execution/Pair/Outcomes.antt =====
-- The outcomes of `plan_execution_pair` (src/core/execution_priority.cc).
use glimmer.Prelude.{
  ℕ, ◌≡◌, refl, ◌⊎◌, inl, inr, true, false, ◌&&◌, some, List, [], ◌∷◌, map, arith, get_elem?, any,
  Bool-cases, Option-cases, ◌==◌, get_elem?-map_inv,
}
use glimmer.Execution.{ExecutionSchedulingMode, ExecutionPriorityPeer, ExecutionPriorityDecision}
use glimmer.Execution.Plan.{plan_execution_priority, decide_peer}
use glimmer.Execution.Plan.Accepted.{plan-IsAccepted}
use glimmer.Execution.Plan.Safety.{accepted_decision}
use glimmer.Execution.Rebalance.{modify}
use glimmer.Execution.Pair.{
  ExecutionPairLeg, ExecutionPairProposal, ExecutionPairPlan, Placed, place_leg, close, grant,
  can_grant, is_occupied, rejects_shared, rejects_proposal, grant_legs, plan_execution_pair,
}
use glimmer.Execution.Pair.Legs.{IsPlaced, place_leg-IsPlaced}

-- The parts of a valid pair plan.
pub record IsPlanned (peers : List ExecutionPriorityPeer) (r : ExecutionPairProposal)
    (mode : ExecutionSchedulingMode) (first second : Placed) : Type 0 where
  pub ordinary_valid : (plan_execution_priority peers mode).is_valid ≡ true
  pub first_placed : IsPlaced peers r.leg_0 first
  pub second_placed : IsPlaced peers r.leg_1 second
  pub fits : rejects_proposal r mode ≡ false
  pub compatible : rejects_shared r first second ≡ false
  pub granted :
      plan_execution_pair peers r mode
      ≡ grant_legs peers r (plan_execution_priority peers mode) first second

pub pair-IsPlanned :
    (peers : List ExecutionPriorityPeer) (r : ExecutionPairProposal)
    (mode : ExecutionSchedulingMode)
    → (plan_execution_pair peers r mode).is_valid ≡ true
    → (first : Placed) × (second : Placed) × IsPlanned peers r mode first second
pair-IsPlanned peers r mode h = elim (Option-cases (place_leg peers r.is_shared r.leg_0)) [
  | inl lost ↦ unfold plan_execution_pair in ground arith
  | inr (first, placed) ↦ elim (Option-cases (place_leg peers r.is_shared r.leg_1)) [
    | inl lost ↦ unfold plan_execution_pair in ground arith
    | inr (second, placed') ↦ (
      first,
      second,
      record {
        ordinary_valid = unfold plan_execution_pair in ground arith;
        first_placed = place_leg-IsPlaced peers r.is_shared r.leg_0 first placed;
        second_placed = place_leg-IsPlaced peers r.is_shared r.leg_1 second placed';
        fits = unfold plan_execution_pair in ground arith;
        compatible = unfold plan_execution_pair in ground arith;
        granted = unfold plan_execution_pair in ground arith;
      },
    )
  ]
]

-- The session of a closed decision is that of the peer at its position.
pub closed_session :
    (peers : List ExecutionPriorityPeer) (mode : ExecutionSchedulingMode) (i : ℕ)
    (p : ExecutionPriorityPeer) (x : ExecutionPriorityDecision)
    → (plan_execution_priority peers mode).is_valid ≡ true
    → get_elem? peers i ≡ some p
    → get_elem? (map close (plan_execution_priority peers mode).decisions) i ≡ some x
    → x.session ≡ p.session
closed_session peers mode i p x valid here at =
    let (s, a) = plan-IsAccepted peers mode valid in
    let (d, was, eq) =
      get_elem?-map_inv close (plan_execution_priority peers mode).decisions i {y = x} at in
    let (q, there, made) = accepted_decision peers mode s a i {d = d} was in
    unfold decide_peer in ground arith

-- The three outcomes of a valid pair plan.
pub data Outcome (peers : List ExecutionPriorityPeer) (r : ExecutionPairProposal)
    (mode : ExecutionSchedulingMode) (result : ExecutionPairPlan) : Type 0 where
  nothing :
      result.grants ≡ []
      → result.priority_plan.decisions ≡ map close (plan_execution_priority peers mode).decisions
      → result.is_shared ≡ false
      → Outcome peers r mode result
  single :
      (leg : ExecutionPairLeg) (placed : Placed)
      → (leg ≡ r.leg_0) ⊎ (leg ≡ r.leg_1)
      → IsPlaced peers leg placed
      → can_grant (plan_execution_priority peers mode) placed ≡ true
      → any is_occupied peers ≡ false
      → result.grants ≡ leg ∷ []
      → result.priority_plan.decisions
        ≡ modify (grant leg) placed.index (map close (plan_execution_priority peers mode).decisions)
      → result.is_shared ≡ false
      → Outcome peers r mode result
  both :
      (first second : Placed)
      → IsPlaced peers r.leg_0 first
      → IsPlaced peers r.leg_1 second
      → r.is_shared ≡ true
      → rejects_shared r first second ≡ false
      → can_grant (plan_execution_priority peers mode) first ≡ true
      → can_grant (plan_execution_priority peers mode) second ≡ true
      → any is_occupied peers ≡ false
      → result.grants ≡ r.leg_0 ∷ r.leg_1 ∷ []
      → result.priority_plan.decisions
        ≡ modify (grant r.leg_1) second.index (
            modify
              (grant r.leg_0)
              first.index
              (map close (plan_execution_priority peers mode).decisions))
      → Outcome peers r mode result

granted-Outcome :
    (peers : List ExecutionPriorityPeer) (r : ExecutionPairProposal)
    (mode : ExecutionSchedulingMode) (first second : Placed)
    → IsPlaced peers r.leg_0 first
    → IsPlaced peers r.leg_1 second
    → rejects_shared r first second ≡ false
    → Outcome peers r mode (grant_legs peers r (plan_execution_priority peers mode) first second)
unfolding grant_legs
granted-Outcome peers r mode first second p q c = elim (Bool-cases (any is_occupied peers)) [
  | inl occupied ↦ nothing (ground arith) (ground arith) (ground arith)
  | inr free ↦ elim (Bool-cases r.is_shared) [
    | inl shared ↦
        elim (Bool-cases (
          can_grant (plan_execution_priority peers mode) first
          && can_grant (plan_execution_priority peers mode) second)) [
            | inl able ↦
                both first second p q shared c (ground arith) (ground arith) free (ground arith)
                  (ground arith)
            | inr unable ↦ nothing (ground arith) (ground arith) (ground arith)
          ]
    | inr serial ↦ elim (Bool-cases (r.first_serial == 0)) [
      | inl zeroth ↦ elim (Bool-cases (can_grant (plan_execution_priority peers mode) first)) [
        | inl able ↦
            single r.leg_0 first (inl refl) p able free (ground arith) (ground arith) (ground arith)
        | inr unable ↦ nothing (ground arith) (ground arith) (ground arith)
      ]
      | inr later ↦ elim (Bool-cases (can_grant (plan_execution_priority peers mode) second)) [
        | inl able ↦
            single r.leg_1 second (inr refl) q able free (ground arith) (ground arith)
              (ground arith)
        | inr unable ↦ nothing (ground arith) (ground arith) (ground arith)
      ]
    ]
  ]
]

pub pair-Outcome :
    (peers : List ExecutionPriorityPeer) (r : ExecutionPairProposal)
    (mode : ExecutionSchedulingMode)
    → (plan_execution_pair peers r mode).is_valid ≡ true
    → ((plan_execution_priority peers mode).is_valid ≡ true)
      × Outcome peers r mode (plan_execution_pair peers r mode)
pair-Outcome peers r mode h =
    let (first, second, v) = pair-IsPlanned peers r mode h in
    (
      v.ordinary_valid,
      rw v.granted
          (granted-Outcome peers r mode first second v.first_placed v.second_placed v.compatible),
    )
