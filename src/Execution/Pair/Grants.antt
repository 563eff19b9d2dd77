-- ===== src/Execution/Pair/Grants.antt =====
-- What a valid pair plan of src/core/execution_priority.cc grants.
use glimmer.Prelude.{
  ℕ, zero, suc, ◌≡◌, refl, ◌⊎◌, inl, inr, true, false, some, List, map, arith, get_elem?, any,
  subst,
}
use glimmer.Execution.{
  ExecutionSchedulingMode, ExecutionPriorityPeer, ExecutionPriorityDecision, ExecutionPairContext,
  execute,
}
use glimmer.Execution.Plan.{plan_execution_priority}
use glimmer.Execution.Plan.Safety.{decision_at}
use glimmer.Execution.Rebalance.{modify}
use glimmer.Execution.Pair.{
  ExecutionPairLeg, ExecutionPairProposal, Placed, close, grant, can_grant, executes, is_occupied,
  plan_execution_pair,
}
use glimmer.Execution.Pair.Legs.{IsPlaced, close-NoneExecutes, modify-execute}
use glimmer.Execution.Pair.Outcomes.{Outcome, nothing, single, both, pair-Outcome, closed_session}

module _ (peers : List ExecutionPriorityPeer) (r : ExecutionPairProposal)
    (mode : ExecutionSchedulingMode)
    (valid : (plan_execution_priority peers mode).is_valid ≡ true) where
  abbrev closed : List ExecutionPriorityDecision
  closed = map close (plan_execution_priority peers mode).decisions

  granted_once :
      (leg : ExecutionPairLeg) (placed : Placed) (i : ℕ) (d : ExecutionPriorityDecision)
      → IsPlaced peers leg placed
      → get_elem? (modify (grant leg) placed.index closed) i ≡ some d
      → d.action ≡ execute
      → (d.session ≡ leg.session) × (d.command ≡ some leg.command)
  granted_once leg placed i d p at acts = elim (modify-execute leg closed placed.index i d at) [
    | inl (same, (x, was, eq)) ↦
        let session = closed_session peers mode i placed.peer x valid (rw (← same) p.at) was in
        (ground (arith, p.session, session), ground arith)
    | inr old ↦
        absurd (close-NoneExecutes (plan_execution_priority peers mode).decisions i d old acts)
  ]

  granted_twice :
      (first second : Placed) (i : ℕ) (d : ExecutionPriorityDecision)
      → IsPlaced peers r.leg_0 first
      → IsPlaced peers r.leg_1 second
      → get_elem?
          (modify (grant r.leg_1) second.index (modify (grant r.leg_0) first.index closed))
          i
        ≡ some d
      → d.action ≡ execute
      → ((d.session ≡ r.leg_0.session) × (d.command ≡ some r.leg_0.command))
        ⊎ ((d.session ≡ r.leg_1.session) × (d.command ≡ some r.leg_1.command))
  granted_twice first second i d p q at acts =
      elim (modify-execute r.leg_1 (modify (grant r.leg_0) first.index closed) second.index i d
        at) [
          | inl (same, (x, was, eq)) ↦
              inr (ground (arith, q.session, second_session x was same eq), ground arith)
          | inr old ↦ inl (granted_once r.leg_0 first i d p old acts)
        ]
    where
      second_session :
          (x : ExecutionPriorityDecision)
          → get_elem? (modify (grant r.leg_0) first.index closed) i ≡ some x
          → second.index ≡ i
          → d ≡ grant r.leg_1 x
          → d.session ≡ second.peer.session
      second_session x was same eq = elim (modify-execute r.leg_0 closed first.index i x was) [
        | inl (same', (y, older, eq')) ↦
            let s = closed_session peers mode i second.peer y valid (rw (← same) q.at) older in
            ground arith
        | inr older ↦
            let s = closed_session peers mode i second.peer x valid (rw (← same) q.at) older in
            ground arith
      ]

-- In a valid pair plan a decision to execute is one of the grants: it carries the session and the
-- command of a granted leg.
pub pair_executes_grants :
    (peers : List ExecutionPriorityPeer) (r : ExecutionPairProposal)
    (mode : ExecutionSchedulingMode) (i : ℕ) (d : ExecutionPriorityDecision)
    → (plan_execution_pair peers r mode).is_valid ≡ true
    → decision_at (plan_execution_pair peers r mode).priority_plan i ≡ some d
    → d.action ≡ execute
    → (k : ℕ) × (leg : ExecutionPairLeg) × (get_elem? (plan_execution_pair peers r mode).grants k
        ≡ some leg)
      × (d.session ≡ leg.session)
      × (d.command ≡ some leg.command)
pair_executes_grants peers r mode i d h at acts =
    let (valid, o) = pair-Outcome peers r mode h in go valid o
  where
    go :
        (plan_execution_priority peers mode).is_valid ≡ true
        → Outcome peers r mode (plan_execution_pair peers r mode)
        → (k : ℕ) × (leg : ExecutionPairLeg) × (get_elem?
              (plan_execution_pair peers r mode).grants
              k
            ≡ some leg)
          × (d.session ≡ leg.session)
          × (d.command ≡ some leg.command)
    go valid (nothing g ds s) = absurd (close-NoneExecutes _ i d (rw ds at at) acts)
    go valid (single leg placed w p c f g ds s) =
        let (session, command) =
          granted_once peers r mode valid leg placed i d p (rw ds at at) acts in
        (0, leg, ground arith, session, command)
    go valid (both first second p q sh c c1 c2 f g ds) =
        elim (granted_twice peers r mode valid first second i d p q (rw ds at at) acts) [
          | inl (session, command) ↦ (0, r.leg_0, ground arith, session, command)
          | inr (session, command) ↦ (1, r.leg_1, ground arith, session, command)
        ]

-- What a grant rests on: the leg is one that was proposed; its peer has exactly the leg's session
-- and command; the ordinary plan lets that peer execute; the peer's configuration is materialised.
pub record IsGranted (peers : List ExecutionPriorityPeer) (r : ExecutionPairProposal)
    (mode : ExecutionSchedulingMode) (leg : ExecutionPairLeg) : Type 0 where
  pub proposed : (leg ≡ r.leg_0) ⊎ (leg ≡ r.leg_1)
  pub index : ℕ
  pub peer : ExecutionPriorityPeer
  pub context : ExecutionPairContext
  pub at : get_elem? peers index ≡ some peer
  pub session : peer.session ≡ leg.session
  pub observed : peer.command ≡ some leg.command
  pub measured : peer.pair_context ≡ some context
  pub materialized : context.is_configuration_materialized ≡ true
  pub authorized : executes (decision_at (plan_execution_priority peers mode) index) ≡ true

placed-IsGranted :
    (peers : List ExecutionPriorityPeer) (r : ExecutionPairProposal)
    (mode : ExecutionSchedulingMode) (leg : ExecutionPairLeg) (placed : Placed)
    → (leg ≡ r.leg_0) ⊎ (leg ≡ r.leg_1)
    → IsPlaced peers leg placed
    → can_grant (plan_execution_priority peers mode) placed ≡ true
    → IsGranted peers r mode leg
placed-IsGranted peers r mode leg placed w p c = record {
  proposed = w;
  index = placed.index;
  peer = placed.peer;
  context = placed.context;
  at = p.at;
  session = p.session;
  observed = p.observed;
  measured = p.measured;
  materialized = ground arith;
  authorized = ground arith;
}

-- Every grant of a valid pair plan is one of the proposed legs; its peer was observed with exactly
-- the leg's session and command and with a materialised configuration, and the ordinary plan lets
-- that peer execute. Grants are given only while no peer holds physical work or is of unknown
-- state.
pub pair_grants_rest :
    (peers : List ExecutionPriorityPeer) (r : ExecutionPairProposal)
    (mode : ExecutionSchedulingMode) (k : ℕ) (leg : ExecutionPairLeg)
    → (plan_execution_pair peers r mode).is_valid ≡ true
    → get_elem? (plan_execution_pair peers r mode).grants k ≡ some leg
    → IsGranted peers r mode leg × (any is_occupied peers ≡ false)
pair_grants_rest peers r mode k leg h at = go (pair-Outcome peers r mode h).1 k at
  where
    go :
        Outcome peers r mode (plan_execution_pair peers r mode)
        → (k : ℕ) → get_elem? (plan_execution_pair peers r mode).grants k ≡ some leg
        → IsGranted peers r mode leg × (any is_occupied peers ≡ false)
    go (nothing g ds s) k at = ground arith
    go (single x placed w p c f g ds s) zero at =
        let same : x ≡ leg = ground arith in
        (subst (IsGranted peers r mode) same (placed-IsGranted peers r mode x placed w p c), f)
    go (single x placed w p c f g ds s) (suc k) at = ground arith
    go (both first second p q sh c c1 c2 f g ds) zero at =
        let same : r.leg_0 ≡ leg = ground arith in
        (
          subst (IsGranted peers r mode) same
              (placed-IsGranted peers r mode r.leg_0 first (inl refl) p c1),
          f,
        )
    go (both first second p q sh c c1 c2 f g ds) (suc zero) at =
        let same : r.leg_1 ≡ leg = ground arith in
        (
          subst (IsGranted peers r mode) same
              (placed-IsGranted peers r mode r.leg_1 second (inr refl) q c2),
          f,
        )
    go (both first second p q sh c c1 c2 f g ds) (suc (suc k)) at = ground arith
