-- ===== src/Execution/Rebalance/Stops.antt =====
-- The checkpoint of src/core/execution_priority.cc stops its legs and starts nothing.
use glimmer.Prelude.{
  ℕ, zero, suc, ◌<◌, ◌≡◌, ◌⊎◌, inl, inr, true, false, Option, none, some, List, [], ◌∷◌, arith,
  length, get_elem?, Option-cases, length-map, get_elem?-map, subst,
}
use glimmer.Execution.{priority, ExecutionPriorityPeer}
use glimmer.Execution.Plan.{plan_execution_priority, decide_peer, outlook, start}
use glimmer.Execution.Plan.Accepted.{plan-IsAccepted, scan_bounds}
use glimmer.Execution.Plan.Safety.{any_unknown}
use glimmer.Execution.Rebalance.{
  ExecutionRebalanceLeg, ExecutionRebalanceProposal, used_legs, place_leg, place_legs, withhold,
  withhold_all, retreat_all, same_priority, plan_execution_rebalance,
}
use glimmer.Execution.Rebalance.Retreats.{
  NoneExecutes, withhold_all-NoneExecutes, retreat_all-NoneExecutes, RetreatsAt,
  retreat_all-RetreatsAt, get_elem?-withhold_all, IsPlaced, place_leg_found, place_legs-wanted,
}

place_legs-cons :
    (x : ExecutionRebalanceLeg) (legs : List ExecutionRebalanceLeg)
    (peers : List ExecutionPriorityPeer) (earlier : List ℕ) (wanted common : Option ℕ)
    (indices : List ℕ)
    → place_legs peers earlier wanted (x ∷ legs) ≡ some (common, indices)
    → (i : ℕ) × (q : ExecutionPriorityPeer) × (is : List ℕ) × (place_leg peers earlier wanted x
        ≡ some (i, q))
      × (place_legs peers (x.session ∷ earlier) (some q.priority) legs ≡ some (common, is))
      × (indices ≡ i ∷ is)
unfolding place_legs
place_legs-cons x legs peers earlier wanted common indices e =
    elim (Option-cases (place_leg peers earlier wanted x)) [
      | inl refused ↦ ground arith
      | inr ((i, q), placed) ↦
          elim (Option-cases (place_legs peers (x.session ∷ earlier) (some q.priority) legs)) [
            | inl refused ↦ ground arith
            | inr ((c, is), rest) ↦ (i, q, is, placed, ground arith, ground arith)
          ]
    ]

-- Each leg stands at its index.
place_legs-IsPlaced :
    (legs : List ExecutionRebalanceLeg) (peers : List ExecutionPriorityPeer) (earlier : List ℕ)
    (wanted common : Option ℕ) (indices : List ℕ) (k : ℕ) (leg : ExecutionRebalanceLeg)
    → place_legs peers earlier wanted legs ≡ some (common, indices)
    → get_elem? legs k ≡ some leg
    → (i : ℕ) × (get_elem? indices k ≡ some i) × IsPlaced peers leg common i
place_legs-IsPlaced [] peers earlier wanted common indices k leg e at = cc
place_legs-IsPlaced (x ∷ legs) peers earlier wanted common indices zero leg e at =
    let (i, q, is, placed, rest, eq) =
      place_legs-cons x legs peers earlier wanted common indices e in
    let known = place_leg_found peers earlier wanted x i q placed in
    (
      i,
      ground arith,
      record {
        peer = q;
        at = known.0;
        session = ground (arith, known);
        shared = place_legs-wanted legs peers (x.session ∷ earlier) q.priority common is rest;
        physical = known.2;
      },
    )
place_legs-IsPlaced (x ∷ legs) peers earlier wanted common indices (suc k) leg e at =
    let (i, q, is, placed, rest, eq) =
      place_legs-cons x legs peers earlier wanted common indices e in
    let (j, here, standing) =
      place_legs-IsPlaced legs peers (x.session ∷ earlier) (some q.priority) common is k leg rest
        at in
    (j, ground arith, standing)

-- Why a checkpoint leaves the ordinary plan as it is: some peer is of unknown state, or work of
-- higher priority than a leg's is selected.
pub data IsOverruled (peers : List ExecutionPriorityPeer) (r : ExecutionRebalanceProposal)
    : Type 0 where
  unknown : any_unknown peers ≡ true → IsOverruled peers r
  outranked :
      (i top : ℕ) (p : ExecutionPriorityPeer)
      → get_elem? peers i ≡ some p
      → p.session ≡ r.leg_0.session
      → (plan_execution_priority peers priority).selected_priority ≡ some top
      → p.priority < top
      → IsOverruled peers r

checkpoint_cases :
    (peers : List ExecutionPriorityPeer) (r : ExecutionRebalanceProposal)
    → (plan_execution_rebalance peers r).is_valid ≡ true
    → (common : Option ℕ) × (indices : List ℕ) × ((plan_execution_priority peers priority).is_valid
        ≡ true)
      × (place_legs peers [] none (used_legs r) ≡ some (common, indices))
      × (((plan_execution_rebalance peers r ≡ plan_execution_priority peers priority)
            × ((any_unknown peers ≡ true)
                ⊎ (same_priority (plan_execution_priority peers priority).selected_priority common
                    ≡ false)))
          ⊎ ((plan_execution_rebalance peers r).decisions
              ≡ retreat_all indices
                  (withhold_all peers (plan_execution_priority peers priority).decisions)))
checkpoint_cases peers r h = elim (Option-cases (place_legs peers [] none (used_legs r))) [
  | inl refused ↦ unfold plan_execution_rebalance in ground arith
  | inr ((common, indices), placed) ↦ (
    common,
    indices,
    unfold plan_execution_rebalance in ground arith,
    placed,
    unfold plan_execution_rebalance in ground arith,
  )
]

leg_outranked :
    (peers : List ExecutionPriorityPeer) (r : ExecutionRebalanceProposal) (common : Option ℕ)
    (indices : List ℕ)
    → (plan_execution_priority peers priority).is_valid ≡ true
    → place_legs peers [] none (used_legs r) ≡ some (common, indices)
    → same_priority (plan_execution_priority peers priority).selected_priority common ≡ false
    → IsOverruled peers r
leg_outranked peers r common indices valid placed h =
    let (s, a) = plan-IsAccepted peers priority valid in
    let (i, here, leg) =
      place_legs-IsPlaced (used_legs r) peers [] none common indices 0 r.leg_0 placed
        (unfold used_legs in ground arith) in
    let (top, sel, bound) =
      scan_bounds priority peers [] start s i leg.peer a.scanned leg.at
        (ground (arith, leg.physical)) in
    outranked i top leg.peer leg.at leg.session (ground (arith, a.planned))
      (ground (arith, a.planned, leg.shared))

placed-RetreatsAt :
    (peers : List ExecutionPriorityPeer) (r : ExecutionRebalanceProposal) (common : Option ℕ)
    (indices : List ℕ) (k : ℕ) (leg : ExecutionRebalanceLeg)
    → (plan_execution_priority peers priority).is_valid ≡ true
    → place_legs peers [] none (used_legs r) ≡ some (common, indices)
    → get_elem? (used_legs r) k ≡ some leg
    → (i : ℕ) × RetreatsAt
        (retreat_all indices
          (withhold_all peers (plan_execution_priority peers priority).decisions))
        i
        leg.session
placed-RetreatsAt peers r common indices k leg valid placed at =
    let (s, a) = plan-IsAccepted peers priority valid in
    let (i, here, standing) =
      place_legs-IsPlaced (used_legs r) peers [] none common indices k leg placed at in
    let d = decide_peer priority (outlook priority s peers) standing.peer in
    let ds = (plan_execution_priority peers priority).decisions in
    let decided : get_elem? ds i ≡ some d =
      rw a.planned
        (get_elem?-map (decide_peer priority (outlook priority s peers)) peers i standing.at) in
    let kept : (withhold standing.peer d).session ≡ leg.session =
      unfold decide_peer in ground (arith, standing.session) in
    (
      i,
      subst (RetreatsAt (retreat_all indices (withhold_all peers ds)) i) kept (
          retreat_all-RetreatsAt indices (withhold_all peers ds) k i (withhold standing.peer d) here
            (get_elem?-withhold_all peers ds i standing.peer d standing.at decided)),
    )

-- A valid checkpoint starts nothing and stops its legs: no decision is to execute, and each leg's
-- session is asked to retreat. Otherwise it is the ordinary priority plan, and only because some
-- peer is of unknown state or work that outranks the legs is selected.
pub rebalance_stops :
    (peers : List ExecutionPriorityPeer) (r : ExecutionRebalanceProposal)
    → (plan_execution_rebalance peers r).is_valid ≡ true
    → ((plan_execution_rebalance peers r ≡ plan_execution_priority peers priority)
        × IsOverruled peers r)
      ⊎ (NoneExecutes (plan_execution_rebalance peers r).decisions
          × ((k : ℕ) (leg : ExecutionRebalanceLeg)
              → get_elem? (used_legs r) k ≡ some leg
              → (i : ℕ) × RetreatsAt (plan_execution_rebalance peers r).decisions i leg.session))
rebalance_stops peers r h =
    let (common, indices, valid, placed, cases) = checkpoint_cases peers r h in
    let (s, a) = plan-IsAccepted peers priority valid in
    let ds = (plan_execution_priority peers priority).decisions in
    let long : length ds ≡ length peers =
      rw a.planned (length-map (decide_peer priority (outlook priority s peers)) peers) in
    elim cases [
      | inl (same, inl u) ↦ inl (same, unknown u)
      | inl (same, inr o) ↦ inl (same, leg_outranked peers r common indices valid placed o)
      | inr stopped ↦ inr (
        rw stopped (
            retreat_all-NoneExecutes indices (withhold_all peers ds)
              (withhold_all-NoneExecutes peers ds long)),
        λ k leg at. rw stopped (placed-RetreatsAt peers r common indices k leg valid placed at),
      )
    ]
