-- ===== src/Execution/Pair/Legs.antt =====
-- Lemmas on the legs of `plan_execution_pair` (src/core/execution_priority.cc).
use glimmer.Prelude.{
  ℕ, ◌≡◌, ◌⊎◌, inl, inr, Bool, some, List, map, arith, get_elem?, Bool-cases, Option-cases, ◌==◌,
  get_elem?-map_inv,
}
use glimmer.Execution.{ExecutionPriorityPeer, ExecutionPriorityDecision, find_peer, find_peer_found}
use glimmer.Execution.Rebalance.{modify}
use glimmer.Execution.Rebalance.Retreats.{get_elem?-modify, NoneExecutes}
use glimmer.Execution.Pair.{ExecutionPairLeg, Placed, place_leg, close, grant}

-- A leg that has been placed: its peer at its position, with the leg's command.
pub record IsPlaced (peers : List ExecutionPriorityPeer) (leg : ExecutionPairLeg) (placed : Placed)
    : Type 0 where
  pub at : get_elem? peers placed.index ≡ some placed.peer
  pub session : placed.peer.session ≡ leg.session
  pub observed : placed.peer.command ≡ some leg.command
  pub measured : placed.peer.pair_context ≡ some placed.context

pub place_leg-IsPlaced :
    (peers : List ExecutionPriorityPeer) (shared : Bool) (leg : ExecutionPairLeg) (placed : Placed)
    → place_leg peers shared leg ≡ some placed
    → IsPlaced peers leg placed
unfolding place_leg
place_leg-IsPlaced peers shared leg placed e = elim (Option-cases (find_peer leg.session peers)) [
  | inl lost ↦ ground arith
  | inr ((i, q), found) ↦
      let known = find_peer_found leg.session peers i q found in
      record {
        at = ground (arith, known);
        session = ground (arith, known);
        observed = ground arith;
        measured = ground arith;
      }
]

pub close-NoneExecutes : (ds : List ExecutionPriorityDecision) → NoneExecutes (map close ds)
close-NoneExecutes ds i d at =
    let (x, was, eq) = get_elem?-map_inv close ds i {y = d} at in ground arith

-- A decision to execute after a grant is the granted one, or was one before.
pub modify-execute :
    (leg : ExecutionPairLeg) (ds : List ExecutionPriorityDecision) (i j : ℕ)
    (d : ExecutionPriorityDecision)
    → get_elem? (modify (grant leg) i ds) j ≡ some d
    → ((i ≡ j) × ((x : ExecutionPriorityDecision) × (get_elem? ds j ≡ some x) × (d ≡ grant leg x)))
      ⊎ (get_elem? ds j ≡ some d)
modify-execute leg ds i j d h = elim (Option-cases (get_elem? ds j)) [
  | inl out ↦ ground (arith, get_elem?-modify (grant leg) i j ds)
  | inr (x, at) ↦ elim (Bool-cases (i == j)) [
    | inl same ↦ inl (ground arith, (x, at, ground (arith, get_elem?-modify (grant leg) i j ds)))
    | inr other ↦ inr (ground (arith, get_elem?-modify (grant leg) i j ds))
  ]
]
