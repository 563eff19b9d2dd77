-- ===== src/Execution/Rebalance/Retreats.antt =====
-- Lemmas on the loops of `plan_execution_rebalance` (src/core/execution_priority.cc).
use glimmer.Prelude.{
  ℕ, zero, suc, ◌≡◌, ◌≢◌, refl, ◌⊎◌, inl, inr, true, Option, none, some, List, [], ◌∷◌, arith,
  length, get_elem?, if◌then◌else◌, Bool-cases, Option-cases, ◌==◌,
}
use glimmer.Execution.{
  ExecutionPriorityPeer, ExecutionPriorityDecision, execute, request_retreat, find_peer,
  find_peer_found,
}
use glimmer.Execution.Rebalance.{
  ExecutionRebalanceLeg, place_leg, place_legs, withhold, withhold_all, retreat, modify,
  retreat_all,
}

pub get_elem?-modify :
    (f : ExecutionPriorityDecision → ExecutionPriorityDecision) (i j : ℕ)
    (ds : List ExecutionPriorityDecision)
    → get_elem? (modify f i ds) j
      ≡ (elim (get_elem? ds j) [ none ↦ none | some d ↦ some (if i == j then f d else d) ])
get_elem?-modify f i j [] = refl
get_elem?-modify f zero zero (d ∷ ds) = ground arith
get_elem?-modify f zero (suc j) (d ∷ ds) = ground arith
get_elem?-modify f (suc i) zero (d ∷ ds) = ground arith
get_elem?-modify f (suc i) (suc j) (d ∷ ds) = ground (arith, get_elem?-modify f i j ds)

-- No decision of the list is to execute.
abbrev pub NoneExecutes : List ExecutionPriorityDecision → Type 0
NoneExecutes ds =
    (i : ℕ) (d : ExecutionPriorityDecision) → get_elem? ds i ≡ some d → d.action ≢ execute

pub withhold_all-NoneExecutes :
    (ps : List ExecutionPriorityPeer) (ds : List ExecutionPriorityDecision)
    → length ds ≡ length ps
    → NoneExecutes (withhold_all ps ds)
unfolding withhold_all
withhold_all-NoneExecutes [] [] h i d e = cc
withhold_all-NoneExecutes [] (x ∷ ds) h i d e = absurd (omega arith)
withhold_all-NoneExecutes (p ∷ ps) [] h i d e = cc
withhold_all-NoneExecutes (p ∷ ps) (x ∷ ds) h zero d e = ground arith
withhold_all-NoneExecutes (p ∷ ps) (x ∷ ds) h (suc i) d e =
    withhold_all-NoneExecutes ps ds (omega arith) i d e

pub retreat_all-NoneExecutes :
    (is : List ℕ) (ds : List ExecutionPriorityDecision)
    → NoneExecutes ds
    → NoneExecutes (retreat_all is ds)
unfolding retreat_all
retreat_all-NoneExecutes [] ds h = h
retreat_all-NoneExecutes (i ∷ is) ds h = retreat_all-NoneExecutes is (modify retreat i ds) λ j d e.
    elim (Option-cases (get_elem? ds j)) [
      | inl out ↦ ground (arith, get_elem?-modify retreat i j ds)
      | inr (x, at) ↦ ground (arith, get_elem?-modify retreat i j ds, h j x at)
    ]

-- The decision at a position asks a session to retreat.
pub record RetreatsAt (ds : List ExecutionPriorityDecision) (i session : ℕ) : Type 0 where
  pub decision : ExecutionPriorityDecision
  pub here : get_elem? ds i ≡ some decision
  pub asks : decision.action ≡ request_retreat
  pub whose : decision.session ≡ session

modify-RetreatsAt :
    (ds : List ExecutionPriorityDecision) (i j n : ℕ)
    → RetreatsAt ds j n
    → RetreatsAt (modify retreat i ds) j n
modify-RetreatsAt ds i j n r = record {
  decision = if i == j then retreat r.decision else r.decision;
  here = ground (arith, get_elem?-modify retreat i j ds, r.here);
  asks = ground (arith, r.asks);
  whose = ground (arith, r.whose);
}

pub retreat_all-keeps :
    (is : List ℕ) (ds : List ExecutionPriorityDecision) (j n : ℕ)
    → RetreatsAt ds j n
    → RetreatsAt (retreat_all is ds) j n
unfolding retreat_all
retreat_all-keeps [] ds j n r = r
retreat_all-keeps (i ∷ is) ds j n r =
    retreat_all-keeps is (modify retreat i ds) j n (modify-RetreatsAt ds i j n r)

pub retreat_all-RetreatsAt :
    (is : List ℕ) (ds : List ExecutionPriorityDecision) (k i : ℕ) (d : ExecutionPriorityDecision)
    → get_elem? is k ≡ some i
    → get_elem? ds i ≡ some d
    → RetreatsAt (retreat_all is ds) i d.session
unfolding retreat_all
retreat_all-RetreatsAt [] ds k i d hk hd = cc
retreat_all-RetreatsAt (x ∷ is) ds zero i d hk hd =
    retreat_all-keeps is (modify retreat x ds) i d.session (record {
      decision = retreat d;
      here = ground (arith, get_elem?-modify retreat x i ds);
      asks = refl;
      whose = refl;
    })
retreat_all-RetreatsAt (x ∷ is) ds (suc k) i d hk hd = elim (Bool-cases (x == i)) [
  | inl same ↦
      retreat_all-RetreatsAt is (modify retreat x ds) k i (retreat d) hk
        (ground (arith, get_elem?-modify retreat x i ds))
  | inr other ↦
      retreat_all-RetreatsAt is (modify retreat x ds) k i d hk
        (ground (arith, get_elem?-modify retreat x i ds))
]

pub get_elem?-withhold_all :
    (ps : List ExecutionPriorityPeer) (ds : List ExecutionPriorityDecision) (i : ℕ)
    (p : ExecutionPriorityPeer) (d : ExecutionPriorityDecision)
    → get_elem? ps i ≡ some p
    → get_elem? ds i ≡ some d
    → get_elem? (withhold_all ps ds) i ≡ some (withhold p d)
unfolding withhold_all
get_elem?-withhold_all [] ds i p d hp hd = cc
get_elem?-withhold_all (q ∷ ps) [] i p d hp hd = cc
get_elem?-withhold_all (q ∷ ps) (x ∷ ds) zero p d hp hd = ground arith
get_elem?-withhold_all (q ∷ ps) (x ∷ ds) (suc i) p d hp hd =
    get_elem?-withhold_all ps ds i p d hp hd

-- A leg that has been placed: its peer at its position, of the common priority, with work.
pub record IsPlaced (peers : List ExecutionPriorityPeer) (leg : ExecutionRebalanceLeg)
    (common : Option ℕ) (i : ℕ) : Type 0 where
  pub peer : ExecutionPriorityPeer
  pub at : get_elem? peers i ≡ some peer
  pub session : peer.session ≡ leg.session
  pub shared : common ≡ some peer.priority
  pub physical : peer.has_physical_work ≡ true

pub place_leg_found :
    (peers : List ExecutionPriorityPeer) (earlier : List ℕ) (wanted : Option ℕ)
    (leg : ExecutionRebalanceLeg) (i : ℕ) (q : ExecutionPriorityPeer)
    → place_leg peers earlier wanted leg ≡ some (i, q)
    → (get_elem? peers i ≡ some q)
      × (q.session ≡ leg.session)
      × (q.has_physical_work ≡ true)
      × ((wanted ≡ none) ⊎ (wanted ≡ some q.priority))
unfolding place_leg
place_leg_found peers earlier wanted leg i q e = elim (Option-cases (find_peer leg.session peers)) [
  | inl lost ↦ ground arith
  | inr ((j, r), found) ↦
      let known = find_peer_found leg.session peers j r found in
      (ground (arith, known), ground (arith, known), ground arith, ground arith)
]

pub place_legs-wanted :
    (legs : List ExecutionRebalanceLeg) (peers : List ExecutionPriorityPeer) (earlier : List ℕ)
    (n : ℕ) (common : Option ℕ) (indices : List ℕ)
    → place_legs peers earlier (some n) legs ≡ some (common, indices)
    → common ≡ some n
unfolding place_legs
place_legs-wanted [] peers earlier n common indices e = ground arith
place_legs-wanted (leg ∷ legs) peers earlier n common indices e =
    elim (Option-cases (place_leg peers earlier (some n) leg)) [
      | inl refused ↦ ground arith
      | inr ((i, q), placed) ↦
          let known = place_leg_found peers earlier (some n) leg i q placed in
          elim (Option-cases (place_legs peers (leg.session ∷ earlier) (some q.priority) legs)) [
            | inl refused ↦ ground arith
            | inr ((c, is), rest) ↦ ground (
              arith,
              known,
              place_legs-wanted legs peers (leg.session ∷ earlier) q.priority c is rest,
            )
          ]
    ]
