-- ===== src/Execution/Plan/Safety.antt =====
-- What a valid plan of `plan_execution_priority` (src/core/execution_priority.cc) authorises.
use glimmer.Prelude.{
  ℕ, ◌≤◌, ◌≡◌, ◌≢◌, refl, ◌⊎◌, Bool, true, false, Option, none, some, List, [], ◌∷◌, map, arith,
  length, get_elem?, any, get_elem?-map_inv,
}
use glimmer.Execution.{
  ExecutionSchedulingMode, ExecutionPriorityPeer, ExecutionPriorityDecision, ExecutionPriorityPlan,
  quarantined,
}
use glimmer.Execution.Plan.{Scan, start, outlook, decide_peer, plan_execution_priority}
use glimmer.Execution.Plan.Accepted.{
  IsAccepted, plan-IsAccepted, scan_unknown, scan_sessions, scan_distinct,
}

abbrev pub any_unknown : List ExecutionPriorityPeer → Bool
any_unknown = any λ p. p.has_unknown_state

abbrev pub any_physical : List ExecutionPriorityPeer → Bool
any_physical = any λ p. p.has_physical_work

-- The decision at a position of a plan.
abbrev pub decision_at : ExecutionPriorityPlan → ℕ → Option ExecutionPriorityDecision
decision_at plan i = get_elem? plan.decisions i

module _ (peers : List ExecutionPriorityPeer) (mode : ExecutionSchedulingMode) (s : Scan)
    (a : IsAccepted peers mode s) where
  pub accepted_decision :
      (i : ℕ) {d : ExecutionPriorityDecision}
      → decision_at (plan_execution_priority peers mode) i ≡ some d
      → (p : ExecutionPriorityPeer) × (get_elem? peers i ≡ some p)
        × (d ≡ decide_peer mode (outlook mode s peers) p)
  accepted_decision i h =
      get_elem?-map_inv (decide_peer mode (outlook mode s peers)) peers i (rw a.planned at h)

  pub accepted_unknown : s.has_unknown ≡ any_unknown peers
  accepted_unknown = ground (arith, scan_unknown mode peers [] start s a.scanned)

-- A valid plan is for at most 64 peers with nonzero and pairwise distinct sessions, and has one
-- decision for each peer, in order and under the peer's session.
pub plan_covers :
    (peers : List ExecutionPriorityPeer) (mode : ExecutionSchedulingMode)
    → (plan_execution_priority peers mode).is_valid ≡ true
    → (length peers ≤ 64)
      × (map (λ d. d.session) (plan_execution_priority peers mode).decisions
          ≡ map (λ p. p.session) peers)
      × ((i : ℕ) (p : ExecutionPriorityPeer) → get_elem? peers i ≡ some p → p.session ≢ 0)
      × ((i j : ℕ) (p q : ExecutionPriorityPeer)
          → get_elem? peers i ≡ some p
          → get_elem? peers j ≡ some q
          → p.session ≡ q.session
          → i ≡ j)
plan_covers peers mode h =
    let (s, a) = plan-IsAccepted peers mode h in
    (
      a.few,
      rw a.planned (sessions s peers),
      (λ i p at. (scan_sessions mode peers [] start s i p a.scanned at).0),
      (λ i j p q hi hj e. scan_distinct mode peers [] start s i j a.scanned hi hj e),
    )
  where
    kept :
        (s : Scan) (p : ExecutionPriorityPeer)
        → (decide_peer mode (outlook mode s peers) p).session ≡ p.session
    kept s p = unfold decide_peer in ground arith

    sessions :
        (s : Scan) (ps : List ExecutionPriorityPeer)
        → map (λ d. d.session) (map (decide_peer mode (outlook mode s peers)) ps)
          ≡ map (λ p. p.session) ps
    sessions s [] = refl
    sessions s (p ∷ ps) = rw (kept s p, sessions s ps)

-- In a valid plan, one peer of unknown state quarantines every peer: no decision carries a command
-- or a progress binding. Without such a peer nobody is quarantined.
pub unknown_quarantines :
    (peers : List ExecutionPriorityPeer) (mode : ExecutionSchedulingMode) (i : ℕ)
    (d : ExecutionPriorityDecision)
    → (plan_execution_priority peers mode).is_valid ≡ true
    → decision_at (plan_execution_priority peers mode) i ≡ some d
    → ((any_unknown peers ≡ true)
        × (d.action ≡ quarantined)
        × (d.command ≡ none)
        × (d.progress ≡ none))
      ⊎ ((any_unknown peers ≡ false) × (d.action ≢ quarantined))
unfolding decide_peer outlook
unknown_quarantines peers mode i d h at =
    let (s, a) = plan-IsAccepted peers mode h in
    let (p, here, e) = accepted_decision peers mode s a i at in
    let u = accepted_unknown peers mode s a in ground (arith, u)
