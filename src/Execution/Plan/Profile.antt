-- ===== src/Execution/Plan/Profile.antt =====
-- Whom a valid plan of `plan_execution_priority` (src/core/execution_priority.cc) lets execute in
-- profile mode.
use glimmer.Prelude.{ℕ, ◌≡◌, inl, inr, true, false, some, List, [], arith, Option-cases}
use glimmer.Execution.{profile, ExecutionPriorityPeer, ExecutionPriorityDecision, execute}
use glimmer.Execution.Plan.{Scan, start, outlook, decide_peer, plan_execution_priority}
use glimmer.Execution.Plan.Accepted.{plan-IsAccepted, scan_distinct}
use glimmer.Execution.Plan.Safety.{any_physical, decision_at, accepted_decision}

-- In profile mode a valid plan lets at most one peer execute, and only while no peer holds
-- physical work.
pub profile_isolates :
    (peers : List ExecutionPriorityPeer) (i j : ℕ) (d e : ExecutionPriorityDecision)
    → (plan_execution_priority peers profile).is_valid ≡ true
    → decision_at (plan_execution_priority peers profile) i ≡ some d
    → decision_at (plan_execution_priority peers profile) j ≡ some e
    → d.action ≡ execute
    → e.action ≡ execute
    → (i ≡ j) × (any_physical peers ≡ false)
profile_isolates peers i j d e h hi hj di ej =
    let (s, a) = plan-IsAccepted peers profile h in
    let (p, here, eq) = accepted_decision peers profile s a i hi in
    let (q, there, eq') = accepted_decision peers profile s a j hj in
    let same : p.session ≡ q.session = chosen_once s p q eq eq' in
    (scan_distinct profile peers [] start s i j a.scanned here there same, quiet s p eq)
  where
    chosen_once :
        (s : Scan) (p q : ExecutionPriorityPeer)
        → d ≡ decide_peer profile (outlook profile s peers) p
        → e ≡ decide_peer profile (outlook profile s peers) q
        → p.session ≡ q.session
    chosen_once s p q eq eq' = elim (Option-cases (outlook profile s peers).chosen) [
      | inl unchosen ↦ unfold decide_peer in ground arith
      | inr (n, picked) ↦ unfold decide_peer in ground arith
    ]

    quiet :
        (s : Scan) (p : ExecutionPriorityPeer)
        → d ≡ decide_peer profile (outlook profile s peers) p
        → any_physical peers ≡ false
    quiet s p eq = unfold decide_peer outlook in ground arith
