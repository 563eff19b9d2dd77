-- ===== src/Execution/Plan/Liveness.antt =====
-- `plan_execution_priority` (src/core/execution_priority.cc) does not stall.
use glimmer.Prelude.{
  ℕ, ◌≤◌, ◌≡◌, true, false, some, List, [], inl, inr, arith, get_elem?, any_none, any-some,
  any_found, get_elem?-map, Bool-cases,
}
use glimmer.Execution.{
  ExecutionSchedulingMode, is_priority_execution_mode, ExecutionPriorityPeer,
  ExecutionPriorityDecision, execute, has_work,
}
use glimmer.Execution.Plan.{
  start, outlook, decide_peer, is_lower_physical, has_lower_physical, plan_execution_priority,
}
use glimmer.Execution.Plan.Accepted.{plan-IsAccepted, scan_bounds}
use glimmer.Execution.Plan.Safety.{any_unknown, any_physical, decision_at, accepted_unknown}
use glimmer.Execution.Plan.Authority.{ranked_attained}

no_lower_physical :
    (peers : List ExecutionPriorityPeer) (top : ℕ)
    → any_physical peers ≡ false
    → has_lower_physical (some top) peers ≡ false
unfolding has_lower_physical
no_lower_physical peers top h = elim (Bool-cases (has_lower_physical (some top) peers)) [
  | inl found ↦
      let (i, p, at, low) = any_found (is_lower_physical top) peers found in
      ground
        (arith, any-some (λ (q : ExecutionPriorityPeer). q.has_physical_work) peers i {x = p} at)
  | inr clear ↦ clear
]

-- A valid plan of a priority mode in which no peer is of unknown state and none holds physical
-- work lets some peer execute whenever any peer has work, one of a priority at least as high, and
-- with the command that was observed of it.
pub plan_progresses :
    (peers : List ExecutionPriorityPeer) (mode : ExecutionSchedulingMode) (i : ℕ)
    (p : ExecutionPriorityPeer)
    → (plan_execution_priority peers mode).is_valid ≡ true
    → is_priority_execution_mode mode ≡ true
    → any_unknown peers ≡ false
    → any_physical peers ≡ false
    → get_elem? peers i ≡ some p
    → has_work p ≡ true
    → (j : ℕ) × (q : ExecutionPriorityPeer) × (d : ExecutionPriorityDecision) × (get_elem? peers j
        ≡ some q)
      × (decision_at (plan_execution_priority peers mode) j ≡ some d)
      × (d.action ≡ execute)
      × (d.command ≡ q.command)
      × (p.priority ≤ q.priority)
plan_progresses peers mode i p h ranked known idle at busy =
    let (s, a) = plan-IsAccepted peers mode h in
    let (top, sel, bound) = scan_bounds mode peers [] start s i p a.scanned at (ground arith) in
    let (j, q, there, work, eq) = ranked_attained peers mode s a ranked top sel in
    let calm = any_none (λ r. r.has_physical_work) peers j idle there in
    let clear = no_lower_physical peers top idle in
    let u = accepted_unknown peers mode s a in
    (
      j,
      q,
      decide_peer mode (outlook mode s peers) q,
      there,
      rw a.planned (get_elem?-map (decide_peer mode (outlook mode s peers)) peers j there),
      unfold decide_peer outlook in ground (arith, clear, u),
      unfold decide_peer outlook in ground (arith, clear, u),
      omega arith,
    )
