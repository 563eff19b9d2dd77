-- ===== src/Execution/Plan/Progress.antt =====
-- To whom a valid plan of `plan_execution_priority` (src/core/execution_priority.cc) grants a
-- dependency cut.
use glimmer.Prelude.{
  ℕ, ◌≡◌, inl, inr, true, false, none, some, List, arith, get_elem?, any_none, Option-cases,
}
use glimmer.Execution.{
  ExecutionSchedulingMode, ExecutionPriorityPeer, ExecutionPriorityProgress,
  ExecutionPriorityDecision, execute_progress, has_work, find_peer, find_peer_found,
}
use glimmer.Execution.Plan.{outlook, decide_peer, rejects_progress, plan_execution_priority}
use glimmer.Execution.Plan.Accepted.{plan-IsAccepted}
use glimmer.Execution.Plan.Safety.{any_unknown, decision_at, accepted_decision, accepted_unknown}

-- A valid plan grants a dependency cut only to a peer that has work, and the decision carries the
-- peer's progress binding and no command. The binding's owner is a peer of the snapshot with that
-- reservation generation that holds physical work; no peer is of unknown state.
pub progress_is_owned :
    (peers : List ExecutionPriorityPeer) (mode : ExecutionSchedulingMode) (i : ℕ)
    (d : ExecutionPriorityDecision)
    → (plan_execution_priority peers mode).is_valid ≡ true
    → decision_at (plan_execution_priority peers mode) i ≡ some d
    → d.action ≡ execute_progress
    → (any_unknown peers ≡ false)
      × (d.command ≡ none)
      × ((p : ExecutionPriorityPeer) × (b : ExecutionPriorityProgress) × (j : ℕ)
          × (q : ExecutionPriorityPeer) × (get_elem? peers i ≡ some p)
          × (p.progress ≡ some b)
          × (d.progress ≡ some b)
          × (has_work p ≡ true)
          × (get_elem? peers j ≡ some q)
          × (q.session ≡ b.reservation)
          × (q.reservation_generation ≡ b.generation)
          × (q.has_physical_work ≡ true))
progress_is_owned peers mode i d h at acts =
    let (s, a) = plan-IsAccepted peers mode h in
    let (p, here, e) = accepted_decision peers mode s a i at in
    let u = accepted_unknown peers mode s a in
    let known : any_unknown peers ≡ false = unfold decide_peer outlook in ground arith in
    let kept : rejects_progress peers p ≡ false =
      any_none (rejects_progress peers) peers i a.bound_progress here in
    elim (Option-cases p.progress) [
      | inl unbound ↦ unfold decide_peer outlook in ground arith
      | inr (b, bound) ↦ elim (Option-cases (find_peer b.reservation peers)) [
        | inl lost ↦ unfold rejects_progress in ground arith
        | inr ((j, q), found) ↦
            let (there, eq) = find_peer_found b.reservation peers j q found in
            (
              known,
              unfold decide_peer outlook in ground arith,
              (
                p,
                b,
                j,
                q,
                here,
                bound,
                unfold decide_peer outlook in ground arith,
                unfold rejects_progress in ground arith,
                there,
                eq,
                unfold rejects_progress in ground arith,
                unfold rejects_progress in
                    ground (arith, any_none (λ r. r.has_unknown_state) peers j {x = q}),
              ),
            )
      ]
    ]
