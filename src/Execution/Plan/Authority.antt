-- ===== src/Execution/Plan/Authority.antt =====
-- Whom a valid plan of `plan_execution_priority` (src/core/execution_priority.cc) lets execute
-- or asks to retreat.
use glimmer.Prelude.{
  ℕ, ◌≤◌, ◌<◌, ◌≡◌, inl, inr, true, false, ◌||◌, none, some, List, [], arith, get_elem?, any_none,
  Option-cases,
}
use glimmer.Execution.{
  ExecutionSchedulingMode, is_priority_execution_mode, ExecutionPriorityPeer,
  ExecutionPriorityDecision, request_retreat, execute, has_work,
}
use glimmer.Execution.Plan.{
  Scan, start, outlook, decide_peer, is_lower_physical, plan_execution_priority,
}
use glimmer.Execution.Plan.Accepted.{IsAccepted, plan-IsAccepted, scan_bounds, scan_attained}
use glimmer.Execution.Plan.Safety.{any_unknown, decision_at, accepted_decision, accepted_unknown}

-- Nobody with work outranks the peer, and no peer of lower priority holds physical work.
pub record IsOnTop (peers : List ExecutionPriorityPeer) (p : ExecutionPriorityPeer) : Type 0 where
  pub known : any_unknown peers ≡ false
  pub has_command : p.has_ready_work || p.has_paused_work ≡ true
  pub outranks :
      (j : ℕ) (q : ExecutionPriorityPeer)
      → get_elem? peers j ≡ some q
      → has_work q ≡ true
      → q.priority ≤ p.priority
  pub clear :
      (j : ℕ) (q : ExecutionPriorityPeer)
      → get_elem? peers j ≡ some q
      → q.has_physical_work ≡ true
      → p.priority ≤ q.priority

module _ (peers : List ExecutionPriorityPeer) (mode : ExecutionSchedulingMode) (s : Scan)
    (a : IsAccepted peers mode s) (ranked : is_priority_execution_mode mode ≡ true) where
  pub ranked_outranks :
      (top j : ℕ) (q : ExecutionPriorityPeer)
      → s.selected_priority ≡ some top
      → get_elem? peers j ≡ some q
      → has_work q ≡ true
      → q.priority ≤ top
  ranked_outranks top j q sel at busy =
      let (n, found, bound) = scan_bounds mode peers [] start s j q a.scanned at (ground arith) in
      ground arith

  pub ranked_clear :
      (top j : ℕ) (q : ExecutionPriorityPeer)
      → s.selected_priority ≡ some top
      → (outlook mode s peers).lower_physical ≡ false
      → get_elem? peers j ≡ some q
      → q.has_physical_work ≡ true
      → top ≤ q.priority
  unfolding outlook
  ranked_clear top j q sel low at busy =
      ground (arith, any_none (is_lower_physical top) peers j {x = q})

  pub ranked_attained :
      (top : ℕ)
      → s.selected_priority ≡ some top
      → (i : ℕ) × (p : ExecutionPriorityPeer) × (get_elem? peers i ≡ some p)
        × (has_work p ≡ true)
        × (p.priority ≡ top)
  ranked_attained top sel = elim (scan_attained mode peers [] start s top a.scanned sel) [
    | inl old ↦ ground arith
    | inr (i, p, at, c, e) ↦ (i, p, at, ground arith, e)
  ]

-- In a valid plan of a priority mode a peer that is to execute has ready or paused work, nobody
-- with work has a higher priority, nobody of lower priority holds physical work, no peer is of
-- unknown state, and the decision carries exactly the command that was observed.
pub execute-IsOnTop :
    (peers : List ExecutionPriorityPeer) (mode : ExecutionSchedulingMode) (i : ℕ)
    (d : ExecutionPriorityDecision)
    → (plan_execution_priority peers mode).is_valid ≡ true
    → is_priority_execution_mode mode ≡ true
    → decision_at (plan_execution_priority peers mode) i ≡ some d
    → d.action ≡ execute
    → (p : ExecutionPriorityPeer) × (get_elem? peers i ≡ some p)
      × IsOnTop peers p
      × (d.command ≡ p.command)
      × (d.progress ≡ none)
execute-IsOnTop peers mode i d h ranked at acts =
    let (s, a) = plan-IsAccepted peers mode h in
    let (p, here, e) = accepted_decision peers mode s a i at in
    elim (Option-cases s.selected_priority) [
      | inl unranked ↦ absurd (none_selected s p e unranked)
      | inr (top, sel) ↦
          let (quiet, lower, work, eq) = selected s p e top sel in
          (
            p,
            here,
            record {
              known = ground (arith, accepted_unknown peers mode s a);
              has_command = work;
              outranks =
                  λ j q hj busy. rw eq (ranked_outranks peers mode s a ranked top j q sel hj busy);
              clear = λ j q hj busy.
                  rw eq (ranked_clear peers mode s a ranked top j q sel lower hj busy);
            },
            unfold decide_peer in ground arith,
            unfold decide_peer in ground arith,
          )
    ]
  where
    none_selected :
        (s : Scan) (p : ExecutionPriorityPeer)
        → d ≡ decide_peer mode (outlook mode s peers) p
        → s.selected_priority ≡ none
        → ⊥
    none_selected s p e unranked = unfold decide_peer outlook in ground arith

    selected :
        (s : Scan) (p : ExecutionPriorityPeer)
        → d ≡ decide_peer mode (outlook mode s peers) p
        → (top : ℕ) → s.selected_priority ≡ some top
        → (s.has_unknown ≡ false)
          × ((outlook mode s peers).lower_physical ≡ false)
          × (p.has_ready_work || p.has_paused_work ≡ true)
          × (p.priority ≡ top)
    selected s p e top sel = unfold decide_peer outlook in ground arith

-- In a valid plan only a priority mode asks a peer to retreat: one that holds physical work while
-- some peer with work has a strictly higher priority. The request carries no command.
pub retreat_is_outranked :
    (peers : List ExecutionPriorityPeer) (mode : ExecutionSchedulingMode) (i : ℕ)
    (d : ExecutionPriorityDecision)
    → (plan_execution_priority peers mode).is_valid ≡ true
    → decision_at (plan_execution_priority peers mode) i ≡ some d
    → d.action ≡ request_retreat
    → (is_priority_execution_mode mode ≡ true)
      × (d.command ≡ none)
      × ((p : ExecutionPriorityPeer) × (j : ℕ) × (q : ExecutionPriorityPeer) × (get_elem? peers i
            ≡ some p)
          × (p.has_physical_work ≡ true)
          × (get_elem? peers j ≡ some q)
          × (has_work q ≡ true)
          × (p.priority < q.priority))
retreat_is_outranked peers mode i d h at acts =
    let (s, a) = plan-IsAccepted peers mode h in
    let (p, here, e) = accepted_decision peers mode s a i at in
    let (ranked, bare, top, sel, below, busy) = outranked s p e in
    let (j, q, there, work, eq) = ranked_attained peers mode s a ranked top sel in
    (ranked, bare, (p, j, q, here, busy, there, work, omega arith))
  where
    outranked :
        (s : Scan) (p : ExecutionPriorityPeer)
        → d ≡ decide_peer mode (outlook mode s peers) p
        → (is_priority_execution_mode mode ≡ true)
          × (d.command ≡ none)
          × (top : ℕ) × (s.selected_priority ≡ some top)
          × (p.priority < top)
          × (p.has_physical_work ≡ true)
    outranked s p e =
        let (top, sel) = chosen in
        (
          unfold decide_peer outlook in ground arith,
          unfold decide_peer outlook in ground arith,
          top,
          sel,
          unfold decide_peer outlook in ground arith,
          unfold decide_peer outlook in ground arith,
        )
      where
        chosen : (top : ℕ) × (s.selected_priority ≡ some top)
        chosen = elim (Option-cases s.selected_priority) [
          | inl unranked ↦ unfold decide_peer outlook in ground arith
          | inr found ↦ found
        ]
