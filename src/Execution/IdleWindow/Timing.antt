-- ===== src/Execution/IdleWindow/Timing.antt =====
-- How long the idle window of src/core/execution_priority.cc holds low work back.
use glimmer.Prelude.{
  ℕ, ◌+◌, ◌≤◌, ◌<◌, ◌≡◌, ◌≢◌, refl, ◌⊎◌, inl, inr, true, false, none, some, List, arith, get_elem?,
  any, Bool-cases, ltb, u64_max, ◌∙◌, sym, subst,
}
use glimmer.Execution.{
  ExecutionSchedulingMode, is_priority_execution_mode, ExecutionPriorityPeer, execute,
  ExecutionPriorityDecision, ExecutionPriorityPlan,
}
use glimmer.Execution.IdleWindow.{
  ExecutionPriorityIdleWindow, enabled, narrow, narrow_all, apply_idle, rejects_snapshot, apply,
  or_now,
}
use glimmer.Execution.IdleWindow.Narrowing.{
  high_work, note_peers_high, note_peers_quiet, get_elem?-narrow_all,
}

-- A call that `apply` acts on: the window is enabled, the mode is one of priority, and the plan is
-- valid, fits the snapshot and is not older than the last one.
pub record IsObserved (w : ExecutionPriorityIdleWindow) (peers : List ExecutionPriorityPeer)
    (mode : ExecutionSchedulingMode) (now : ℕ) (plan : ExecutionPriorityPlan) : Type 0 where
  pub on : enabled w ≡ true
  pub ranked : is_priority_execution_mode mode ≡ true
  pub valid : plan.is_valid ≡ true
  pub fits : rejects_snapshot w peers now plan ≡ false
  pub known : any (λ (p : ExecutionPriorityPeer). p.has_unknown_state) peers ≡ false
  pub now_word : now ≤ u64_max
  pub duration_word : w.config.duration_ns ≤ u64_max

narrow_no_execute :
    (priority : ℕ) (p : ExecutionPriorityPeer) (d : ExecutionPriorityDecision)
    → p.priority < priority
    → (narrow priority p d).action ≢ execute
unfolding narrow
narrow_no_execute priority p d h = ground arith

apply_quiet :
    (w : ExecutionPriorityIdleWindow) (peers : List ExecutionPriorityPeer)
    (mode : ExecutionSchedulingMode) (now : ℕ) (plan : ExecutionPriorityPlan)
    → IsObserved w peers mode now plan
    → any (high_work w.config.priority) peers ≡ false
    → apply w peers mode now plan ≡ apply_idle (record w { last_now_ns = some now }) peers now plan
apply_quiet w peers mode now plan o h =
    let quiet = note_peers_quiet peers (record w { last_now_ns = some now }) h in
    unfold apply in ground (arith, quiet)

-- Let a call of `apply` act on its snapshot, see no high work after activity, and let the idle
-- time have begun at `since`, the present if it had not begun, and not after the present. Until
-- the configured duration has passed, no peer below the configured priority may execute and the
-- window stays; from then on the plan is unchanged and the window is disarmed.
pub idle_window_lasts :
    (w : ExecutionPriorityIdleWindow) (peers : List ExecutionPriorityPeer)
    (mode : ExecutionSchedulingMode) (now since : ℕ) (plan : ExecutionPriorityPlan)
    → IsObserved w peers mode now plan
    → any (high_work w.config.priority) peers ≡ false
    → w.has_activity ≡ true
    → or_now now w.idle_since_ns ≡ some since
    → since ≤ now
    → ((now < since + w.config.duration_ns)
        × ((apply w peers mode now plan).0
            ≡ record w { last_now_ns = some now; idle_since_ns = some since })
        × ((i : ℕ) (p : ExecutionPriorityPeer) (d : ExecutionPriorityDecision)
            → get_elem? peers i ≡ some p
            → p.priority < w.config.priority
            → get_elem? (apply w peers mode now plan).1.decisions i ≡ some d
            → d.action ≢ execute))
      ⊎ ((since + w.config.duration_ns ≤ now)
          × (apply w peers mode now plan ≡ (
            record w { last_now_ns = some now; idle_since_ns = none; has_activity = false },
            plan,
          )))
idle_window_lasts w peers mode now since plan o h active begun past =
    elim (Bool-cases (ltb now (since + w.config.duration_ns))) [
      | inl early ↦
          let same : apply_idle (record w { last_now_ns = some now }) peers now plan ≡ (
            record w { last_now_ns = some now; idle_since_ns = some since },
            record plan { decisions = narrow_all w.config.priority peers plan.decisions },
          ) =
            unfold apply_idle in ground (arith, o) in
          let answer = apply_quiet w peers mode now plan o h ∙ same in
          inl (
            ground arith,
            rw answer refl,
            λ i p d here low at.
                let (d0, was, eq) =
                  get_elem?-narrow_all w.config.priority peers plan.decisions i {p = p} {d' = d}
                    here (rw answer at at) in
                subst (λ (x : ExecutionPriorityDecision). x.action ≢ execute) (sym eq)
                  (narrow_no_execute w.config.priority p d0 low),
          )
      | inr over ↦ inr (
        ground arith,
        apply_quiet w peers mode now plan o h ∙ unfold apply_idle in ground (arith, o),
      )
    ]

-- While some peer at or above the configured priority has work, a call of `apply` that acts on its
-- snapshot leaves the plan as it is and stops the idle time.
pub high_work_passes :
    (w : ExecutionPriorityIdleWindow) (peers : List ExecutionPriorityPeer)
    (mode : ExecutionSchedulingMode) (now : ℕ) (plan : ExecutionPriorityPlan)
    → IsObserved w peers mode now plan
    → any (high_work w.config.priority) peers ≡ true
    → ((apply w peers mode now plan).1 ≡ plan)
      × ((apply w peers mode now plan).0.idle_since_ns ≡ none)
high_work_passes w peers mode now plan o h =
    let high = note_peers_high peers (record w { last_now_ns = some now }) false in
    (unfold apply in ground (arith, high), unfold apply in ground (arith, high))
