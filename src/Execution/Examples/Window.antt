-- ===== src/Execution/Examples/Window.antt =====
-- The theorems on the idle window at a window of 1000 ns for priorities from 8 on.
use glimmer.Prelude.{
  ℕ, ◌≤◌, ◌<◌, ◌≡◌, ◌≢◌, ◌⊎◌, refl, true, false, some, none, List, [], ◌∷◌, get_elem?, arith,
}
use glimmer.Execution.{
  priority, ExecutionPriorityPeer, execute, ExecutionPriorityDecision, ExecutionPriorityPlan,
}
use glimmer.Execution.Plan.{plan_execution_priority, scan_peer, rejects_peer, decide_peer}
use glimmer.Execution.Examples.{resting, ready, waiting_peers}
use glimmer.Execution.IdleWindow.{ExecutionPriorityIdleWindow, apply, rejects_snapshot, mismatched}
use glimmer.Execution.IdleWindow.Timing.{idle_window_lasts}

abbrev window : ExecutionPriorityIdleWindow
window = record {
  config = record { priority = 8; duration_ns = 1000 };
  idle_since_ns = some 50;
  last_now_ns = some 60;
  has_activity = true;
}

abbrev low_peers : List ExecutionPriorityPeer
low_peers = ready 1 5 ∷ resting 2 9 ∷ []

abbrev low_plan : ExecutionPriorityPlan
low_plan = plan_execution_priority low_peers priority

abbrev high_plan : ExecutionPriorityPlan
high_plan = plan_execution_priority waiting_peers priority

abbrev waits : ExecutionPriorityDecision
waits = record { session = 1; action = glimmer.Execution.wait; progress = none; command = none }

idle_window_lasts_example :
    ((300 < 1050)
      × ((apply window low_peers priority 300 low_plan).0
          ≡ record window { last_now_ns = some 300; idle_since_ns = some 50 })
      × ((i : ℕ) (p : ExecutionPriorityPeer) (d : ExecutionPriorityDecision)
          → get_elem? low_peers i ≡ some p
          → p.priority < 8
          → get_elem? (apply window low_peers priority 300 low_plan).1.decisions i ≡ some d
          → d.action ≢ execute))
    ⊎ ((1050 ≤ 300)
        × (apply window low_peers priority 300 low_plan ≡ (
          record window { last_now_ns = some 300; idle_since_ns = none; has_activity = false },
          low_plan,
        )))
unfolding plan_execution_priority scan_peer rejects_peer decide_peer rejects_snapshot mismatched
idle_window_lasts_example =
    idle_window_lasts window low_peers priority 300 50 low_plan
      (record {
        on = refl;
        ranked = refl;
        valid = refl;
        fits = refl;
        known = refl;
        now_word = omega arith;
        duration_word = omega arith;
      })
      refl refl refl (omega arith)
