-- ===== src/Execution/Examples.antt =====
-- The theorems on src/core/execution_priority.cc at concrete snapshots. The children hold those on
-- checkpoints and pairs, and on the idle window.
mod Legs
mod Window
use glimmer.Prelude.{
  ℕ, ◌≤◌, ◌<◌, ◌≡◌, ◌≢◌, ◌⊎◌, refl, Bool, true, false, Option, some, none, List, [], ◌∷◌, map,
  length, get_elem?, arith,
}
use glimmer.Execution.{
  priority, profile, workload_aware, is_priority_execution_mode, ExecutionPriorityProgress,
  ExecutionPriorityCommand, ExecutionPriorityPeer, wait, request_retreat, execute, quarantined,
  execute_progress, ExecutionPriorityDecision, has_work, find_peer,
}
use glimmer.Execution.Plan.{
  plan_execution_priority, scan_peer, rejects_peer, decide_peer, plan_scanned,
}
use glimmer.Execution.Plan.Safety.{
  any_unknown, any_physical, decision_at, plan_covers, unknown_quarantines,
}
use glimmer.Execution.Plan.Authority.{IsOnTop, execute-IsOnTop, retreat_is_outranked}
use glimmer.Execution.Plan.Progress.{progress_is_owned}
use glimmer.Execution.Plan.Profile.{profile_isolates}
use glimmer.Execution.Plan.Liveness.{plan_progresses}

abbrev pub resting : ℕ → ℕ → ExecutionPriorityPeer
resting session rank = record {
  session = session;
  priority = rank;
  has_ready_work = false;
  has_physical_work = false;
  has_paused_work = false;
  has_unknown_state = false;
  progress = none;
  reservation_generation = 0;
  command = none;
  pair_context = none;
  physical = none;
}

abbrev pub launch : ExecutionPriorityCommand
launch = record {
  sequence = 4;
  acceptance_order = 2;
  physical_generation = 0;
  geometry_epoch = 1;
  command_epoch = 1;
  control_epoch = 1;
  member_generation = 0;
  configuration_epoch = 0;
  physical_configuration_epoch = 0;
  is_resume = false;
}

abbrev pub ready : ℕ → ℕ → ExecutionPriorityPeer
ready session rank = record (resting session rank) { has_ready_work = true; command = some launch }

abbrev pub waiting_peers : List ExecutionPriorityPeer
waiting_peers = ready 1 5 ∷ ready 2 9 ∷ []

abbrev binding : ExecutionPriorityProgress
binding = record { reservation = 1; generation = 3; cutoff = 8 }

abbrev holder : ExecutionPriorityPeer
holder = record (resting 1 5) { has_physical_work = true; reservation_generation = 3 }

abbrev dependent : ExecutionPriorityPeer
dependent = record (ready 2 9) { progress = some binding }

abbrev blocked_peers : List ExecutionPriorityPeer
blocked_peers = holder ∷ dependent ∷ []

abbrev starts : ExecutionPriorityDecision
starts = record { session = 2; action = execute; progress = none; command = some launch }

abbrev retreats : ExecutionPriorityDecision
retreats = record { session = 1; action = request_retreat; progress = none; command = none }

abbrev cuts : ExecutionPriorityDecision
cuts = record { session = 2; action = execute_progress; progress = some binding; command = none }

abbrev quarantines : ExecutionPriorityDecision
quarantines = record { session = 2; action = quarantined; progress = none; command = none }

abbrev lost_peers : List ExecutionPriorityPeer
lost_peers = record (resting 1 5) { has_unknown_state = true } ∷ ready 2 9 ∷ []

execute-IsOnTop_example :
    (p : ExecutionPriorityPeer) × (get_elem? waiting_peers 1 ≡ some p)
    × IsOnTop waiting_peers p
    × (starts.command ≡ p.command)
    × (starts.progress ≡ none)
unfolding plan_execution_priority scan_peer rejects_peer decide_peer
execute-IsOnTop_example = execute-IsOnTop waiting_peers priority 1 starts refl refl refl refl

retreat_is_outranked_example :
    (is_priority_execution_mode priority ≡ true)
    × (retreats.command ≡ none)
    × ((p : ExecutionPriorityPeer) × (j : ℕ) × (q : ExecutionPriorityPeer) × (get_elem?
            blocked_peers 0
          ≡ some p)
        × (p.has_physical_work ≡ true)
        × (get_elem? blocked_peers j ≡ some q)
        × (has_work q ≡ true)
        × (p.priority < q.priority))
unfolding plan_execution_priority scan_peer rejects_peer decide_peer find_peer
retreat_is_outranked_example = retreat_is_outranked blocked_peers priority 0 retreats refl refl refl

progress_is_owned_example :
    (any_unknown blocked_peers ≡ false)
    × (cuts.command ≡ none)
    × ((p : ExecutionPriorityPeer) × (b : ExecutionPriorityProgress) × (j : ℕ)
        × (q : ExecutionPriorityPeer) × (get_elem? blocked_peers 1 ≡ some p)
        × (p.progress ≡ some b)
        × (cuts.progress ≡ some b)
        × (has_work p ≡ true)
        × (get_elem? blocked_peers j ≡ some q)
        × (q.session ≡ b.reservation)
        × (q.reservation_generation ≡ b.generation)
        × (q.has_physical_work ≡ true))
unfolding plan_execution_priority scan_peer rejects_peer decide_peer find_peer
progress_is_owned_example = progress_is_owned blocked_peers priority 1 cuts refl refl refl

abbrev first_starts : ExecutionPriorityDecision
first_starts = record { session = 1; action = execute; progress = none; command = some launch }

profile_isolates_example : (◌≡◌ {A = ℕ} 0 0) × (any_physical waiting_peers ≡ false)
unfolding plan_execution_priority scan_peer rejects_peer decide_peer
profile_isolates_example =
    profile_isolates waiting_peers 0 0 first_starts first_starts refl refl refl refl refl

plan_progresses_example :
    (j : ℕ) × (q : ExecutionPriorityPeer) × (d : ExecutionPriorityDecision) × (get_elem?
        waiting_peers j
      ≡ some q)
    × (decision_at (plan_execution_priority waiting_peers workload_aware) j ≡ some d)
    × (d.action ≡ execute)
    × (d.command ≡ q.command)
    × (5 ≤ q.priority)
unfolding plan_execution_priority scan_peer rejects_peer decide_peer
plan_progresses_example =
    plan_progresses waiting_peers workload_aware 0 (ready 1 5) refl refl refl refl refl refl
