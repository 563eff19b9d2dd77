-- ===== src/Execution/Plan.antt =====
-- `plan_execution_priority` of src/core/execution_priority.cc. A mode is one of the enumerators.
pub mod Accepted
pub mod Safety
pub mod Authority
pub mod Progress
pub mod Profile
pub mod Liveness
use glimmer.Prelude.{
  ℕ, Bool, true, false, not, ◌&&◌, ◌||◌, Option, none, some, List, [], ◌∷◌, map, ltb, ◌==◌, max,
  if◌then◌else◌, is_some, any, length,
}
use glimmer.Execution.{
  max_execution_priority_peers, ExecutionSchedulingMode, priority, naive, profile,
  workload_agnostic, workload_aware, priority_space_share, is_priority_execution_mode,
  ExecutionPriorityProgress, ExecutionPriorityCommand, ExecutionPriorityPhysical,
  ExecutionPriorityPeer, ExecutionPriorityAction, idle, wait, request_retreat, execute, quarantined,
  execute_progress, ExecutionPriorityDecision, ExecutionPriorityPlan, invalid_plan, nonzero,
  is_execute, has_work, find_peer,
}

-- The test on the physical epoch of a peer.
abbrev pub rejects_physical : ExecutionPriorityPeer → Option ExecutionPriorityPhysical → Bool
rejects_physical p none = false
rejects_physical p (some physical) =
    (not p.has_physical_work && not p.has_unknown_state)
    || physical.sequence == 0
    || physical.generation == 0
    || nonzero p.reservation_generation

abbrev pub has_shared : ExecutionPriorityCommand → Bool
has_shared c =
    nonzero c.member_generation
    || nonzero c.configuration_epoch
    || nonzero c.physical_configuration_epoch

-- The test on the retained command of a peer.
abbrev pub rejects_command : ExecutionPriorityPeer → Option ExecutionPriorityCommand → Bool
rejects_command p none = false
rejects_command p (some c) =
    c.sequence == 0
    || c.acceptance_order == 0
    || c.geometry_epoch == 0
    || c.command_epoch == 0
    || c.control_epoch == 0
    || (if c.is_resume
        then c.physical_generation == 0 || not p.has_paused_work
        else nonzero c.physical_generation || not p.has_ready_work)
    || (has_shared c
        && (c.member_generation == 0
            || c.configuration_epoch == 0
            || c.physical_configuration_epoch == 0))

unfoldable pub rejects_peer : List ExecutionPriorityPeer → ExecutionPriorityPeer → Bool
rejects_peer earlier p =
    p.session == 0
    || any (λ e. e.session == p.session) earlier
    || rejects_physical p p.physical
    || rejects_command p p.command

-- What the first loop accumulates.
pub record Scan : Type 0 where
  pub has_unknown : Bool
  pub selected_priority : Option ℕ

abbrev pub counts_priority : ExecutionSchedulingMode → ExecutionPriorityPeer → Bool
counts_priority priority_space_share p = true
counts_priority mode p = is_priority_execution_mode mode && has_work p

abbrev pub max_priority : Option ℕ → ℕ → Option ℕ
max_priority none n = some n
max_priority (some m) n = some (max m n)

unfoldable pub scan_peer : ExecutionSchedulingMode → Scan → ExecutionPriorityPeer → Scan
scan_peer mode s p = record {
  has_unknown = s.has_unknown || p.has_unknown_state;
  selected_priority =
      if counts_priority mode p
      then max_priority s.selected_priority p.priority
      else s.selected_priority;
}

unfoldable pub scan_peers :
    ExecutionSchedulingMode
    → List ExecutionPriorityPeer
    → Scan
    → List ExecutionPriorityPeer
    → Option Scan
scan_peers mode earlier s [] = some s
scan_peers mode earlier s (p ∷ ps) =
    let rest = scan_peers mode (p ∷ earlier) (scan_peer mode s p) ps in
    if rejects_peer earlier p then none else rest

-- The owner of a progress binding.
abbrev pub rejects_owner : ExecutionPriorityProgress → Option (ℕ × ExecutionPriorityPeer) → Bool
rejects_owner b none = true
rejects_owner b (some (i, owner)) =
    not (owner.reservation_generation == b.generation)
    || (not owner.has_physical_work && not owner.has_unknown_state)

abbrev pub rejects_binding :
    List ExecutionPriorityPeer → ExecutionPriorityPeer → Option ExecutionPriorityProgress → Bool
rejects_binding peers p none = false
rejects_binding peers p (some b) =
    b.reservation == 0
    || b.generation == 0
    || b.cutoff == 0
    || not (has_work p)
    || rejects_owner b (find_peer b.reservation peers)

unfoldable pub rejects_progress : List ExecutionPriorityPeer → ExecutionPriorityPeer → Bool
unfolding find_peer
rejects_progress peers p = rejects_binding peers p p.progress

abbrev pub is_lower_physical : ℕ → ExecutionPriorityPeer → Bool
is_lower_physical top p = ltb p.priority top && p.has_physical_work

unfoldable pub has_lower_physical : Option ℕ → List ExecutionPriorityPeer → Bool
has_lower_physical none peers = false
has_lower_physical (some top) peers = any (is_lower_physical top) peers

-- `std::ranges::find_if`, and the session that it finds.
abbrev pub find_session : (ExecutionPriorityPeer → Bool) → List ExecutionPriorityPeer → Option ℕ
find_session test [] = none
find_session test (p ∷ ps) = if test p then some p.session else find_session test ps

abbrev pub or_else : Option ℕ → Option ℕ → Option ℕ
or_else none b = b
or_else (some a) b = some a

unfoldable pub profile_peer : ExecutionSchedulingMode → List ExecutionPriorityPeer → Option ℕ
profile_peer profile peers =
    if any (λ p. p.has_physical_work) peers
    then none
    else or_else (find_session (λ p. p.has_paused_work) peers)
        (find_session (λ p. p.has_ready_work) peers)
profile_peer _ peers = none

-- What the snapshot as a whole decides, for every peer alike.
pub record Outlook : Type 0 where
  pub scan : Scan
  pub open scan use *
  pub lower_physical : Bool
  pub chosen : Option ℕ

abbrev pub is_session : Option ℕ → ℕ → Bool
is_session none n = false
is_session (some m) n = m == n

abbrev pub ranked_action : Bool → ExecutionPriorityPeer → Option ℕ → ExecutionPriorityAction
ranked_action lower p none = idle
ranked_action lower p (some top) =
    if ltb p.priority top && p.has_physical_work
    then request_retreat
    else if (p.priority == top) && ((p.has_ready_work || p.has_paused_work) && not lower)
    then execute
    else if has_work p
    then wait
    else idle

abbrev pub open_action : ExecutionPriorityPeer → ExecutionPriorityAction
open_action p =
    if p.has_ready_work || p.has_paused_work
    then execute
    else if p.has_physical_work
    then wait
    else idle

abbrev pub mode_action :
    ExecutionSchedulingMode → Outlook → ExecutionPriorityPeer → ExecutionPriorityAction
mode_action profile o p =
    if is_session o.chosen p.session then execute else if has_work p then wait else idle
mode_action priority o p = ranked_action o.lower_physical p o.selected_priority
mode_action workload_aware o p = ranked_action o.lower_physical p o.selected_priority
mode_action _ o p = open_action p

unfoldable pub base_action :
    ExecutionSchedulingMode → Outlook → ExecutionPriorityPeer → ExecutionPriorityAction
base_action mode o p = if o.has_unknown then quarantined else mode_action mode o p

abbrev pub with_progress :
    Bool → ExecutionPriorityPeer → ExecutionPriorityAction → ExecutionPriorityDecision
with_progress unknown p action =
    if not unknown && (is_some p.progress && not (is_execute action))
    then record {
      session = p.session;
      action = execute_progress;
      progress = p.progress;
      command = none;
    }
    else record {
      session = p.session;
      action = action;
      progress = none;
      command = if is_execute action then p.command else none;
    }

unfoldable pub decide_peer :
    ExecutionSchedulingMode → Outlook → ExecutionPriorityPeer → ExecutionPriorityDecision
unfolding base_action
decide_peer mode o p = with_progress o.has_unknown p (base_action mode o p)

unfoldable pub outlook : ExecutionSchedulingMode → Scan → List ExecutionPriorityPeer → Outlook
unfolding has_lower_physical profile_peer
outlook mode s peers = record {
  scan = s;
  lower_physical = has_lower_physical s.selected_priority peers;
  chosen = profile_peer mode peers;
}

abbrev pub start : Scan
start = record { has_unknown = false; selected_priority = none }

-- The plan for a snapshot that the first loop has accepted.
unfoldable pub plan_scanned :
    ExecutionSchedulingMode → List ExecutionPriorityPeer → Option Scan → ExecutionPriorityPlan
unfolding rejects_progress outlook
plan_scanned mode peers none = invalid_plan
plan_scanned mode peers (some s) =
    if any (rejects_progress peers) peers then invalid_plan else record {
      decisions = map (decide_peer mode (outlook mode s peers)) peers;
      selected_priority = s.selected_priority;
      is_valid = true;
    }

unfoldable pub plan_execution_priority :
    List ExecutionPriorityPeer → ExecutionSchedulingMode → ExecutionPriorityPlan
unfolding scan_peers plan_scanned
plan_execution_priority peers mode =
    if ltb max_execution_priority_peers (length peers)
    then invalid_plan
    else plan_scanned mode peers (scan_peers mode [] start peers)
