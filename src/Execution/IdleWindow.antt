-- ===== src/Execution/IdleWindow.antt =====
-- `ExecutionPriorityIdleWindow` of src/core/execution_priority.cc: a guard that keeps work of low
-- priority waiting for a time after work of high priority has drained. Times are 64-bit
-- nanoseconds.
pub mod Narrowing
pub mod Timing
use glimmer.Prelude.{
  ℕ, Bool, true, false, not, ◌&&◌, ◌||◌, Option, none, some, List, [], ◌∷◌, ltb, leb, ◌==◌,
  if◌then◌else◌, is_some, any, length, sub64,
}
use glimmer.Execution.{
  max_execution_priority_peers, ExecutionSchedulingMode, is_priority_execution_mode,
  ExecutionPriorityPeer, ExecutionPriorityAction, wait, execute, execute_progress,
  ExecutionPriorityDecision, ExecutionPriorityPlan, invalid_plan, nonzero, is_execute, has_work,
}

pub record ExecutionPriorityIdleConfig : Type 0 where
  pub priority : ℕ
  pub duration_ns : ℕ

pub record ExecutionPriorityIdleWindow : Type 0 where
  pub config : ExecutionPriorityIdleConfig
  pub idle_since_ns : Option ℕ
  pub last_now_ns : Option ℕ
  pub has_activity : Bool

unfoldable pub new_window : ExecutionPriorityIdleConfig → ExecutionPriorityIdleWindow
new_window config = record {
  config = config;
  idle_since_ns = none;
  last_now_ns = none;
  has_activity = false;
}

abbrev pub enabled : ExecutionPriorityIdleWindow → Bool
enabled w = nonzero w.config.priority && nonzero w.config.duration_ns

unfoldable pub note_issue : ExecutionPriorityIdleWindow → ℕ → ExecutionPriorityIdleWindow
note_issue w priority =
    if not (enabled w) || ltb priority w.config.priority
    then w
    else record w { has_activity = true; idle_since_ns = none }

abbrev pub remaining_since : ℕ → ℕ → Option ℕ → ℕ
remaining_since duration now none = 0
remaining_since duration now (some since) =
    if ltb now since
    then duration
    else if ltb (sub64 now since) duration
    then sub64 duration (sub64 now since)
    else 0

unfoldable pub remaining_ns : ExecutionPriorityIdleWindow → ℕ → ℕ
remaining_ns w now = remaining_since w.config.duration_ns now w.idle_since_ns

abbrev pub has_idle_window : ExecutionPriorityIdleWindow → Bool
has_idle_window w = is_some w.idle_since_ns

abbrev pub is_before : ℕ → Option ℕ → Bool
is_before now none = false
is_before now (some last) = ltb now last

-- Whether a decision belongs to another session than the peer at its position.
unfoldable pub mismatched : List ExecutionPriorityPeer → List ExecutionPriorityDecision → Bool
mismatched [] ds = false
mismatched (p ∷ ps) [] = true
mismatched (p ∷ ps) (d ∷ ds) = not (d.session == p.session) || mismatched ps ds

-- The loop over the peers of high priority: the window after it, and whether any has work.
unfoldable pub note_peers :
    ExecutionPriorityIdleWindow
    → Bool
    → List ExecutionPriorityPeer
    → ExecutionPriorityIdleWindow × Bool
unfolding note_issue
note_peers w high [] = (w, high)
note_peers w high (p ∷ ps) =
    note_peers
      (if not (ltb p.priority w.config.priority) && p.has_physical_work
        then note_issue w p.priority
        else w)
      (if ltb p.priority w.config.priority then high else high || has_work p) ps

unfoldable pub narrow :
    ℕ → ExecutionPriorityPeer → ExecutionPriorityDecision → ExecutionPriorityDecision
narrow priority p d = if leb priority p.priority || not (is_execute d.action) then d else record d {
  command = none;
  action = if is_some p.progress then execute_progress else wait;
  progress = p.progress;
}

unfoldable pub narrow_all :
    ℕ → List ExecutionPriorityPeer → List ExecutionPriorityDecision → List ExecutionPriorityDecision
unfolding narrow
narrow_all priority [] ds = ds
narrow_all priority (p ∷ ps) [] = []
narrow_all priority (p ∷ ps) (d ∷ ds) = narrow priority p d ∷ narrow_all priority ps ds

abbrev pub or_now : ℕ → Option ℕ → Option ℕ
or_now now none = some now
or_now now (some since) = some since

-- The end of `apply`, once nobody of high priority has work.
unfoldable pub apply_idle :
    ExecutionPriorityIdleWindow
    → List ExecutionPriorityPeer
    → ℕ
    → ExecutionPriorityPlan
    → ExecutionPriorityIdleWindow × ExecutionPriorityPlan
unfolding remaining_ns narrow_all
apply_idle w peers now plan =
    let started = record w { idle_since_ns = or_now now w.idle_since_ns } in
    if not w.has_activity
    then (w, plan)
    else if remaining_ns started now == 0
    then (record w { has_activity = false; idle_since_ns = none }, plan)
    else (started, record plan { decisions = narrow_all w.config.priority peers plan.decisions })

unfoldable pub apply_noted :
    ExecutionPriorityIdleWindow × Bool
    → List ExecutionPriorityPeer
    → ℕ
    → ExecutionPriorityPlan
    → ExecutionPriorityIdleWindow × ExecutionPriorityPlan
unfolding apply_idle
apply_noted (w, true) peers now plan = (record w { idle_since_ns = none }, plan)
apply_noted (w, false) peers now plan = apply_idle w peers now plan

-- Whether `apply` refuses the snapshot.
unfoldable pub rejects_snapshot :
    ExecutionPriorityIdleWindow → List ExecutionPriorityPeer → ℕ → ExecutionPriorityPlan → Bool
unfolding mismatched
rejects_snapshot w peers now plan =
    not (length plan.decisions == length peers)
    || ltb max_execution_priority_peers (length peers)
    || is_before now w.last_now_ns
    || mismatched peers plan.decisions

unfoldable pub apply :
    ExecutionPriorityIdleWindow
    → List ExecutionPriorityPeer
    → ExecutionSchedulingMode
    → ℕ
    → ExecutionPriorityPlan
    → ExecutionPriorityIdleWindow × ExecutionPriorityPlan
unfolding rejects_snapshot note_peers apply_noted
apply w peers mode now plan =
    let seen = record w { last_now_ns = some now } in
    if not (enabled w) || not (is_priority_execution_mode mode) || not plan.is_valid
    then (w, plan)
    else if rejects_snapshot w peers now plan
    then (w, invalid_plan)
    else if any (λ p. p.has_unknown_state) peers
    then (record seen { idle_since_ns = none }, plan)
    else apply_noted (note_peers seen false peers) peers now plan
