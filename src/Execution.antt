-- ===== src/Execution.antt =====
-- The execution priority policy: its data (include/glimmer/core/execution_priority.h). An array
-- with a size is the list of its first `size` elements. The children hold the planners of
-- src/core/execution_priority.cc and their theorems.
pub mod Plan
pub mod IdleWindow
pub mod Rebalance
pub mod Pair
mod Examples
use mathlib.Core.Logic.{dite}
use native.Mathlib.Decide.{ℕ_discrete}
use glimmer.Prelude.{
  ℕ, get_elem?, arith, inl, inr, ◌≡◌, Bool-cases, Option-cases, Bool, true, false, not, ◌||◌,
  Option, none, some, List, [], ◌∷◌, ◌==◌, suc, if◌then◌else◌,
}

abbrev pub max_execution_priority_peers : ℕ
max_execution_priority_peers = 64

pub data ExecutionSchedulingMode : Type 0 where
  priority naive profile workload_agnostic workload_aware priority_space_share :
      ExecutionSchedulingMode

abbrev pub is_priority_execution_mode : ExecutionSchedulingMode → Bool
is_priority_execution_mode priority = true
is_priority_execution_mode workload_aware = true
is_priority_execution_mode _ = false

pub record ExecutionPriorityProgress : Type 0 where
  pub reservation : ℕ
  pub generation : ℕ
  pub cutoff : ℕ

pub record ExecutionPriorityCommand : Type 0 where
  pub sequence : ℕ
  pub acceptance_order : ℕ
  pub physical_generation : ℕ
  pub geometry_epoch : ℕ
  pub command_epoch : ℕ
  pub control_epoch : ℕ
  pub member_generation : ℕ
  pub configuration_epoch : ℕ
  pub physical_configuration_epoch : ℕ
  pub is_resume : Bool

pub record ExecutionPairContext : Type 0 where
  pub execution_domain : ℕ
  pub catalog_generation : ℕ
  pub workers : ℕ
  pub is_configuration_materialized : Bool

pub record ExecutionPriorityPhysical : Type 0 where
  pub sequence : ℕ
  pub generation : ℕ

pub record ExecutionPriorityPeer : Type 0 where
  pub session : ℕ
  pub priority : ℕ
  pub has_ready_work : Bool
  pub has_physical_work : Bool
  pub has_paused_work : Bool
  pub has_unknown_state : Bool
  pub progress : Option ExecutionPriorityProgress
  pub reservation_generation : ℕ
  pub command : Option ExecutionPriorityCommand
  pub pair_context : Option ExecutionPairContext
  pub physical : Option ExecutionPriorityPhysical

pub data ExecutionPriorityAction : Type 0 where
  idle wait request_retreat execute quarantined execute_progress : ExecutionPriorityAction

pub record ExecutionPriorityDecision : Type 0 where
  pub session : ℕ
  pub action : ExecutionPriorityAction
  pub progress : Option ExecutionPriorityProgress
  pub command : Option ExecutionPriorityCommand

pub record ExecutionPriorityPlan : Type 0 where
  pub decisions : List ExecutionPriorityDecision
  pub selected_priority : Option ℕ
  pub is_valid : Bool

-- `return {};`
abbrev pub invalid_plan : ExecutionPriorityPlan
invalid_plan = record { decisions = []; selected_priority = none; is_valid = false }

-- The defaulted comparisons of commands and of physical epochs are equality.
pub ExecutionPriorityCommand-discrete : Discrete ExecutionPriorityCommand
ExecutionPriorityCommand-discrete = hlevel ℕ_discrete

pub ExecutionPriorityPhysical-discrete : Discrete ExecutionPriorityPhysical
ExecutionPriorityPhysical-discrete = hlevel ℕ_discrete

abbrev pub nonzero : ℕ → Bool
nonzero n = not (n == 0)

abbrev pub is_execute : ExecutionPriorityAction → Bool
is_execute execute = true
is_execute _ = false

abbrev pub has_work : ExecutionPriorityPeer → Bool
has_work p = p.has_ready_work || p.has_physical_work || p.has_paused_work

-- `std::ranges::find` by session, with the position that it finds.
unfoldable pub find_peer : ℕ → List ExecutionPriorityPeer → Option (ℕ × ExecutionPriorityPeer)
find_peer session [] = none
find_peer session (p ∷ ps) =
    if p.session == session
    then some (0, p)
    else elim (find_peer session ps) [ none ↦ none | some (i, q) ↦ some (suc i, q) ]

pub find_peer_found :
    (session : ℕ) (ps : List ExecutionPriorityPeer) (i : ℕ) (q : ExecutionPriorityPeer)
    → find_peer session ps ≡ some (i, q)
    → (get_elem? ps i ≡ some q) × (q.session ≡ session)
unfolding find_peer
find_peer_found session [] i q e = cc
find_peer_found session (p ∷ ps) i q e = elim (Bool-cases (p.session == session)) [
  | inl hit ↦ (ground arith, ground arith)
  | inr miss ↦ elim (Option-cases (find_peer session ps)) [
    | inl none_left ↦ ground arith
    | inr ((j, r), found) ↦
        let (at, eq) = find_peer_found session ps j r found in (ground arith, ground arith)
  ]
]
