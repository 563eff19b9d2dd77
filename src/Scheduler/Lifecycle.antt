-- ===== src/Scheduler/Lifecycle.antt =====
-- The states of a task in src/core/scheduler.cc, and the moves between them.
pub mod Dispatching
pub mod Submitting
pub mod Ending
pub mod Steps
pub mod Entered
pub mod Submitted
pub mod Started
pub mod Peeked
use glimmer.Prelude.{
  ℕ, ◌≡◌, refl, Bool, true, false, Option, none, some, List, arith, Bool-cases, lookup, assign,
  remove, lookup-assign, lookup-remove, emplace, lookup-emplace, nat_eq, ◌==◌, sym, subst, inl, inr,
}
use glimmer.Scheduler.{
  TaskState, queued, running, completed, cancelled, failed, TaskRecord, is_queued, is_running,
}
use glimmer.Scheduler.Queues.{Tasks}

-- One move of a task: it stays, starts, goes back to its queue, ends, or ends without running.
pub data Moves : TaskState → TaskState → Type 0 where
  stays : (a : TaskState) → Moves a a
  starts : Moves queued running
  suspends : Moves running queued
  never_runs : Moves queued cancelled
  fails_to_start : Moves queued failed
  completes : Moves running completed
  fails : Moves running failed
  is_cancelled : Moves running cancelled

-- Every task that is in both tables has made at most one move.
abbrev pub Follows : Tasks → Tasks → Type 0
Follows ts us =
    (k : ℕ) (t u : TaskRecord) → lookup k ts ≡ some t → lookup k us ≡ some u → Moves t.state u.state

pub Follows-refl : (ts : Tasks) → Follows ts ts
Follows-refl ts k t u e d =
    let same : t.state ≡ u.state = ground arith in subst (Moves t.state) same (stays t.state)

pub assign-Follows :
    (ts : Tasks) (id : ℕ) (task task' : TaskRecord)
    → lookup id ts ≡ some task
    → Moves task.state task'.state
    → Follows ts (assign id task' ts)
assign-Follows ts id task task' here m k t u e d = elim (Bool-cases (id == k)) [
  | inl hit ↦
      let old : t.state ≡ task.state = ground (arith) in
      let new : u.state ≡ task'.state = ground (arith, lookup-assign id k task' ts) in
      subst (λ (x : TaskState). Moves x u.state) (sym old) (subst (Moves task.state) (sym new) m)
  | inr miss ↦
      let same : t.state ≡ u.state = ground (arith, lookup-assign id k task' ts) in
      subst (Moves t.state) same (stays t.state)
]

pub remove-Follows : (ts : Tasks) (id : ℕ) → Follows ts (remove id ts)
remove-Follows ts id k t u e d =
    let same : t.state ≡ u.state = ground (arith, lookup-remove id k ts) in
    subst (Moves t.state) same (stays t.state)

pub emplace-Follows :
    (ts : Tasks) (id : ℕ) (task : TaskRecord)
    → lookup id ts ≡ none
    → Follows ts (emplace id task ts)
emplace-Follows ts id task new k t u e d =
    let same : t.state ≡ u.state = ground (arith, lookup-emplace id k task ts) in
    subst (Moves t.state) same (stays t.state)
