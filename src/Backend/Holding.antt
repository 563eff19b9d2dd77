-- ===== src/Backend/Holding.antt =====
-- The task that an executor holds (src/backend/task_executor.cc) and the state of it in the
-- scheduler.
use glimmer.Prelude.{
  ℕ, ◌≡◌, refl, sym, subst, ap, ◌∙◌, Bool, true, false, Option, none, some, lookup, nat_eq, arith,
  inl, inr, Option-cases,
}
use glimmer.Scheduler.{Scheduler, Faults, TaskRecord, TaskState, TaskSnapshot, running}
use glimmer.Scheduler.Dispatch.{dispatch_next}
use glimmer.Scheduler.Finish.{complete, fail, cancel_task, finish_running_task}
use glimmer.Scheduler.Lifecycle.Started.{dispatch_next_starts}
use glimmer.Backend.{TaskBackend, TaskStatus, unknown, pending, completed, failed, cancelled}
use glimmer.Backend.Executor.{
  TaskExecutor, ExecutorStepStatus, settle_active, drop_refused, submitted_to, submit_dispatched,
  poll_active, step_active, executor_step, polled,
}

unfoldable pub RunsTask : ℕ → Scheduler → Type 0
RunsTask id s = (task : TaskRecord) × (lookup id s.tasks ≡ some task) × (task.state ≡ running)

-- A task that the executor holds is one that the scheduler runs.
unfoldable pub HoldsRunning : {B : Type 0} → TaskExecutor B → Type 0
HoldsRunning e = (id : ℕ) → e.active_task_id ≡ some id → RunsTask id e.scheduler

finish_refused :
    (now id : ℕ) (terminal : TaskState) (s : Scheduler)
    → (finish_running_task now id terminal s).1 ≡ false
    → (finish_running_task now id terminal s).0 ≡ s
unfolding finish_running_task
finish_refused now id terminal s h = elim (Option-cases (lookup id s.tasks)) [
  | inl e ↦ rw e refl
  | inr (task, e) ↦ ground (arith, e, h)
]

cancel_refused :
    (f : Faults) (now id : ℕ) (s : Scheduler)
    → RunsTask id s
    → (cancel_task f now id s).1 ≡ false
    → (cancel_task f now id s).0 ≡ s
unfolding cancel_task RunsTask
cancel_refused f now id s (task, known, begun) h =
    let same : cancel_task f now id s ≡ finish_running_task now id glimmer.Scheduler.cancelled s =
      rw (known, begun) refl in
    ap (λ r. r.0) same
    ∙ finish_refused now id glimmer.Scheduler.cancelled s (sym (ap (λ r. r.1) same) ∙ h)

fail_refused : (now id : ℕ) (s : Scheduler) → (fail now id s).1 ≡ false → (fail now id s).0 ≡ s
unfolding fail
fail_refused now id s h = finish_refused now id glimmer.Scheduler.failed s h

complete_refused :
    (now id : ℕ) (s : Scheduler) → (complete now id s).1 ≡ false → (complete now id s).0 ≡ s
unfolding complete
complete_refused now id s h = finish_refused now id glimmer.Scheduler.completed s h

started_runs :
    (f : Faults) (now : ℕ) (s : Scheduler) (snap : TaskSnapshot)
    → (dispatch_next f now s).1 ≡ some snap
    → RunsTask snap.task_id (dispatch_next f now s).0
unfolding RunsTask
started_runs f now s snap d =
    let (free, begun) = dispatch_next_starts f now s snap d in
    (begun.after, begun.known, begun.now_running)

module _ {B : Type 0} ⦃device : TaskBackend B⦄ where
  settle-HoldsRunning :
      (id : ℕ) (report : ExecutorStepStatus) (r : Scheduler × Bool) (e : TaskExecutor B)
      → (r.1 ≡ false → r.0 ≡ e.scheduler)
      → HoldsRunning e
      → HoldsRunning (settle_active id report r e).0
  unfolding HoldsRunning
  settle-HoldsRunning id report (s, false) e same v =
      λ i held. subst (λ u. RunsTask i u) (sym (same refl)) (v i held)
  settle-HoldsRunning id report (s, true) e same v = λ i held. ground arith

  drop-HoldsRunning :
      (id : ℕ) (r : Scheduler × Bool) (e : TaskExecutor B)
      → (r.1 ≡ false → r.0 ≡ e.scheduler)
      → RunsTask id e.scheduler
      → HoldsRunning (drop_refused id r e).0
  unfolding HoldsRunning
  drop-HoldsRunning id (s, false) e same v = λ i held.
      let here : id ≡ i = ground arith in
      subst (λ u. RunsTask i u) (sym (same refl)) (subst (λ j. RunsTask j e.scheduler) here v)
  drop-HoldsRunning id (s, true) e same v = λ i held. ground arith

  submitted-HoldsRunning :
      (later id : ℕ) (r : B × Option Bool) (e : TaskExecutor B)
      → RunsTask id e.scheduler
      → HoldsRunning (submitted_to later id r e).0
  unfolding HoldsRunning
  submitted-HoldsRunning later id (b, some true) e v =
      λ i held. let here : id ≡ i = ground arith in subst (λ j. RunsTask j e.scheduler) here v
  submitted-HoldsRunning later id (b, some false) e v =
      drop-HoldsRunning id (fail later id e.scheduler) (record e { backend = b })
        (fail_refused later id e.scheduler) v
  submitted-HoldsRunning later id (b, none) e v =
      drop-HoldsRunning id (fail later id e.scheduler) (record e { backend = b })
        (fail_refused later id e.scheduler) v

  poll-HoldsRunning :
      (f : Faults) (now id : ℕ) (status : TaskStatus) (e : TaskExecutor B)
      → e.active_task_id ≡ some id
      → HoldsRunning e
      → HoldsRunning (poll_active f now id status e).0
  poll-HoldsRunning f now id pending e a v = v
  poll-HoldsRunning f now id completed e a v =
      settle-HoldsRunning id _ (complete now id e.scheduler) e (complete_refused now id e.scheduler)
        v
  poll-HoldsRunning f now id failed e a v =
      settle-HoldsRunning id _ (fail now id e.scheduler) e (fail_refused now id e.scheduler) v
  poll-HoldsRunning f now id cancelled e a v =
      settle-HoldsRunning id _ (cancel_task f now id e.scheduler) e
        (cancel_refused f now id e.scheduler (unfold HoldsRunning in v id a)) v
  poll-HoldsRunning f now id unknown e a v =
      settle-HoldsRunning id _ (fail now id e.scheduler) e (fail_refused now id e.scheduler) v

  dispatched-HoldsRunning :
      (later : ℕ) (r : Scheduler × Option TaskSnapshot) (e : TaskExecutor B)
      → e.active_task_id ≡ none
      → ((snap : TaskSnapshot) → r.1 ≡ some snap → RunsTask snap.task_id r.0)
      → HoldsRunning (submit_dispatched later r e).0
  dispatched-HoldsRunning later (s, none) e a v = unfold HoldsRunning in λ i held. ground arith
  dispatched-HoldsRunning later (s, some t) e a v =
      submitted-HoldsRunning later t.task_id _ (record e { scheduler = s }) (v t refl)

  step_active-HoldsRunning :
      (f : Faults) (now later : ℕ) (held : Option ℕ) (e : TaskExecutor B)
      → e.active_task_id ≡ held
      → HoldsRunning e
      → HoldsRunning (step_active f now later held e).0
  step_active-HoldsRunning f now later none e a v =
      dispatched-HoldsRunning later (dispatch_next f now e.scheduler) e a
        (started_runs f now e.scheduler)
  step_active-HoldsRunning f now later (some id) e a v =
      poll-HoldsRunning f now id (polled (device.poll id e.backend)) e a v

-- Let the task that an executor holds, if it holds one, be one that the scheduler runs. This is
-- so again after any step, whatever throws and whatever the backend answers.
pub executor_step-HoldsRunning :
    {B : Type 0}
    → ⦃device : TaskBackend B⦄ → (f : Faults) (now later : ℕ) (e : TaskExecutor B) → HoldsRunning e
    → HoldsRunning (executor_step f now later e).0
unfolding executor_step
executor_step-HoldsRunning f now later e v =
    step_active-HoldsRunning f now later e.active_task_id e refl v
