-- ===== src/Backend/Completion.antt =====
-- When a simulated task completes (src/backend/simulated_backend.cc).
use glimmer.Prelude.{
  ℕ, zero, suc, ◌≤◌, ◌≡◌, refl, ap, ◌∙◌, Bool, true, false, ◌||◌, some, List, [], ◌∷◌, ◌==◌, ltb,
  if◌then◌else◌, arith, lookup, lookup-emplace, nat_eq, is_some, Bool-cases, inl, inr,
}
use glimmer.Backend.{
  pending, completed, TaskSubmission, SimulatedTask, SimulatedBackend, submit_simulated, poll_task,
  advance, advance_all, advance_task,
}

unfoldable pub advances : ℕ → SimulatedBackend → SimulatedBackend
unfolding advance
advances zero b = b
advances (suc k) b = advances k (advance b)

lookup-advance_all :
    (id : ℕ) (t : SimulatedTask) (tasks : List (ℕ × SimulatedTask))
    → lookup id tasks ≡ some t
    → lookup id (advance_all tasks) ≡ some (advance_task t)
unfolding advance_all lookup
lookup-advance_all id t [] h = cc
lookup-advance_all id t ((j, x) ∷ tasks) h = elim (Bool-cases (j == id)) [
  | inl m ↦ let same : x ≡ t = ground arith in rw m (ap some (ap advance_task same))
  | inr m ↦ rw m (lookup-advance_all id t tasks (ground arith))
]

lookup-advance :
    (id : ℕ) (t : SimulatedTask) (b : SimulatedBackend)
    → lookup id b.tasks ≡ some t
    → lookup id (advance b).tasks ≡ some (advance_task t)
unfolding advance
lookup-advance id t b h = lookup-advance_all id t b.tasks h

completed_stays :
    (k id n : ℕ) (b : SimulatedBackend)
    → lookup id b.tasks ≡ some (record { status = completed; remaining_steps = n })
    → poll_task id (advances k b) ≡ completed
unfolding advances poll_task
completed_stays zero id n b h = rw h refl
completed_stays (suc k) id n b h = completed_stays k id n (advance b) (lookup-advance id _ b h)

one_less :
    (n : ℕ)
    → advance_task (record { status = pending; remaining_steps = suc (suc n) })
      ≡ record { status = pending; remaining_steps = suc n }
one_less n = ground arith

pending_counts :
    (k id n : ℕ) (b : SimulatedBackend)
    → lookup id b.tasks ≡ some (record { status = pending; remaining_steps = suc n })
    → poll_task id (advances k b) ≡ (if ltb k (suc n) then pending else completed)
unfolding advances poll_task
pending_counts zero id n b h = rw h (ground arith)
pending_counts (suc k) id zero b h =
    completed_stays k id 0 (advance b) (lookup-advance id _ b h) ∙ ground arith
pending_counts (suc k) id (suc n) b h =
    pending_counts k id n (advance b) (lookup-advance id _ b h ∙ ap some (one_less n))
    ∙ ground arith

counted :
    (k id steps : ℕ) (b : SimulatedBackend)
    → 1 ≤ steps
    → lookup id b.tasks ≡ some (record { status = pending; remaining_steps = steps })
    → poll_task id (advances k b) ≡ (if ltb k steps then pending else completed)
counted k id zero b h l = absurd (omega (arith, h))
counted k id (suc n) b h l = pending_counts k id n b l

submitted-lookup :
    (allocation_throws : Bool) (submission : TaskSubmission) (b : SimulatedBackend)
    → (submit_simulated allocation_throws submission b).1 ≡ true
    → lookup submission.task_id (submit_simulated allocation_throws submission b).0.tasks
      ≡ some (record { status = pending; remaining_steps = b.completion_steps })
unfolding submit_simulated
submitted-lookup allocation_throws submission b d =
    elim (Bool-cases (
      submission.task_id == 0
      || submission.work_units == 0
      || is_some (lookup submission.task_id b.tasks)
      || allocation_throws)) [
        | inl g ↦
            let refused : (submit_simulated allocation_throws submission b).1 ≡ false = rw g refl in
            absurd (ground arith)
        | inr g ↦
            rw g (lookup-emplace submission.task_id submission.task_id _ b.tasks ∙ ground arith)
      ]

-- Let a backend that needs at least one step accept a task. The task is pending for as many
-- advances as the backend needs steps, less one, and completed after any greater number of them.
pub submitted_completes :
    (k : ℕ) (allocation_throws : Bool) (submission : TaskSubmission) (b : SimulatedBackend)
    → 1 ≤ b.completion_steps
    → (submit_simulated allocation_throws submission b).1 ≡ true
    → poll_task submission.task_id (advances k (submit_simulated allocation_throws submission b).0)
      ≡ (if ltb k b.completion_steps then pending else completed)
submitted_completes k allocation_throws submission b h d =
    counted k submission.task_id b.completion_steps _ h
      (submitted-lookup allocation_throws submission b d)
