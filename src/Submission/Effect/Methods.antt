-- ===== src/Submission/Effect/Methods.antt =====
-- The effect of every method of src/backend/execution_submission_queue.cc.
use glimmer.Prelude.{ℕ, ◌≡◌, true}
use glimmer.Submission.{SubmissionQueue, Caller}
use glimmer.Submission.Entries.{all, ascends}
use glimmer.Submission.Effect.{is_coherent, Effect}
use glimmer.Submission.Effect.Issuing.{
  limit-Effect, replace-Effect, patch-Effect, finish-Effect, resume-Effect,
}
use glimmer.Submission.Effect.Taking.{take-Effect}
use glimmer.Submission.Effect.Settling.{
  publish-Effect, publish_failure-Effect, fail-Effect, reject-Effect, reject_issue-Effect,
  complete-Effect, pause-Effect,
}
use glimmer.Submission.Effect.Dropping.{
  acknowledge-Effect, bind-Effect, accept-Effect, close-Effect, quarantine-Effect, shutdown-Effect,
}
use glimmer.Submission.Run.{
  Method, binds, accepts, takes, limits_parameters, replaces, patches, publishes, fails_preparation,
  fails_uncertain, rejects_issue, rejects, acknowledges, completes, pauses, resumes, finishes,
  closes, quarantines, shuts_down, transition,
}

pub transition-Effect :
    (lo hi : ℕ) (c : Caller) (m : Method) (q : SubmissionQueue)
    → ascends lo q.entries hi ≡ true
    → all is_coherent q.entries ≡ true
    → Effect q (transition c m q)
unfolding transition
transition-Effect lo hi c binds q a v = bind-Effect c q
transition-Effect lo hi c (accepts sequence r) q a v = accept-Effect c sequence r q
transition-Effect lo hi c (takes receipt) q a v = take-Effect lo hi c receipt q a
transition-Effect lo hi c (limits_parameters r bytes) q a v = limit-Effect c r bytes q v
transition-Effect lo hi c (replaces r input) q a v = replace-Effect c r input q v
transition-Effect lo hi c (patches token offset bytes) q a v = patch-Effect c token offset bytes q v
transition-Effect lo hi c (publishes token status) q a v = publish-Effect c token status q v
transition-Effect lo hi c (fails_preparation token status) q a v =
    publish_failure-Effect c token status q v
transition-Effect lo hi c (fails_uncertain token status) q a v = fail-Effect c token status q v
transition-Effect lo hi c (rejects_issue token status) q a v =
    reject_issue-Effect c token status q v
transition-Effect lo hi c (rejects r status) q a v = reject-Effect c r status q v
transition-Effect lo hi c (acknowledges r) q a v = acknowledge-Effect c r q v
transition-Effect lo hi c (completes token) q a v = complete-Effect c token q v
transition-Effect lo hi c (pauses token) q a v = pause-Effect c token q v
transition-Effect lo hi c (resumes token) q a v = resume-Effect c token q
transition-Effect lo hi c (finishes token) q a v = finish-Effect c token q v
transition-Effect lo hi c closes q a v = close-Effect c q
transition-Effect lo hi c quarantines q a v = quarantine-Effect c q
transition-Effect lo hi c shuts_down q a v = shutdown-Effect c q
