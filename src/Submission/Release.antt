-- ===== src/Submission/Release.antt =====
-- `release_payload` of src/backend/execution_submission_queue.cc: its two sections under the lock.
-- Between them the payload is destroyed outside the lock, and its bytes stay charged.
use glimmer.Prelude.{ℕ, false, Option, none, some, if◌then◌else◌, sub64, length, lookup, nat_eq}
use glimmer.Submission.{Payload, Entry, SubmissionQueue, put_entry, collect}

-- The first section takes the payload out of the entry; its size goes to the second.
abbrev pub detach_from : ℕ → Entry → Option Payload → SubmissionQueue → SubmissionQueue × Option ℕ
detach_from sequence e none s = (s, none)
detach_from sequence e (some p) s =
    (put_entry sequence (record e { payload = none }) s, some (length p.parameters))

-- The assertion of the code is the test.
abbrev pub detach_found : ℕ → Option Entry → SubmissionQueue → SubmissionQueue × Option ℕ
detach_found sequence none s = (s, none)
detach_found sequence (some e) s =
    if e.is_releasing_payload then detach_from sequence e e.payload s else (s, none)

unfoldable pub detach_payload : ℕ → SubmissionQueue → SubmissionQueue × Option ℕ
detach_payload sequence s = detach_found sequence (lookup sequence s.entries) s

abbrev pub finish_release_found : ℕ → Option Entry → SubmissionQueue → SubmissionQueue
finish_release_found sequence none s = s
finish_release_found sequence (some e) s =
    let e' = record e { is_releasing_payload = false } in
    collect sequence e' (put_entry sequence e' s)

-- The second section refunds the bytes.
unfoldable pub finish_release : ℕ → ℕ → SubmissionQueue → SubmissionQueue
unfolding collect
finish_release sequence bytes s =
    finish_release_found sequence (lookup sequence s.entries)
      (record s { parameter_bytes = sub64 s.parameter_bytes bytes })
