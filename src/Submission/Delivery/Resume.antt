-- ===== src/Submission/Delivery/Resume.antt =====
-- The continuation of a paused command and its token
-- (src/backend/execution_submission_queue.cc).
use glimmer.Prelude.{
  ℕ, suc, ◌≡◌, refl, ap, sym, subst, ◌∙◌, Bool, true, false, not, ◌||◌, Option, none, some, arith,
  lookup, nat_eq, ◌==◌, u64_max, if◌then◌else◌,
}
use glimmer.Submission.{
  Entry, SubmissionQueue, Caller, ExecutionIssueToken, ExecutionIssue, find, find_issue, put_entry,
  of_generation,
}
use glimmer.Submission.Accept.{seal}
use glimmer.Submission.Issue.{
  resumed, resume_found, resume_after_physical_stop, issue, is_paused, is_resuming,
}
use glimmer.Submission.Entries.{all-lookup, lookup_assigned}
use glimmer.Submission.Effect.{is_coherent}
use glimmer.Submission.Sound.{IsSound}

guarded_inv :
    (refused last : Bool) (s t : SubmissionQueue) (j i : ExecutionIssue)
    → (if◌then◌else◌ {A = SubmissionQueue × Option ExecutionIssue} refused
        (s, none)
        (if last then (seal s, none) else (t, some j))).1
      ≡ some i
    → (refused ≡ false) × (last ≡ false) × (j ≡ i)
guarded_inv true last s t j i h = cc
guarded_inv false true s t j i h = cc
guarded_inv false false s t j i h = (refl, refl, ground arith)

resume_inv :
    (c : Caller) (k : ℕ) (o : Option Entry) (s : SubmissionQueue) (i : ExecutionIssue)
    → (resume_found c k o s).1 ≡ some i
    → (e : Entry) × (o ≡ some e)
      × (is_paused e.phase ≡ true)
      × ((e.generation == u64_max) ≡ false)
      × (issue s k (resumed e) ≡ i)
      × ((resume_found c k o s).0 ≡ put_entry k (resumed e) s)
resume_inv c k none s i h = cc
resume_inv c k (some e) s i h =
    let (refused, last, same) = guarded_inv _ _ s (put_entry k (resumed e) s) _ i h in
    (e, refl, ground arith, last, same, rw (refused, last) refl)

of_generation_inv :
    (g : ℕ) (o : Option Entry) (e : Entry)
    → of_generation g o ≡ some e
    → (o ≡ some e) × (e.generation ≡ g) × ((e.generation == 0) ≡ false)
of_generation_inv g none e h = cc
of_generation_inv g (some x) e h = ground arith

if_found_inv :
    (refused : Bool) (o : Option Entry) (e : Entry)
    → (if refused then none else o) ≡ some e
    → (refused ≡ false) × (o ≡ some e)
if_found_inv true o e h = cc
if_found_inv false o e h = (refl, h)

find_issue_inv :
    (s : SubmissionQueue) (token : ExecutionIssueToken) (e : Entry)
    → find_issue s token ≡ some e
    → ((not (token.owner == s.identity) || token.sequence == 0) ≡ false)
      × (lookup token.sequence s.entries ≡ some e)
      × (e.generation ≡ token.generation)
      × ((e.generation == 0) ≡ false)
unfolding find_issue find
find_issue_inv s token e h =
    let (f, g, z) = of_generation_inv token.generation _ e h in
    let (r, l) = if_found_inv _ (lookup token.sequence s.entries) e f in (r, l, g, z)

-- Where a token of this queue leads, for a known entry.
find_issue_known :
    (s : SubmissionQueue) (k g : ℕ) (e : Entry)
    → lookup k s.entries ≡ some e
    → (k == 0) ≡ false
    → find_issue s (record { owner = s.identity; sequence = k; generation = g })
      ≡ of_generation g (some e)
unfolding find_issue find
find_issue_known s k g e l z = ground (arith, l, z)

resumed-find_issue :
    (s : SubmissionQueue) (k g : ℕ) (e : Entry)
    → lookup k s.entries ≡ some e
    → (k == 0) ≡ false
    → is_coherent e ≡ true
    → (e.generation == u64_max) ≡ false
    → e.generation ≡ g
    → (find_issue
          (put_entry k (resumed e) s)
          (record { owner = s.identity; sequence = k; generation = g })
        ≡ none)
      × (find_issue
            (put_entry k (resumed e) s)
            (record { owner = s.identity; sequence = k; generation = suc g })
          ≡ some (resumed e))
resumed-find_issue s k g e l z v m d =
    let there = lookup_assigned k e (resumed e) s.entries l in
    let t : SubmissionQueue = put_entry k (resumed e) s in
    (
      find_issue_known t k g (resumed e) there z ∙ ground arith,
      find_issue_known t k (suc g) (resumed e) there z ∙ ground arith,
    )

issue-token :
    (s : SubmissionQueue) (token : ExecutionIssueToken) (e : Entry) (i : ExecutionIssue)
    → issue s token.sequence (resumed e) ≡ i
    → token.owner ≡ s.identity
    → is_coherent e ≡ true
    → (e.generation == u64_max) ≡ false
    → e.generation ≡ token.generation
    → i.token ≡ record token { generation = suc token.generation }
unfolding issue
issue-token s token e i same owner c m g =
    let next : (resumed e).generation ≡ suc token.generation = ground arith in
    ap (λ j. j.token) (sym same)
    ∙ ap (λ (g : ℕ). record { owner = s.identity; sequence = token.sequence; generation = g }) next
    ∙ ap (λ (o : ℕ). record token { owner = o; generation = suc token.generation }) (sym owner)

-- In a well-formed queue let a token continue a paused command. The token that the executor gets
-- names the same command under the next generation, and it alone leads to the command from then on:
-- the old token leads nowhere.
pub resume_renews :
    (held : ℕ) (d : Caller) (token : ExecutionIssueToken) (s : SubmissionQueue) (i : ExecutionIssue)
    → IsSound held s
    → (resume_after_physical_stop d token s).1 ≡ some i
    → (i.token ≡ record token { generation = suc token.generation })
      × (find_issue (resume_after_physical_stop d token s).0 token ≡ none)
      × ((e : Entry) × (find_issue (resume_after_physical_stop d token s).0 i.token ≡ some e)
          × (is_resuming e.phase ≡ true))
unfolding resume_after_physical_stop
resume_renews held d token s i v h =
    let (e, f, p, m, same, after) = resume_inv d token.sequence (find_issue s token) s i h in
    let (r, l, g, z) = find_issue_inv s token e f in
    let owner : token.owner ≡ s.identity = ground arith in
    let c = all-lookup is_coherent token.sequence e s.entries v.coherent l in
    let (old, new) =
      resumed-find_issue s token.sequence token.generation e l (ground arith) c m g in
    let t : SubmissionQueue = put_entry token.sequence (resumed e) s in
    let renewed = issue-token s token e i same owner c m g in
    (
      renewed,
      rw after
          (subst (λ (o : ℕ). find_issue t (record token { owner = o }) ≡ none) (sym owner) old),
      (
        resumed e,
        rw (after, renewed)
            (subst
              (λ (o : ℕ).
                find_issue t (record token { owner = o; generation = suc token.generation })
                ≡ some (resumed e))
              (sym owner) new),
        refl,
      ),
    )
