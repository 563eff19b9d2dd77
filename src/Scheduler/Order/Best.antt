-- ===== src/Scheduler/Order/Best.antt =====
-- The priority policy of src/core/scheduler.cc selects the highest priority, and the oldest task
-- among equals.
use glimmer.Prelude.{
  ℕ, zero, suc, ◌≤◌, ◌<◌, ◌≡◌, refl, ◌⊎◌, inl, inr, Option, none, some, List, [], ◌∷◌, get_elem?,
  arith, Bool-cases, Option-cases, ◌∙◌, sym, ap,
}
use glimmer.Scheduler.{TaskRecord, Scheduler}
use glimmer.Scheduler.Queues.{
  Tasks, queued_task, Selected, passes_over, prefer, scan_priority, peek_priority_task,
}
use glimmer.Scheduler.Order.{all_ids, IsWaiting, scan_priority_queues-all_ids}

-- A task of this priority and id goes before, or is, the other one.
abbrev pub Precedes : ℕ → ℕ → ℕ → ℕ → Type 0
Precedes priority id priority' id' = (priority' < priority) ⊎ ((priority ≡ priority') × (id ≤ id'))

-- The selection of a scan, which goes before a given task.
pub record Beats (out : Selected) (priority id : ℕ) : Type 0 where
  pub winner : ℕ
  pub selected : out.task_id ≡ some winner
  pub precedes : Precedes out.priority winner priority id

prefer-Beats_old :
    (best : Selected) (id m : ℕ) (o : Option TaskRecord)
    → best.task_id ≡ some m
    → Beats (prefer best id o) best.priority m
prefer-Beats_old best id m none h = record {
  winner = m;
  selected = h;
  precedes = inr (refl, omega arith);
}
prefer-Beats_old best id m (some task) h =
    elim (Bool-cases (passes_over id task.spec.priority best.priority best.task_id)) [
      | inl e ↦ record { winner = m; selected = ground arith; precedes = ground arith }
      | inr e ↦ record { winner = id; selected = ground arith; precedes = ground arith }
    ]

prefer-Beats_new :
    (best : Selected) (id : ℕ) (task : TaskRecord)
    → Beats (prefer best id (some task)) task.spec.priority id
prefer-Beats_new best id task =
    elim (Bool-cases (passes_over id task.spec.priority best.priority best.task_id)) [
      | inl e ↦ elim (Option-cases best.task_id) [
        | inl empty ↦ ground arith
        | inr (m, old) ↦ record { winner = m; selected = ground arith; precedes = ground arith }
      ]
      | inr e ↦ record { winner = id; selected = ground arith; precedes = ground arith }
    ]

Beats-trans :
    (a b : Selected) (m priority id : ℕ)
    → Beats a priority id
    → a.task_id ≡ some m
    → Beats b a.priority m
    → Beats b priority id
Beats-trans a b m priority id x h y = record {
  winner = y.winner;
  selected = y.selected;
  precedes = ground (arith, x.precedes, x.selected, y.precedes);
}

scan-Beats_old :
    (tasks : Tasks) (ids : List ℕ) (best : Selected) (m : ℕ)
    → best.task_id ≡ some m
    → Beats (scan_priority tasks best ids) best.priority m
unfolding scan_priority
scan-Beats_old tasks [] best m h = record {
  winner = m;
  selected = h;
  precedes = inr (refl, omega arith);
}
scan-Beats_old tasks (x ∷ ids) best m h =
    let first = prefer-Beats_old best x m (queued_task tasks x) h in
    Beats-trans (prefer best x (queued_task tasks x)) _ first.winner best.priority m first
      first.selected
      (scan-Beats_old tasks ids (prefer best x (queued_task tasks x)) first.winner first.selected)

scan-Beats_all :
    (tasks : Tasks) (ids : List ℕ) (best : Selected) (i j : ℕ) (t : TaskRecord)
    → get_elem? ids i ≡ some j
    → queued_task tasks j ≡ some t
    → Beats (scan_priority tasks best ids) t.spec.priority j
unfolding scan_priority
scan-Beats_all tasks [] best i j t at h = cc
scan-Beats_all tasks (x ∷ ids) best zero j t at h =
    let same : x ≡ j = ground arith in
    let here : queued_task tasks x ≡ some t = ap (queued_task tasks) same ∙ h in
    let first : Beats (prefer best x (queued_task tasks x)) t.spec.priority j =
      rw (here, ← same) (prefer-Beats_new best x t) in
    Beats-trans (prefer best x (queued_task tasks x)) _ first.winner t.spec.priority j first
      first.selected
      (scan-Beats_old tasks ids (prefer best x (queued_task tasks x)) first.winner first.selected)
scan-Beats_all tasks (x ∷ ids) best (suc i) j t at h = scan-Beats_all tasks ids _ i j t at h

scan_priority_found :
    (tasks : Tasks) (ids : List ℕ) (best : Selected) (id : ℕ)
    → (scan_priority tasks best ids).task_id ≡ some id
    → (best ≡ scan_priority tasks best ids)
      ⊎ ((i : ℕ) × (task : TaskRecord) × (get_elem? ids i ≡ some id)
          × (queued_task tasks id ≡ some task)
          × (task.spec.priority ≡ (scan_priority tasks best ids).priority))
unfolding scan_priority
scan_priority_found tasks [] best id h = inl refl
scan_priority_found tasks (x ∷ ids) best id h =
    elim (scan_priority_found tasks ids (prefer best x (queued_task tasks x)) id h) [
      | inr (i, task, at, there, eq) ↦ inr (suc i, task, at, there, eq)
      | inl old ↦ elim (Option-cases (queued_task tasks x)) [
        | inl gone ↦ inl (ap (λ o. prefer best x o) (sym gone) ∙ old)
        | inr (task, there) ↦
            elim (Bool-cases (passes_over x task.spec.priority best.priority best.task_id)) [
              | inl kept ↦ inl (ground arith)
              | inr taken ↦ inr (zero, task, ground arith, ground arith, ground arith)
            ]
      ]
    ]

-- What a peek answers, in either case.
pub peek_priority_choice :
    (s : Scheduler)
    → ((id : ℕ)
        → peek_priority_task s ≡ some id
        → (task : TaskRecord) × IsWaiting s id task
          × ((j : ℕ) (t : TaskRecord)
              → IsWaiting s j t
              → Precedes task.spec.priority id t.spec.priority j))
      × (peek_priority_task s ≡ none → (j : ℕ) (t : TaskRecord) → IsWaiting s j t → ⊥)
unfolding peek_priority_task
peek_priority_choice s =
    let flat = scan_priority_queues-all_ids s.tasks nobody s.tenant_queues in
    (
      λ id h. best id (sym (ap (λ (x : Selected). x.task_id) flat) ∙ h),
      λ h j t w.
          let b =
            scan-Beats_all s.tasks (all_ids s.tenant_queues) nobody w.place j t w.here w.there in
          ground (arith, b.selected, flat),
    )
  where
    nobody : Selected
    nobody = record { task_id = none; priority = 0 }

    best :
        (id : ℕ)
        → (scan_priority s.tasks nobody (all_ids s.tenant_queues)).task_id ≡ some id
        → (task : TaskRecord) × IsWaiting s id task
          × ((j : ℕ) (t : TaskRecord)
              → IsWaiting s j t
              → Precedes task.spec.priority id t.spec.priority j)
    best id h = elim (scan_priority_found s.tasks (all_ids s.tenant_queues) nobody id h) [
      | inl none_before ↦ ground arith
      | inr (i, task, at, there, eq) ↦ (
        task,
        record { place = i; here = at; there = there },
        λ j t w.
            let b =
              scan-Beats_all s.tasks (all_ids s.tenant_queues) nobody w.place j t w.here w.there in
            ground (arith, b.selected, b.precedes),
      )
    ]

-- Under the priority policy the next task is a waiting task that goes before every other one: it
-- has the highest priority, and the smallest id among those. There is none exactly when no task
-- waits.
pub peek_priority_best :
    (s : Scheduler)
    → ((id : ℕ) × (task : TaskRecord) × (peek_priority_task s ≡ some id)
        × IsWaiting s id task
        × ((j : ℕ) (t : TaskRecord)
            → IsWaiting s j t
            → Precedes task.spec.priority id t.spec.priority j))
      ⊎ ((peek_priority_task s ≡ none) × ((j : ℕ) (t : TaskRecord) → IsWaiting s j t → ⊥))
peek_priority_best s = elim (Option-cases (peek_priority_task s)) [
  | inl e ↦ inr (e, (peek_priority_choice s).1 e)
  | inr (id, e) ↦
      let (task, waits, best) = (peek_priority_choice s).0 id e in inl (id, task, e, waits, best)
]
