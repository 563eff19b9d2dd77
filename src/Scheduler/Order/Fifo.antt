-- ===== src/Scheduler/Order/Fifo.antt =====
-- The FIFO policy of src/core/scheduler.cc selects the oldest waiting task.
use glimmer.Prelude.{
  ℕ, zero, suc, ◌≤◌, ◌≡◌, refl, ◌⊎◌, inl, inr, true, ◌&&◌, Option, none, some, List, [], ◌∷◌,
  get_elem?, is_some, arith, Bool-cases, Option-cases, ltb, ◌∙◌, sym,
}
use glimmer.Scheduler.{TaskRecord, Scheduler}
use glimmer.Scheduler.Queues.{Tasks, queued_task, older, scan_fifo, peek_fifo_task}
use glimmer.Scheduler.Order.{all_ids, IsWaiting, scan_fifo_queues-all_ids}

-- The outcome of the scan is not above what was selected before.
scan_fifo-le :
    (tasks : Tasks) (ids : List ℕ) (m : ℕ)
    → (r : ℕ) × (scan_fifo tasks (some m) ids ≡ some r) × (r ≤ m)
unfolding scan_fifo
scan_fifo-le tasks [] m = (m, refl, omega arith)
scan_fifo-le tasks (x ∷ ids) m = elim (Bool-cases (is_some (queued_task tasks x) && ltb x m)) [
  | inl e ↦ let (r, at, below) = scan_fifo-le tasks ids x in (r, rw e at, ground (arith, below))
  | inr e ↦ let (r, at, below) = scan_fifo-le tasks ids m in (r, rw e at, below)
]

-- It is at most every queued task of the list.
scan_fifo_least :
    (tasks : Tasks) (ids : List ℕ) (selected : Option ℕ) (i j : ℕ)
    → get_elem? ids i ≡ some j
    → is_some (queued_task tasks j) ≡ true
    → (r : ℕ) × (scan_fifo tasks selected ids ≡ some r) × (r ≤ j)
unfolding scan_fifo
scan_fifo_least tasks [] selected i j at h = cc
scan_fifo_least tasks (x ∷ ids) selected zero j at h =
    elim (Bool-cases (is_some (queued_task tasks x) && older x selected)) [
      | inl e ↦
          let (r, found, below) = scan_fifo-le tasks ids x in (r, rw e found, ground (arith, below))
      | inr e ↦ elim (Option-cases selected) [
        | inl empty ↦ ground arith
        | inr (m, old) ↦
            let (r, found, below) = scan_fifo-le tasks ids m in
            (r, rw (e, old) found, ground (arith, below))
      ]
    ]
scan_fifo_least tasks (x ∷ ids) selected (suc i) j at h = scan_fifo_least tasks ids _ i j at h

-- It is a queued task of the list, or what was selected before.
scan_fifo_found :
    (tasks : Tasks) (ids : List ℕ) (selected : Option ℕ) (r : ℕ)
    → scan_fifo tasks selected ids ≡ some r
    → (selected ≡ some r)
      ⊎ ((i : ℕ) × (get_elem? ids i ≡ some r) × (is_some (queued_task tasks r) ≡ true))
unfolding scan_fifo
scan_fifo_found tasks [] selected r h = inl h
scan_fifo_found tasks (x ∷ ids) selected r h = elim (scan_fifo_found tasks ids _ r h) [
  | inl old ↦ elim (Bool-cases (is_some (queued_task tasks x) && older x selected)) [
    | inl e ↦ inr (zero, ground arith, ground arith)
    | inr e ↦ inl (ground arith)
  ]
  | inr (i, at, waits) ↦ inr (suc i, at, waits)
]

-- What a peek answers, in either case.
peek_fifo_choice :
    (s : Scheduler)
    → ((id : ℕ)
        → peek_fifo_task s ≡ some id
        → (task : TaskRecord) × IsWaiting s id task
          × ((j : ℕ) (t : TaskRecord) → IsWaiting s j t → id ≤ j))
      × (peek_fifo_task s ≡ none → (j : ℕ) (t : TaskRecord) → IsWaiting s j t → ⊥)
unfolding peek_fifo_task
peek_fifo_choice s = (
  λ id h. oldest id (sym (scan_fifo_queues-all_ids s.tasks none s.tenant_queues) ∙ h),
  λ h j t w.
      let (r, found, below) =
        scan_fifo_least s.tasks (all_ids s.tenant_queues) none w.place j w.here
          (ground (arith, w.there)) in
      ground (arith, scan_fifo_queues-all_ids s.tasks none s.tenant_queues),
)
  where
    oldest :
        (id : ℕ)
        → scan_fifo s.tasks none (all_ids s.tenant_queues) ≡ some id
        → (task : TaskRecord) × IsWaiting s id task
          × ((j : ℕ) (t : TaskRecord) → IsWaiting s j t → id ≤ j)
    oldest id h = elim (scan_fifo_found s.tasks (all_ids s.tenant_queues) none id h) [
      | inl none_before ↦ cc
      | inr (i, at, waits) ↦ elim (Option-cases (queued_task s.tasks id)) [
        | inl gone ↦ ground arith
        | inr (task, there) ↦ (
          task,
          record { place = i; here = at; there = there },
          λ j t w.
              let (r, found, below) =
                scan_fifo_least s.tasks (all_ids s.tenant_queues) none w.place j w.here
                  (ground (arith, w.there)) in
              ground (arith, found, below, h),
        )
      ]
    ]

-- Under FIFO the next task is the waiting task with the smallest id; there is none exactly when no
-- task waits.
pub peek_fifo_oldest :
    (s : Scheduler)
    → ((id : ℕ) × (task : TaskRecord) × (peek_fifo_task s ≡ some id)
        × IsWaiting s id task
        × ((j : ℕ) (t : TaskRecord) → IsWaiting s j t → id ≤ j))
      ⊎ ((peek_fifo_task s ≡ none) × ((j : ℕ) (t : TaskRecord) → IsWaiting s j t → ⊥))
peek_fifo_oldest s = elim (Option-cases (peek_fifo_task s)) [
  | inl e ↦ inr (e, (peek_fifo_choice s).1 e)
  | inr (id, e) ↦
      let (task, waits, least) = (peek_fifo_choice s).0 id e in inl (id, task, e, waits, least)
]
