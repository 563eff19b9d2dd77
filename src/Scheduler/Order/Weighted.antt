-- ===== src/Scheduler/Order/Weighted.antt =====
-- Under the weighted round-robin policy of src/core/scheduler.cc, what is peeked is what is taken.
use glimmer.Prelude.{
  ℕ, zero, suc, ◌≤◌, ◌≡◌, refl, sym, ◌∙◌, ap, inl, inr, Option, none, some, List, [], String, arith,
  length, get_elem?, Option-cases, Bool-cases, leb, ◌==◌, lookup, lookup-assign, string_eq, nat_eq,
}
use text.Mathlib.TextEquality.{eq_iff}
use glimmer.Scheduler.{TaskRecord, TenantQueue, Scheduler, advance_tenant, put_queue}
use glimmer.Scheduler.Queues.{
  next_queued, queue_at, wrapped, following, ids_of, peek_weighted_from,
  peek_weighted_round_robin_task,
}
use glimmer.Scheduler.Select.{
  rewind_weighted, select_weighted_from, select_weighted_round_robin_task,
}
use glimmer.Scheduler.Select.Attempts.{weighted_attempt}

abbrev pub first_id : Option (ℕ × TaskRecord × List ℕ) → Option ℕ
first_id none = none
first_id (some (id, task, ids)) = some id

-- The first task that is still queued under a cursor.
abbrev pub next_at : Scheduler → ℕ → Option ℕ
next_at s c = first_id (next_queued s.tasks (ids_of (queue_at s c)))

pub record SameNext (s t : Scheduler) : Type 0 where
  pub order : t.tenant_order ≡ s.tenant_order
  pub next : (c : ℕ) → next_at t c ≡ next_at s c

SameNext-trans : (s t u : Scheduler) → SameNext s t → SameNext t u → SameNext s u
SameNext-trans s t u a b = record { order = b.order ∙ a.order; next = λ c. b.next c ∙ a.next c }

abbrev or_later : Option ℕ → Option ℕ → Option ℕ
or_later none later = later
or_later (some id) later = some id

peek_weighted_suc :
    (n : ℕ) (s : Scheduler) (c : ℕ)
    → peek_weighted_from (suc n) s c
      ≡ or_later (next_at s (wrapped s c)) (peek_weighted_from n s (following s (wrapped s c)))
unfolding peek_weighted_from
peek_weighted_suc n s c =
    elim (Option-cases (next_queued s.tasks (ids_of (queue_at s (wrapped s c))))) [
      | inl e ↦ rw (e, peek_weighted_from) refl
      | inr ((id, task, ids), e) ↦ rw (e, peek_weighted_from) refl
    ]

peek_weighted-SameNext :
    (n : ℕ) (s t : Scheduler) (c : ℕ)
    → SameNext s t
    → peek_weighted_from n t c ≡ peek_weighted_from n s c
peek_weighted-SameNext zero s t c a = unfold peek_weighted_from in refl
peek_weighted-SameNext (suc n) s t c a =
    let same : wrapped t c ≡ wrapped s c = ground (arith, ap length a.order) in
    let later : following t (wrapped t c) ≡ following s (wrapped s c) =
      ground (arith, ap length a.order) in
    peek_weighted_suc n t c
    ∙ ap (λ o. or_later o (peek_weighted_from n t (following t (wrapped t c))))
        (a.next (wrapped t c) ∙ ap (next_at s) same)
    ∙ ap (or_later (next_at s (wrapped s c)))
        (ap (peek_weighted_from n t) later ∙ peek_weighted-SameNext n s t _ a)
    ∙ sym (peek_weighted_suc n s c)

rewind-SameNext : (s : Scheduler) → SameNext s (rewind_weighted s)
rewind-SameNext s = elim (Bool-cases (leb (length s.tenant_order) s.tenant_cursor)) [
  | inl e ↦ rw e (record { order = refl; next = λ c. unfold queue_at in refl })
  | inr e ↦ rw e (record { order = refl; next = λ c. refl })
]

advance-SameNext : (s : Scheduler) → SameNext s (advance_tenant s)
unfolding advance_tenant
advance-SameNext s = record { order = refl; next = λ c. unfold queue_at in refl }

next_queued-nil : (s : Scheduler) → next_queued s.tasks [] ≡ none
unfolding next_queued
next_queued-nil s = refl

drained-SameNext :
    (s : Scheduler) (tenant : String) (queue : TenantQueue)
    → lookup tenant s.tenant_queues ≡ some queue
    → next_queued s.tasks queue.task_ids ≡ none
    → SameNext s (put_queue tenant (record queue { task_ids = [] }) s)
drained-SameNext s tenant queue e d = record { order = refl; next = at }
  where
    at : (c : ℕ) → next_at (put_queue tenant (record queue { task_ids = [] }) s) c ≡ next_at s c
    at c = elim (Option-cases (get_elem? s.tenant_order c)) [
      | inl out ↦ unfold queue_at in ground arith
      | inr (other, here) ↦
          unfold queue_at in
          ground (
            arith,
            eq_iff tenant other,
            next_queued-nil s,
            lookup-assign tenant other (record queue { task_ids = [] }) s.tenant_queues,
          )
    ]

queue_at-lookup :
    (s : Scheduler) (c : ℕ) (tenant : String) (queue : TenantQueue)
    → queue_at s c ≡ some (tenant, queue)
    → lookup tenant s.tenant_queues ≡ some queue
unfolding queue_at
queue_at-lookup s c tenant queue e = elim (Option-cases (get_elem? s.tenant_order c)) [
  | inl out ↦ ground arith
  | inr (other, here) ↦ ground arith
]

rewind_cursor : (s : Scheduler) → (rewind_weighted s).tenant_cursor ≡ wrapped s s.tenant_cursor
rewind_cursor s = ground arith

advance_cursor :
    (s : Scheduler)
    → 1 ≤ length s.tenant_order
    → (advance_tenant s).tenant_cursor ≡ following s s.tenant_cursor
unfolding advance_tenant
advance_cursor s h = ground arith

peek_goes_on :
    (n : ℕ) (s u : Scheduler)
    → SameNext s u
    → next_at s (wrapped s s.tenant_cursor) ≡ none
    → u.tenant_cursor ≡ following s (wrapped s s.tenant_cursor)
    → peek_weighted_from n u u.tenant_cursor ≡ peek_weighted_from (suc n) s s.tenant_cursor
peek_goes_on n s u a empty cursor =
    ap (peek_weighted_from n u) cursor
    ∙ peek_weighted-SameNext n s u _ a
    ∙ sym (
        peek_weighted_suc n s s.tenant_cursor
        ∙ ap (λ o. or_later o (peek_weighted_from n s (following s (wrapped s s.tenant_cursor))))
            empty)

rewound_next :
    (s : Scheduler)
    → next_at (rewind_weighted s) (rewind_weighted s).tenant_cursor
      ≡ next_at s (wrapped s s.tenant_cursor)
rewound_next s =
    (rewind-SameNext s).next (rewind_weighted s).tenant_cursor ∙ ap (next_at s) (rewind_cursor s)

advanced_cursor :
    (s t : Scheduler)
    → 1 ≤ length s.tenant_order
    → t.tenant_order ≡ s.tenant_order
    → t.tenant_cursor ≡ wrapped s s.tenant_cursor
    → (advance_tenant t).tenant_cursor ≡ following s (wrapped s s.tenant_cursor)
advanced_cursor s t h order cursor =
    advance_cursor t (ground (arith, ap length order)) ∙ ground (arith, ap length order)

queue_absent : (s : Scheduler) (c : ℕ) → queue_at s c ≡ none → next_at s c ≡ none
queue_absent s c e = rw e (ap first_id (next_queued-nil s))

select_weighted-peek :
    (n : ℕ) (s : Scheduler)
    → 1 ≤ length s.tenant_order
    → (select_weighted_from n s).1 ≡ peek_weighted_from n s s.tenant_cursor
select_weighted-peek zero s h = unfold select_weighted_from peek_weighted_from in refl
select_weighted-peek (suc n) s h =
    let t = rewind_weighted s in
    let a : SameNext s t = rewind-SameNext s in
    let follow =
      λ (v : Scheduler) (b : SameNext t v) (c : v.tenant_cursor ≡ wrapped s s.tenant_cursor)
          (empty : next_at t t.tenant_cursor ≡ none).
        let w : SameNext s (advance_tenant v) =
          SameNext-trans s v (advance_tenant v) (SameNext-trans s t v a b) (advance-SameNext v) in
        select_weighted-peek n (advance_tenant v) (ground (arith, ap length w.order))
        ∙ peek_goes_on n s (advance_tenant v) w (sym (rewound_next s) ∙ empty)
            (advanced_cursor s v h (b.order ∙ a.order) c) in
    weighted_attempt (λ r. r.1 ≡ peek_weighted_from (suc n) s s.tenant_cursor) n s
      (λ e.
        follow t (record { order = refl; next = λ c. refl }) (rewind_cursor s)
          (queue_absent t t.tenant_cursor e))
      (λ tenant queue e d.
        follow (put_queue tenant (record queue { task_ids = [] }) t)
          (drained-SameNext t tenant queue (queue_at-lookup t t.tenant_cursor tenant queue e) d)
          (rewind_cursor s) (ground (arith, e, d)))
      (λ tenant queue id task ids e d.
        let taken : next_at t t.tenant_cursor ≡ some id = ground (arith, e, d) in
        sym (
          peek_weighted_suc n s s.tenant_cursor
          ∙ ap (λ o. or_later o (peek_weighted_from n s (following s (wrapped s s.tenant_cursor))))
              (sym (rewound_next s) ∙ taken)))

-- Under the weighted round-robin policy the task that is taken out of its queue is the one that a
-- peek reports, and a selection fails exactly when the peek does: the stale ids and the cursor
-- that the selection changes on its way make no difference.
pub select_weighted_round_robin-peek :
    (s : Scheduler) → (select_weighted_round_robin_task s).1 ≡ peek_weighted_round_robin_task s
unfolding select_weighted_round_robin_task peek_weighted_round_robin_task
select_weighted_round_robin-peek s = elim (Bool-cases (length s.tenant_order == 0)) [
  | inl empty ↦
      let none_left : length s.tenant_order ≡ 0 = ground arith in
      rw none_left (unfold select_weighted_from peek_weighted_from in refl)
  | inr some_left ↦ select_weighted-peek (length s.tenant_order) s (ground arith)
]
