-- ===== src/Quota/Holders/Safety.antt =====
-- What every sequence of calls on the ledger of src/core/quota_ledger.cc keeps.
use glimmer.Prelude.{
  ℕ, ◌+◌, ◌-◌, ◌≤◌, ◌≡◌, inl, inr, Bool, true, false, some, List, [], ◌∷◌, arith, get_elem?,
  Option-cases, u64_max,
}
use glimmer.Quota.{
  QuotaReservation, new_ledger, try_reserve, release, commit, cancel, abandon, is_active,
  move_construct, move_assign,
}
use glimmer.Quota.Bounds.{try_reserve_cases}
use glimmer.Quota.Holders.{
  Holders, Call, reserves, commits, cancels, abandons, constructs, assigns, destroys, releases,
  construct_at, assign_at, destroy_at, held-remove_at, held-moved, commit_at, cancel_at, abandon_at,
  step, run, held, IsCovered, held-set, weight-le-held,
}

commit_at-IsCovered :
    (h : Holders) (i : ℕ) (r : QuotaReservation)
    → get_elem? h.reservations i ≡ some r
    → IsCovered h
    → IsCovered (commit_at h i (some r))
unfolding commit_at commit
commit_at-IsCovered h i r e v = ground (
  arith,
  weight-le-held h.reservations i r,
  held-set h.reservations i r r,
  held-set h.reservations i r (abandon r),
)

cancel_at-IsCovered :
    (locked : Bool) (h : Holders) (i : ℕ) (r : QuotaReservation)
    → get_elem? h.reservations i ≡ some r
    → IsCovered h
    → IsCovered (cancel_at locked h i (some r))
unfolding cancel_at cancel
cancel_at-IsCovered locked h i r e v = ground (
  arith,
  weight-le-held h.reservations i r,
  held-set h.reservations i r r,
  held-set h.reservations i r (abandon r),
)

abandon_at-IsCovered :
    (h : Holders) (i : ℕ) (r : QuotaReservation)
    → get_elem? h.reservations i ≡ some r
    → IsCovered h
    → IsCovered (abandon_at h i (some r))
unfolding abandon_at abandon
abandon_at-IsCovered h i r e v = ground (arith, held-set h.reservations i r (abandon r))

construct_at-IsCovered :
    (h : Holders) (i : ℕ) (r : QuotaReservation)
    → get_elem? h.reservations i ≡ some r
    → IsCovered h
    → IsCovered (construct_at h i (some r))
unfolding construct_at move_construct held
construct_at-IsCovered h i r e v =
    ground (arith, held-set h.reservations i r (record { has_state = false; memory_bytes = 0 }))

assign_at-IsCovered :
    (locked : Bool) (h : Holders) (i j : ℕ) (target other : QuotaReservation)
    → get_elem? h.reservations i ≡ some target
    → get_elem? h.reservations j ≡ some other
    → IsCovered h
    → IsCovered (assign_at locked h i j (some target) (some other))
unfolding assign_at move_assign move_construct cancel
assign_at-IsCovered locked h i j target other e f v = ground (
  arith,
  weight-le-held h.reservations i target e,
  held-moved h.reservations i j target other (record { has_state = false; memory_bytes = 0 }),
)

destroy_at-IsCovered :
    (locked : Bool) (h : Holders) (i : ℕ) (r : QuotaReservation)
    → get_elem? h.reservations i ≡ some r
    → IsCovered h
    → IsCovered (destroy_at locked h i (some r))
unfolding destroy_at cancel
destroy_at-IsCovered locked h i r e v =
    ground (arith, weight-le-held h.reservations i r, held-remove_at h.reservations i r)

reserves-IsCovered : (h : Holders) (bytes : ℕ) → IsCovered h → IsCovered (step h (reserves bytes))
unfolding step try_reserve held
reserves-IsCovered h bytes v = ground (arith, try_reserve_cases h.ledger bytes)

-- Let a ledger be within its limit and its reserved bytes cover the held reservations. Every call
-- on it, refused or not and with the lock taken or not, keeps both.
pub step-IsCovered : (h : Holders) (c : Call) → IsCovered h → IsCovered (step h c)
unfolding step
step-IsCovered h (reserves bytes) v = reserves-IsCovered h bytes v
step-IsCovered h (commits i) v = elim (Option-cases (get_elem? h.reservations i)) [
  | inl e ↦ rw (e, commit_at) v
  | inr (r, e) ↦ rw e (commit_at-IsCovered h i r e v)
]
step-IsCovered h (cancels locked i) v = elim (Option-cases (get_elem? h.reservations i)) [
  | inl e ↦ rw (e, cancel_at) v
  | inr (r, e) ↦ rw e (cancel_at-IsCovered locked h i r e v)
]
step-IsCovered h (abandons i) v = elim (Option-cases (get_elem? h.reservations i)) [
  | inl e ↦ rw (e, abandon_at) v
  | inr (r, e) ↦ rw e (abandon_at-IsCovered h i r e v)
]
step-IsCovered h (constructs i) v = elim (Option-cases (get_elem? h.reservations i)) [
  | inl e ↦ rw (e, construct_at) v
  | inr (r, e) ↦ rw e (construct_at-IsCovered h i r e v)
]
step-IsCovered h (assigns locked i j) v = elim (Option-cases (get_elem? h.reservations i)) [
  | inl e ↦ rw (e, assign_at) v
  | inr (r, e) ↦ elim (Option-cases (get_elem? h.reservations j)) [
    | inl f ↦ rw (e, f, assign_at) v
    | inr (x, f) ↦ rw (e, f) (assign_at-IsCovered locked h i j r x e f v)
  ]
]
step-IsCovered h (destroys locked i) v = elim (Option-cases (get_elem? h.reservations i)) [
  | inl e ↦ rw (e, destroy_at) v
  | inr (r, e) ↦ rw e (destroy_at-IsCovered locked h i r e v)
]
step-IsCovered h (releases bytes) v =
    unfold release in record { within = ground arith; covered = ground arith }

run-IsCovered : (h : Holders) (cs : List Call) → IsCovered h → IsCovered (run h cs)
unfolding run
run-IsCovered h [] v = v
run-IsCovered h (c ∷ cs) v = run-IsCovered (step h c) cs (step-IsCovered h c v)

abbrev pub fresh : ℕ → Holders
fresh limit = record { ledger = new_ledger limit; reservations = [] }

-- Whatever calls are made on a new ledger whose limit is a 64-bit word, its reserved and allocated
-- bytes never pass the limit, and the reserved bytes always cover the reservations that callers
-- hold.
pub run-fresh-IsCovered :
    (limit : ℕ) (cs : List Call) → limit ≤ u64_max → IsCovered (run (fresh limit) cs)
run-fresh-IsCovered limit cs h =
    run-IsCovered (fresh limit) cs (unfold new_ledger held in ground arith)

-- In a covered ledger the commit of a held active reservation succeeds: its bytes pass from
-- reserved to allocated and the reservation becomes inactive. Nor is its cancellation under the
-- lock refused: its bytes leave the reserved ones.
pub held_settles :
    (h : Holders) (i : ℕ) (r : QuotaReservation)
    → IsCovered h
    → get_elem? h.reservations i ≡ some r
    → is_active r ≡ true
    → (commit h.ledger r ≡ (
      record h.ledger {
        reserved_bytes = h.ledger.reserved_bytes - r.memory_bytes;
        allocated_bytes = h.ledger.allocated_bytes + r.memory_bytes;
      },
      abandon r,
      true,
    ))
      × (cancel true h.ledger r ≡ (
        record h.ledger { reserved_bytes = h.ledger.reserved_bytes - r.memory_bytes },
        abandon r,
      ))
unfolding is_active commit cancel
held_settles h i r v e a = (
  ground (arith, weight-le-held h.reservations i r),
  ground (arith, weight-le-held h.reservations i r),
)
