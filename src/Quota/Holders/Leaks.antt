-- ===== src/Quota/Holders/Leaks.antt =====
-- What becomes of reserved bytes in the ledger of src/core/quota_ledger.cc.
use glimmer.Prelude.{
  ℕ, ◌+◌, ◌≡◌, refl, inl, inr, Bool, false, Option, none, some, ◌==◌, ◌||◌, if◌then◌else◌, arith,
  get_elem?, Option-cases,
}
use glimmer.Quota.{
  QuotaReservation, try_reserve, release, commit, cancel, abandon, move_construct, move_assign,
}
use glimmer.Quota.Bounds.{try_reserve_cases}
use glimmer.Quota.Holders.{
  Holders, Call, reserves, commits, cancels, abandons, constructs, assigns, destroys, releases,
  commit_at, cancel_at, abandon_at, construct_at, assign_at, destroy_at, step, held, weight,
  IsCovered, held-set, held-remove_at, held-moved, weight-le-held,
}

abbrev weight_of : Option QuotaReservation → ℕ
weight_of none = 0
weight_of (some r) = weight r

-- The target of an assignment between two reservations that are there.
abbrev weight_replaced : Option QuotaReservation → Option QuotaReservation → ℕ
weight_replaced target none = 0
weight_replaced target (some other) = weight_of target

-- The bytes that stay reserved with nobody to give them back.
unfoldable pub lost : Holders → Call → ℕ
lost h (abandons i) = weight_of (get_elem? h.reservations i)
lost h (assigns locked i j) =
    if locked || i == j
    then 0
    else weight_replaced (get_elem? h.reservations i) (get_elem? h.reservations j)
lost h (destroys locked i) = if locked then 0 else weight_of (get_elem? h.reservations i)
lost h _ = 0

-- A call that loses n bytes.
abbrev Loses : ℕ → Holders → Holders → Type 0
Loses n h h' =
    h'.ledger.reserved_bytes + held h.reservations
    ≡ h.ledger.reserved_bytes + held h'.reservations + n

commit_at-Loses :
    (h : Holders) (i : ℕ) (r : QuotaReservation)
    → get_elem? h.reservations i ≡ some r
    → IsCovered h
    → Loses 0 h (commit_at h i (some r))
unfolding commit_at commit
commit_at-Loses h i r e v = ground (
  arith,
  weight-le-held h.reservations i r,
  held-set h.reservations i r r,
  held-set h.reservations i r (abandon r),
)

cancel_at-Loses :
    (locked : Bool) (h : Holders) (i : ℕ) (r : QuotaReservation)
    → get_elem? h.reservations i ≡ some r
    → IsCovered h
    → Loses 0 h (cancel_at locked h i (some r))
unfolding cancel_at cancel
cancel_at-Loses locked h i r e v = ground (
  arith,
  weight-le-held h.reservations i r,
  held-set h.reservations i r r,
  held-set h.reservations i r (abandon r),
)

abandon_at-Loses :
    (h : Holders) (i : ℕ) (r : QuotaReservation)
    → get_elem? h.reservations i ≡ some r
    → Loses (weight r) h (abandon_at h i (some r))
unfolding abandon_at abandon
abandon_at-Loses h i r e = ground (arith, held-set h.reservations i r (abandon r))

construct_at-Loses :
    (h : Holders) (i : ℕ) (r : QuotaReservation)
    → get_elem? h.reservations i ≡ some r
    → Loses 0 h (construct_at h i (some r))
unfolding construct_at move_construct held
construct_at-Loses h i r e =
    ground (arith, held-set h.reservations i r (record { has_state = false; memory_bytes = 0 }))

assign_at-Loses :
    (locked : Bool) (h : Holders) (i j : ℕ) (target other : Option QuotaReservation)
    → get_elem? h.reservations i ≡ target
    → get_elem? h.reservations j ≡ other
    → IsCovered h
    → Loses
        (if locked || i == j then 0 else weight_replaced target other)
        h
        (assign_at locked h i j target other)
unfolding assign_at move_assign move_construct cancel
assign_at-Loses locked h i j none none e f v = ground arith
assign_at-Loses locked h i j none (some other) e f v = ground arith
assign_at-Loses locked h i j (some target) none e f v = ground arith
assign_at-Loses locked h i j (some target) (some other) e f v = ground (
  arith,
  weight-le-held h.reservations i target e,
  held-moved h.reservations i j target other (record { has_state = false; memory_bytes = 0 }),
)

destroy_at-Loses :
    (locked : Bool) (h : Holders) (i : ℕ) (r : QuotaReservation)
    → get_elem? h.reservations i ≡ some r
    → IsCovered h
    → Loses (if locked then 0 else weight r) h (destroy_at locked h i (some r))
unfolding destroy_at cancel
destroy_at-Loses locked h i r e v =
    ground (arith, weight-le-held h.reservations i r, held-remove_at h.reservations i r)

-- In a covered ledger the reserved bytes and those of the held reservations change together under
-- every call, but for what the call loses: the bytes of a reservation that is abandoned, and of an
-- active one that is destroyed, or assigned another, while the lock cannot be taken. No other call
-- leaks a byte, and none counts one twice.
pub step_loses :
    (h : Holders) (c : Call)
    → IsCovered h
    → (step h c).ledger.reserved_bytes + held h.reservations
      ≡ h.ledger.reserved_bytes + held (step h c).reservations + lost h c
unfolding step lost
step_loses h (reserves bytes) v =
    unfold try_reserve held in ground (arith, try_reserve_cases h.ledger bytes)
step_loses h (commits i) v = elim (Option-cases (get_elem? h.reservations i)) [
  | inl e ↦ rw (e, commit_at) (omega arith)
  | inr (r, e) ↦ rw e (commit_at-Loses h i r e v)
]
step_loses h (cancels locked i) v = elim (Option-cases (get_elem? h.reservations i)) [
  | inl e ↦ rw (e, cancel_at) (omega arith)
  | inr (r, e) ↦ rw e (cancel_at-Loses locked h i r e v)
]
step_loses h (abandons i) v = elim (Option-cases (get_elem? h.reservations i)) [
  | inl e ↦ rw (e, abandon_at) (omega arith)
  | inr (r, e) ↦ rw e (abandon_at-Loses h i r e)
]
step_loses h (constructs i) v = elim (Option-cases (get_elem? h.reservations i)) [
  | inl e ↦ rw (e, construct_at) (omega arith)
  | inr (r, e) ↦ rw e (construct_at-Loses h i r e)
]
step_loses h (assigns locked i j) v =
    assign_at-Loses locked h i j (get_elem? h.reservations i) (get_elem? h.reservations j) refl refl
      v
step_loses h (destroys locked i) v = elim (Option-cases (get_elem? h.reservations i)) [
  | inl e ↦ rw (e, destroy_at) (ground arith)
  | inr (r, e) ↦ rw e (destroy_at-Loses locked h i r e v)
]
step_loses h (releases bytes) v = unfold release in ground arith
