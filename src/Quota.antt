-- ===== src/Quota.antt =====
-- The quota ledger (src/core/quota_ledger.cc, include/glimmer/core/quota_ledger.h). A method that
-- mutates the ledger or a reservation returns the new ones beside its result. One ledger is
-- modelled, so the shared pointer of a reservation is the Boolean `has_state`; a mutex that cannot
-- be locked is the argument `locked` of the one method that catches the exception.
pub mod Bounds
pub mod Holders
mod Examples
use glimmer.Prelude.{
  ℕ, ◌+◌, ◌-◌, Bool, true, false, Option, none, some, ltb, leb, if◌then◌else◌, u64_max, add64,
  sub64,
}

pub record QuotaLedgerState : Type 0 where
  pub limit_bytes : ℕ
  pub reserved_bytes : ℕ
  pub allocated_bytes : ℕ

pub record QuotaUsage : Type 0 where
  pub limit_bytes : ℕ
  pub reserved_bytes : ℕ
  pub allocated_bytes : ℕ

pub record QuotaReservation : Type 0 where
  pub has_state : Bool
  pub memory_bytes : ℕ

unfoldable pub used_bytes : QuotaUsage → ℕ
used_bytes u =
    if ltb (sub64 u64_max u.allocated_bytes) u.reserved_bytes
    then u64_max
    else add64 u.reserved_bytes u.allocated_bytes

unfoldable pub available_bytes : QuotaUsage → ℕ
unfolding used_bytes
available_bytes u =
    let used = used_bytes u in if leb u.limit_bytes used then 0 else sub64 u.limit_bytes used

unfoldable pub new_ledger : ℕ → QuotaLedgerState
new_ledger limit = record { limit_bytes = limit; reserved_bytes = 0; allocated_bytes = 0 }

unfoldable pub usage : QuotaLedgerState → QuotaUsage
usage s = record {
  limit_bytes = s.limit_bytes;
  reserved_bytes = s.reserved_bytes;
  allocated_bytes = s.allocated_bytes;
}

unfoldable pub try_reserve : QuotaLedgerState → ℕ → QuotaLedgerState × Option QuotaReservation
unfolding usage available_bytes
try_reserve s bytes = if ltb (available_bytes (usage s)) bytes then (s, none) else (
  record s { reserved_bytes = add64 s.reserved_bytes bytes },
  some (record { has_state = true; memory_bytes = bytes }),
)

unfoldable pub release : QuotaLedgerState → ℕ → QuotaLedgerState × Bool
release s bytes =
    if ltb s.allocated_bytes bytes
    then (s, false)
    else (record s { allocated_bytes = sub64 s.allocated_bytes bytes }, true)

unfoldable pub commit_reservation : QuotaLedgerState → ℕ → QuotaLedgerState × Bool
commit_reservation s bytes = if ltb s.reserved_bytes bytes then (s, false) else (
  record s {
    reserved_bytes = sub64 s.reserved_bytes bytes;
    allocated_bytes = add64 s.allocated_bytes bytes;
  },
  true,
)

-- The handler of a failed lock returns false and leaves the ledger alone.
unfoldable pub cancel_reservation : Bool → QuotaLedgerState → ℕ → QuotaLedgerState × Bool
cancel_reservation false s bytes = (s, false)
cancel_reservation true s bytes =
    if ltb s.reserved_bytes bytes
    then (s, false)
    else (record s { reserved_bytes = sub64 s.reserved_bytes bytes }, true)

unfoldable pub abandon : QuotaReservation → QuotaReservation
abandon r = record { has_state = false; memory_bytes = 0 }

unfoldable pub is_active : QuotaReservation → Bool
is_active r = r.has_state

-- What `commit` and `cancel` do with the answer of the ledger: reset the reservation, or keep it.
settle : QuotaReservation → QuotaLedgerState × Bool → QuotaLedgerState × QuotaReservation × Bool
unfolding abandon
settle r (s, true) = (s, abandon r, true)
settle r (s, false) = (s, r, false)

unfoldable pub commit :
    QuotaLedgerState → QuotaReservation → QuotaLedgerState × QuotaReservation × Bool
unfolding commit_reservation settle
commit s r = if r.has_state then settle r (commit_reservation s r.memory_bytes) else (s, r, false)

unfoldable pub cancel :
    Bool → QuotaLedgerState → QuotaReservation → QuotaLedgerState × QuotaReservation
unfolding cancel_reservation settle
cancel locked s r =
    let (s', r', done) = settle r (cancel_reservation locked s r.memory_bytes) in
    if r.has_state then (s', r') else (s, r)

-- The move constructor: the new reservation and what is left of the old one.
unfoldable pub move_construct : QuotaReservation → QuotaReservation × QuotaReservation
move_construct other = (other, record { has_state = false; memory_bytes = 0 })

-- The move assignment between two distinct objects: the ledger, the target and the source.
unfoldable pub move_assign :
    Bool
    → QuotaLedgerState
    → QuotaReservation
    → QuotaReservation
    → QuotaLedgerState × QuotaReservation × QuotaReservation
unfolding cancel move_construct
move_assign locked s target other =
    let (s', ignored) = cancel locked s target in
    let (taken, left) = move_construct other in (s', taken, left)
