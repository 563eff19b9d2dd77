-- ===== src/Quota/Bounds.antt =====
-- Arithmetic of src/core/quota_ledger.cc: saturation, admission and the limit.
use glimmer.Prelude.{
  ℕ, ◌+◌, ◌-◌, ◌≤◌, ◌<◌, min, ◌≡◌, ◌⊎◌, Bool, true, false, none, some, arith, u64_max,
}
use glimmer.Quota.{
  QuotaLedgerState, QuotaUsage, QuotaReservation, used_bytes, available_bytes, try_reserve, release,
  commit_reservation, cancel_reservation, commit, cancel,
}

pub record IsWord (u : QuotaUsage) : Type 0 where
  pub limit : u.limit_bytes ≤ u64_max
  pub reserved : u.reserved_bytes ≤ u64_max
  pub allocated : u.allocated_bytes ≤ u64_max

-- For fields that are 64-bit words, the used bytes are the sum of the reserved and the allocated
-- bytes, cut off at the largest word, and the available bytes are what the limit leaves of that
-- sum, or 0: neither wraps.
pub used_available_bytes :
    (u : QuotaUsage)
    → IsWord u
    → (used_bytes u ≡ min (u.reserved_bytes + u.allocated_bytes) u64_max)
      × (available_bytes u ≡ u.limit_bytes - (u.reserved_bytes + u.allocated_bytes))
unfolding available_bytes
used_available_bytes u w = (ground arith, ground arith)

pub record IsWithinLimit (s : QuotaLedgerState) : Type 0 where
  pub word : s.limit_bytes ≤ u64_max
  pub fits : s.reserved_bytes + s.allocated_bytes ≤ s.limit_bytes

pub try_reserve_cases :
    (s : QuotaLedgerState) (bytes : ℕ)
    → IsWithinLimit s
    → ((s.reserved_bytes + s.allocated_bytes + bytes ≤ s.limit_bytes)
        × (try_reserve s bytes ≡ (
          record s { reserved_bytes = s.reserved_bytes + bytes },
          some (record { has_state = true; memory_bytes = bytes }),
        )))
      ⊎ ((s.limit_bytes < s.reserved_bytes + s.allocated_bytes + bytes)
          × (try_reserve s bytes ≡ (s, none)))
unfolding try_reserve
try_reserve_cases s bytes v = ground arith

pub release_cases :
    (s : QuotaLedgerState) (bytes : ℕ)
    → IsWithinLimit s
    → ((bytes ≤ s.allocated_bytes)
        × (release s bytes ≡ (record s { allocated_bytes = s.allocated_bytes - bytes }, true)))
      ⊎ ((s.allocated_bytes < bytes) × (release s bytes ≡ (s, false)))
unfolding release
release_cases s bytes v = ground arith

pub commit_reservation_cases :
    (s : QuotaLedgerState) (bytes : ℕ)
    → IsWithinLimit s
    → ((bytes ≤ s.reserved_bytes)
        × (commit_reservation s bytes ≡ (
          record s {
            reserved_bytes = s.reserved_bytes - bytes;
            allocated_bytes = s.allocated_bytes + bytes;
          },
          true,
        )))
      ⊎ ((s.reserved_bytes < bytes) × (commit_reservation s bytes ≡ (s, false)))
unfolding commit_reservation
commit_reservation_cases s bytes v = ground arith

pub cancel_reservation_cases :
    (s : QuotaLedgerState) (bytes : ℕ)
    → IsWithinLimit s
    → ((bytes ≤ s.reserved_bytes)
        × (cancel_reservation true s bytes
            ≡ (record s { reserved_bytes = s.reserved_bytes - bytes }, true)))
      ⊎ ((s.reserved_bytes < bytes) × (cancel_reservation true s bytes ≡ (s, false)))
unfolding cancel_reservation
cancel_reservation_cases s bytes v = ground arith

-- Each operation of a ledger keeps it within its limit.
pub try_reserve-IsWithinLimit :
    (s : QuotaLedgerState) (bytes : ℕ) → IsWithinLimit s → IsWithinLimit (try_reserve s bytes).0
try_reserve-IsWithinLimit s bytes v = ground (arith, try_reserve_cases s bytes)

pub release-IsWithinLimit :
    (s : QuotaLedgerState) (bytes : ℕ) → IsWithinLimit s → IsWithinLimit (release s bytes).0
release-IsWithinLimit s bytes v = ground (arith, release_cases s bytes)

pub commit-IsWithinLimit :
    (s : QuotaLedgerState) (r : QuotaReservation) → IsWithinLimit s → IsWithinLimit (commit s r).0
unfolding commit
commit-IsWithinLimit s r v = ground arith

pub cancel-IsWithinLimit :
    (locked : Bool) (s : QuotaLedgerState) (r : QuotaReservation)
    → IsWithinLimit s
    → IsWithinLimit (cancel locked s r).0
unfolding cancel
cancel-IsWithinLimit locked s r v = ground arith
