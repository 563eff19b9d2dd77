-- ===== src/Quota/Examples.antt =====
-- The theorems on src/core/quota_ledger.cc at concrete ledgers.
use glimmer.Prelude.{◌+◌, ◌-◌, min, ◌≡◌, refl, true, false, List, [], ◌∷◌, arith, u64_max}
use glimmer.Quota.{
  QuotaLedgerState, QuotaUsage, QuotaReservation, used_bytes, available_bytes, new_ledger, commit,
  cancel, abandon, is_active, try_reserve, move_construct, move_assign,
}
use glimmer.Quota.Bounds.{used_available_bytes}
use glimmer.Quota.Holders.{
  Holders, Call, reserves, commits, constructs, assigns, destroys, releases, step, run, held,
  IsCovered,
}
use glimmer.Quota.Holders.Safety.{run-fresh-IsCovered, fresh, held_settles}
use glimmer.Quota.Holders.Leaks.{step_loses, lost}

abbrev saturated : QuotaUsage
saturated = record { limit_bytes = 100; reserved_bytes = 18446744073709551615; allocated_bytes = 7 }

used_available_bytes_example :
    (used_bytes saturated ≡ min (saturated.reserved_bytes + saturated.allocated_bytes) u64_max)
    × (available_bytes saturated
        ≡ saturated.limit_bytes - (saturated.reserved_bytes + saturated.allocated_bytes))
used_available_bytes_example = used_available_bytes saturated (omega arith)

abbrev sixty : QuotaReservation
sixty = record { has_state = true; memory_bytes = 60 }

abbrev busy : Holders
busy = record {
  ledger = record { limit_bytes = 100; reserved_bytes = 60; allocated_bytes = 30 };
  reservations = sixty ∷ [];
}

busy-IsCovered : IsCovered busy
unfolding held
busy-IsCovered = omega arith

abbrev two_held : Holders
two_held = record {
  ledger = record { limit_bytes = 100; reserved_bytes = 70; allocated_bytes = 30 };
  reservations = sixty ∷ record { has_state = true; memory_bytes = 10 } ∷ [];
}

two_held-IsCovered : IsCovered two_held
unfolding held
two_held-IsCovered = omega arith

abbrev traffic : List Call
traffic =
    reserves 60
    ∷ reserves 50
    ∷ commits 0
    ∷ reserves 40
    ∷ constructs 0
    ∷ assigns true 1 0
    ∷ destroys true 1
    ∷ releases 60
    ∷ []

run-fresh-IsCovered_example : IsCovered (run (fresh 100) traffic)
run-fresh-IsCovered_example = run-fresh-IsCovered 100 traffic (omega arith)

traffic_drains : (run (fresh 100) traffic).ledger ≡ new_ledger 100
unfolding run step try_reserve commit cancel move_construct move_assign new_ledger
    glimmer.Quota.release
traffic_drains = refl

held_settles_example :
    (commit busy.ledger sixty
      ≡ (record busy.ledger { reserved_bytes = 0; allocated_bytes = 90 }, abandon sixty, true))
    × (cancel true busy.ledger sixty ≡ (record busy.ledger { reserved_bytes = 0 }, abandon sixty))
unfolding is_active
held_settles_example = held_settles busy 0 sixty busy-IsCovered refl refl

abbrev assignment : Call
assignment = assigns false 0 1

step_loses_example :
    (step two_held assignment).ledger.reserved_bytes + held two_held.reservations
    ≡ two_held.ledger.reserved_bytes
      + held (step two_held assignment).reservations
      + lost two_held assignment
step_loses_example = step_loses two_held assignment two_held-IsCovered

-- The sixty bytes that the assignment overwrites stay reserved.
sixty_lost : lost two_held assignment ≡ 60
unfolding lost
sixty_lost = refl
