-- ===== src/Quota/Holders.antt =====
-- A ledger of src/core/quota_ledger.cc together with the reservations that callers hold, under
-- every sequence of calls.
pub mod Safety
pub mod Leaks
use glimmer.Prelude.{
  ℕ, zero, suc, ◌+◌, ◌≤◌, ◌≡◌, refl, ap, ◌∙◌, ◌⊎◌, inl, inr, Bool, true, false, Option, none, some,
  List, [], ◌∷◌, arith, if◌then◌else◌, get_elem?, set, ◌==◌, ◌≢◌, Option-cases, u64_max,
}
use glimmer.Quota.{
  QuotaLedgerState, QuotaReservation, new_ledger, try_reserve, release, commit, cancel, abandon,
  move_construct, move_assign, is_active,
}
use glimmer.Quota.Bounds.{IsWithinLimit, try_reserve_cases, release_cases}

pub record Holders : Type 0 where
  pub ledger : QuotaLedgerState
  pub reservations : List QuotaReservation

-- A call on the ledger or on a held reservation, named by its place. `constructs` is the move
-- constructor, `assigns` the move assignment from the second place to the first, and `destroys` the
-- destructor. The Boolean of a call that cancels tells whether the lock can be taken.
pub data Call : Type 0 where
  reserves : ℕ → Call
  commits : ℕ → Call
  cancels : Bool → ℕ → Call
  abandons : ℕ → Call
  constructs : ℕ → Call
  assigns : Bool → ℕ → ℕ → Call
  destroys : Bool → ℕ → Call
  releases : ℕ → Call

pub remove_at : List QuotaReservation → ℕ → List QuotaReservation
remove_at [] i = []
remove_at (x ∷ xs) zero = xs
remove_at (x ∷ xs) (suc i) = x ∷ remove_at xs i

pub keep_new : List QuotaReservation → Option QuotaReservation → List QuotaReservation
keep_new rs none = rs
keep_new rs (some r) = r ∷ rs

pub commit_at : Holders → ℕ → Option QuotaReservation → Holders
commit_at h i none = h
commit_at h i (some r) =
    let (s, r', done) = commit h.ledger r in
    record { ledger = s; reservations = set h.reservations i r' }

pub cancel_at : Bool → Holders → ℕ → Option QuotaReservation → Holders
cancel_at locked h i none = h
cancel_at locked h i (some r) =
    let (s, r') = cancel locked h.ledger r in
    record { ledger = s; reservations = set h.reservations i r' }

pub abandon_at : Holders → ℕ → Option QuotaReservation → Holders
abandon_at h i none = h
abandon_at h i (some r) = record h { reservations = set h.reservations i (abandon r) }

-- A reservation that is moved out of its place into a new object.
pub construct_at : Holders → ℕ → Option QuotaReservation → Holders
construct_at h i none = h
construct_at h i (some r) =
    let (taken, left) = move_construct r in
    record h { reservations = taken ∷ set h.reservations i left }

-- The assignment of a reservation to itself does nothing.
pub assign_at : Bool → Holders → ℕ → ℕ → Option QuotaReservation → Option QuotaReservation → Holders
assign_at locked h i j none other = h
assign_at locked h i j (some target) none = h
assign_at locked h i j (some target) (some other) =
    let (s, taken, left) = move_assign locked h.ledger target other in
    if i == j
    then h
    else record { ledger = s; reservations = set (set h.reservations i taken) j left }

-- The destructor cancels, and the object is gone whatever comes of that.
pub destroy_at : Bool → Holders → ℕ → Option QuotaReservation → Holders
destroy_at locked h i none = h
destroy_at locked h i (some r) =
    let (s, ended) = cancel locked h.ledger r in
    record { ledger = s; reservations = remove_at h.reservations i }

unfoldable pub step : Holders → Call → Holders
unfolding keep_new commit_at cancel_at abandon_at construct_at assign_at destroy_at
step h (reserves bytes) =
    let (s, r) = try_reserve h.ledger bytes in
    record { ledger = s; reservations = keep_new h.reservations r }
step h (commits i) = commit_at h i (get_elem? h.reservations i)
step h (cancels locked i) = cancel_at locked h i (get_elem? h.reservations i)
step h (abandons i) = abandon_at h i (get_elem? h.reservations i)
step h (constructs i) = construct_at h i (get_elem? h.reservations i)
step h (assigns locked i j) =
    assign_at locked h i j (get_elem? h.reservations i) (get_elem? h.reservations j)
step h (destroys locked i) = destroy_at locked h i (get_elem? h.reservations i)
step h (releases bytes) = record h { ledger = (release h.ledger bytes).0 }

unfoldable pub run : Holders → List Call → Holders
run h [] = h
run h (c ∷ cs) = run (step h c) cs

-- The bytes that a reservation stands for, and those of all that callers hold.
abbrev pub weight : QuotaReservation → ℕ
weight r = if r.has_state then r.memory_bytes else 0

unfoldable pub held : List QuotaReservation → ℕ
held [] = 0
held (r ∷ rs) = weight r + held rs

pub record IsCovered (h : Holders) : Type 0 where
  pub within : IsWithinLimit h.ledger
  pub covered : held h.reservations ≤ h.ledger.reserved_bytes

pub held-set :
    (rs : List QuotaReservation) (i : ℕ) (r r' : QuotaReservation)
    → get_elem? rs i ≡ some r
    → held (set rs i r') + weight r ≡ held rs + weight r'
unfolding held
held-set [] i r r' e = ground arith
held-set (x ∷ rs) zero r r' e = ground arith
held-set (x ∷ rs) (suc i) r r' e = ground (arith, held-set rs i r r' e)

pub weight-le-held :
    (rs : List QuotaReservation) (i : ℕ) (r : QuotaReservation)
    → get_elem? rs i ≡ some r
    → weight r ≤ held rs
unfolding held
weight-le-held [] i r e = ground arith
weight-le-held (x ∷ rs) zero r e = ground arith
weight-le-held (x ∷ rs) (suc i) r e = ground (arith, weight-le-held rs i r e)

pub held-remove_at :
    (rs : List QuotaReservation) (i : ℕ) (r : QuotaReservation)
    → get_elem? rs i ≡ some r
    → held (remove_at rs i) + weight r ≡ held rs
unfolding held remove_at
held-remove_at [] i r e = ground arith
held-remove_at (x ∷ rs) zero r e = ground arith
held-remove_at (x ∷ rs) (suc i) r e = ground (arith, held-remove_at rs i r e)

get_elem?-set_other :
    (rs : List QuotaReservation) (i j : ℕ) (x : QuotaReservation)
    → i ≢ j
    → get_elem? (set rs i x) j ≡ get_elem? rs j
get_elem?-set_other [] i j x d = refl
get_elem?-set_other (y ∷ rs) zero zero x d = absurd (d refl)
get_elem?-set_other (y ∷ rs) zero (suc j) x d = refl
get_elem?-set_other (y ∷ rs) (suc i) zero x d = refl
get_elem?-set_other (y ∷ rs) (suc i) (suc j) x d = get_elem?-set_other rs i j x (λ e. d (ap suc e))

-- What two places hold once the reservation of the second is moved into the first.
pub held-moved :
    (rs : List QuotaReservation) (i j : ℕ) (target other left : QuotaReservation)
    → i ≢ j
    → get_elem? rs i ≡ some target
    → get_elem? rs j ≡ some other
    → weight left ≡ 0
    → held (set (set rs i other) j left) + weight target ≡ held rs
held-moved rs i j target other left d e f z = omega (
  arith,
  z,
  held-set rs i target other e,
  held-set (set rs i other) j other left (get_elem?-set_other rs i j other d ∙ f),
)
