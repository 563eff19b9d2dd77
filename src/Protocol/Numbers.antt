-- ===== src/Protocol/Numbers.antt =====
-- The decimal numbers of the task protocol (src/control/task_protocol.cc).
use glimmer.Prelude.{
  ℕ, zero, suc, ◌+◌, ◌-◌, ◌*◌, ◌/◌, ◌%◌, ◌≤◌, ◌<◌, ◌≡◌, refl, ◌∙◌, Bool, true, false, ◌&&◌, some,
  [], ◌∷◌, ◌==◌, arith, u64_max, leb, inl, inr, Bool-cases,
}
use glimmer.Protocol.{
  Bytes, scan_digits, parse_unsigned_integer, parse_positive_integer, if_positive, digits,
  to_string, to_string_within, all_bytes,
}

-- 10 to the power `k`
unfoldable pub power : ℕ → ℕ
power zero = 1
power (suc k) = 10 * power k

scan-digit :
    (max n : ℕ) (out : Bytes)
    → n ≤ max
    → scan_digits max ((48 + n % 10) ∷ out) (n / 10) ≡ scan_digits max out n
unfolding scan_digits
scan-digit max n out h =
    let low : (48 + n % 10) - 48 ≡ n % 10 = omega arith in
    let whole : n / 10 * 10 + ((48 + n % 10) - 48) ≡ n = omega arith in rw whole (ground arith)

scan-digits :
    (k max n : ℕ) (out : Bytes)
    → n < power k
    → n ≤ max
    → scan_digits max (digits k n out) 0 ≡ scan_digits max out n
unfolding power digits
scan-digits zero max n out h m = ground arith
scan-digits (suc k) max n out h m = elim (Bool-cases (n == 0)) [
  | inl z ↦ ground arith
  | inr z ↦ rw z (
      scan-digits k max (n / 10) ((48 + n % 10) ∷ out) (omega (arith, h)) (omega (arith, m))
      ∙ scan-digit max n out m)
]

digits-nonempty :
    (k n c : ℕ) (out : Bytes) → (x : ℕ) × (xs : Bytes) × (digits k n (c ∷ out) ≡ x ∷ xs)
unfolding digits
digits-nonempty zero n c out = (c, out, refl)
digits-nonempty (suc k) n c out = elim (Bool-cases (n == 0)) [
  | inl z ↦ rw z (c, out, refl)
  | inr z ↦ rw z (digits-nonempty k (n / 10) (48 + n % 10) (c ∷ out))
]

-- A digit.
unfoldable pub is_digit : ℕ → Bool
is_digit c = leb 48 c && leb c 57

all-digits :
    (k n : ℕ) (out : Bytes)
    → all_bytes is_digit out ≡ true
    → all_bytes is_digit (digits k n out) ≡ true
unfolding digits all_bytes is_digit
all-digits zero n out h = h
all-digits (suc k) n out h = elim (Bool-cases (n == 0)) [
  | inl z ↦ rw z h
  | inr z ↦ rw z (all-digits k (n / 10) ((48 + n % 10) ∷ out) (ground (arith, h)))
]

to_string_within-shape :
    (k n : ℕ)
    → (x : ℕ) × (xs : Bytes) × (to_string_within (suc k) n ≡ x ∷ xs)
      × (all_bytes is_digit (to_string_within (suc k) n) ≡ true)
unfolding to_string_within all_bytes is_digit digits
to_string_within-shape k n = elim (Bool-cases (n == 0)) [
  | inl z ↦ rw z (48, [], refl, refl)
  | inr z ↦
      let (x, xs, e) = digits-nonempty k (n / 10) (48 + n % 10) [] in
      rw z (x, xs, e, all-digits k (n / 10) ((48 + n % 10) ∷ []) (ground arith))
]

pub to_string-shape :
    (n : ℕ)
    → (x : ℕ) × (xs : Bytes) × (to_string n ≡ x ∷ xs) × (all_bytes is_digit (to_string n) ≡ true)
to_string-shape n = unfold to_string in to_string_within-shape 19 n

parse-scan :
    (max n : ℕ) (t : Bytes)
    → (x : ℕ) × (xs : Bytes) × (t ≡ x ∷ xs)
    → parse_unsigned_integer max t ≡ scan_digits max t 0
unfolding parse_unsigned_integer
parse-scan max n t (x, xs, e) = rw e refl

scan-to_string_within :
    (k max n : ℕ) → n < power k → n ≤ max → scan_digits max (to_string_within k n) 0 ≡ some n
unfolding to_string_within
scan-to_string_within k max n h m = elim (Bool-cases (n == 0)) [
  | inl z ↦ rw z (unfold scan_digits in ground arith)
  | inr z ↦ rw z (scan-digits k max n [] h m ∙ unfold scan_digits in refl)
]

below_power : (n : ℕ) → n ≤ u64_max → n < power 20
unfolding power
below_power n h = omega (arith, h)

-- Let a number fit 64 bits and be at most the reader's bound. Its decimal text is read back as that
-- number: twenty divisions are enough for its digits, and the test for overflow does not refuse it.
pub parse_unsigned_integer-to_string :
    (max n : ℕ) → n ≤ u64_max → n ≤ max → parse_unsigned_integer max (to_string n) ≡ some n
parse_unsigned_integer-to_string max n h m =
    let (x, xs, e, d) = to_string-shape n in
    parse-scan max n (to_string n) (x, xs, e)
    ∙ unfold to_string in scan-to_string_within 20 max n (below_power n h) m

pub parse_positive_integer-to_string :
    (max n : ℕ)
    → n ≤ u64_max
    → n ≤ max
    → (n == 0) ≡ false
    → parse_positive_integer max (to_string n) ≡ some n
unfolding parse_positive_integer if_positive
parse_positive_integer-to_string max n h m z =
    rw (parse_unsigned_integer-to_string max n h m) (ground arith)
