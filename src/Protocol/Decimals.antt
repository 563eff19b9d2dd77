-- ===== src/Protocol/Decimals.antt =====
-- The decimal numbers that the parsers of src/control/task_protocol.cc accept.
use glimmer.Prelude.{
  ℕ, zero, suc, ◌+◌, ◌-◌, ◌*◌, ◌≤◌, ◌≡◌, refl, ◌∙◌, sym, not, ◌&&◌, none, some, [], ◌∷◌, ◌==◌,
  arith, leb, ltb, length, if◌then◌else◌, inl, inr, Bool-cases,
}
use glimmer.Protocol.{Bytes, scan_digits, parse_unsigned_integer, all_bytes}
use glimmer.Protocol.Numbers.{power, is_digit}

-- The number that decimal digits stand for, by the places of the digits.
unfoldable pub value_of : Bytes → ℕ
value_of [] = 0
value_of (c ∷ cs) = (c - 48) * power (length cs) + value_of cs

power_pos : (k : ℕ) → 1 ≤ power k
unfolding power
power_pos zero = omega arith
power_pos (suc k) = omega (arith, power_pos k)

le-mul : (m p : ℕ) → 1 ≤ p → m ≤ m * p
le-mul m zero h = absurd (omega (arith, h))
le-mul m (suc p) h = omega arith

shift_place : (n d p v : ℕ) → (n * 10 + d) * p + v ≡ n * (10 * p) + (d * p + v)
shift_place n d p v = grind arith

-- What the scan makes of the rest of a token, after digits of the value `n`.
scan-value :
    (max : ℕ) (t : Bytes) (n : ℕ)
    → n ≤ max
    → let total = n * power (length t) + value_of t in
      scan_digits max t n ≡ (if all_bytes is_digit t && leb total max then some total else none)
unfolding scan_digits power value_of all_bytes is_digit
scan-value max [] n h = ground arith
scan-value max (c ∷ cs) n h = elim (Bool-cases (leb 48 c && leb c 57)) [
  | inr bad ↦ ground arith
  | inl digit ↦
      let m = n * 10 + (c - 48) in
      let p = power (length cs) in
      let places : n * (10 * p) + ((c - 48) * p + value_of cs) ≡ m * p + value_of cs =
        sym (shift_place n (c - 48) p (value_of cs)) in
      elim (Bool-cases (ltb max m)) [
        | inl big ↦ rw places (ground (arith, le-mul m p (power_pos (length cs))))
        | inr fits ↦ rw places (ground (arith, scan-value max cs m (ground arith)))
      ]
]

-- A token is read as a number exactly when it is not empty, holds digits only, and stands for a
-- number within the bound; and the number that is read is the one that it stands for.
pub parse_unsigned_integer-value :
    (max : ℕ) (token : Bytes)
    → parse_unsigned_integer max token ≡ (
        if not (length token == 0) && all_bytes is_digit token && leb (value_of token) max
        then some (value_of token)
        else none)
unfolding parse_unsigned_integer
parse_unsigned_integer-value max [] = refl
parse_unsigned_integer-value max (c ∷ cs) = scan-value max (c ∷ cs) 0 (omega arith) ∙ ground arith
