-- ===== src/Prelude/Words.antt =====
-- Machine words. A value is a plain number; an operation that can wrap says so by `%`.
use Prim.Native.Nat.{ℕ, ◌-◌, ◌+◌, ◌*◌, ◌%◌}

abbrev pub u64_max : ℕ
u64_max = 18446744073709551615

abbrev pub u32_max : ℕ
u32_max = 4294967295

-- `uint64_t` addition, which wraps.
abbrev pub add64 : ℕ → ℕ → ℕ
add64 a b = (a + b) % 18446744073709551616

-- `uint64_t` subtraction, which wraps.
abbrev pub sub64 : ℕ → ℕ → ℕ
sub64 a b = (a + 18446744073709551616 - b) % 18446744073709551616

-- `uint64_t` multiplication, which wraps.
abbrev pub mul64 : ℕ → ℕ → ℕ
mul64 a b = (a * b) % 18446744073709551616
