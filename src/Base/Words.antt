-- ===== src/Base/Words.antt =====
-- Arithmetic of `uint64_t` and `size_t`: every result is taken modulo 2 ^ 64.
use Prim.Native.Nat.{ℕ, ◌+◌, ◌-◌, ◌%◌, ◌^◌, ◌≤◌, ◌<◌}
use mathlib.Core.Path.{◌≡◌}
use native.Mathlib.Omega.{arith}

abbrev pub u64 : ℕ → ℕ
u64 n = n % 2 ^ 64

-- `a - b` for words `a` and `b`
abbrev pub sub64 : ℕ → ℕ → ℕ
sub64 a b = (a + 2 ^ 64 - b) % 2 ^ 64

pub u64_eq : (n : ℕ) → n < 2 ^ 64 → u64 n ≡ n
u64_eq n h = omega arith

pub sub64_eq : (a b : ℕ) → b ≤ a → a < 2 ^ 64 → sub64 a b ≡ a - b
sub64_eq a b h k = omega arith
