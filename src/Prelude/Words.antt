-- ===== src/Prelude/Words.antt =====
-- `size_t` arithmetic: 64-bit words with their wrap-around, and the checked operations
-- `__builtin_mul_overflow` and `__builtin_add_overflow`.
use Prim.Native.Nat.{ℕ, ◌+◌, ◌-◌, ◌*◌, ◌%◌, ◌^◌}
use mathlib.Core.Option.{Option, none, some}
use dataflow_scheduler.Prelude.Tests.{ltb, if◌then◌else◌}

abbrev pub size_mod : ℕ
size_mod = 2 ^ 64

abbrev pub add64 : ℕ → ℕ → ℕ
add64 a b = (a + b) % size_mod

-- For words `a` and `b`.
abbrev pub sub64 : ℕ → ℕ → ℕ
sub64 a b = (a + size_mod - b) % size_mod

-- `none` is the overflow.
unfoldable pub mul_overflow : ℕ → ℕ → Option ℕ
mul_overflow a b = if ltb (a * b) size_mod then some (a * b) else none

unfoldable pub add_overflow : ℕ → ℕ → Option ℕ
add_overflow a b = if ltb (a + b) size_mod then some (a + b) else none
