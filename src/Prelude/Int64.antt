-- ===== src/Prelude/Int64.antt =====
-- Go's int and int64 as 64-bit patterns: numbers below 2 ^ 64, the negative ones from 2 ^ 63 on.
use Prim.Native.Nat.{ℕ, ◌+◌, ◌-◌, ◌%◌, ◌^◌}
use mathlib.Core.Bool.{Bool, ◌&&◌}
use pico.Prelude.Tests.{ltb}

abbrev pub add_int64 : ℕ → ℕ → ℕ
add_int64 a b = (a + b) % 2 ^ 64

abbrev pub sub_int64 : ℕ → ℕ → ℕ
sub_int64 a b = (a + 2 ^ 64 - b) % 2 ^ 64

-- `n < a`, for a number `n` that is not negative.
abbrev pub exceeds_int64 : ℕ → ℕ → Bool
exceeds_int64 a n = ltb n a && ltb a (2 ^ 63)

abbrev pub is_positive : ℕ → Bool
is_positive a = exceeds_int64 a 0
