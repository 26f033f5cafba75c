-- ===== src/Prelude/Int.antt =====
-- Signed integers over the native numbers, and Go's conversion to `int32`.
use Prim.Native.Nat.{ℕ, ◌-◌, ◌%◌, ◌^◌, ◌<◌}
use mathlib.Core.Path.{◌≡◌}
use mathlib.Core.Bool.{Bool, false}
use native.Mathlib.Omega.{arith}
use kidle.Prelude.Tests.{ltb, eqb, if◌then◌else◌}

-- `negsuc n` is -(n + 1).
pub data ℤ : Type 0 where
  pos : ℕ → ℤ
  negsuc : ℕ → ℤ

-- `int32(v)`: the value modulo 2^32 that lies between -2^31 and 2^31 - 1.
wrap : ℕ → ℤ
wrap m = if ltb m (2 ^ 31) then pos m else negsuc (2 ^ 32 - m - 1)

unfoldable pub to_int32 : ℤ → ℤ
unfolding wrap
to_int32 (pos n) = wrap (n % 2 ^ 32)
to_int32 (negsuc n) = wrap (2 ^ 32 - 1 - n % 2 ^ 32)

-- The values of Go's `int32`.
abbrev pub IsInt32 : ℤ → Type 0
IsInt32 (pos n) = n < 2 ^ 31
IsInt32 (negsuc n) = n < 2 ^ 31

pub to_int32-IsInt32 : (v : ℤ) → IsInt32 (to_int32 v)
unfolding to_int32
to_int32-IsInt32 (pos n) = ground arith
to_int32-IsInt32 (negsuc n) = ground arith

pub to_int32_of_IsInt32 : (v : ℤ) → IsInt32 v → to_int32 v ≡ v
unfolding to_int32
to_int32_of_IsInt32 (pos n) h = ground arith
to_int32_of_IsInt32 (negsuc n) h = ground arith

-- `v > 0`
abbrev pub is_positive : ℤ → Bool
is_positive (pos n) = ltb 0 n
is_positive (negsuc n) = false

-- `v == 0`
abbrev pub is_zero : ℤ → Bool
is_zero (pos n) = eqb n 0
is_zero (negsuc n) = false
