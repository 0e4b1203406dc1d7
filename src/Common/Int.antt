-- ===== src/Common/Int.antt =====
-- Signed integers over the native numbers, with the conversions that C makes between its types.
use Prim.Native.Nat.{ℕ, zero, suc, ◌-◌, ◌%◌, ◌<◌}
use mathlib.Core.Path.{◌≡◌}
use mathlib.Core.Bool.{Bool, true, false}
use native.Mathlib.Omega.{arith}
use pacemaker_cloud.Common.Tests.{ltb, ◌==◌, if◌then◌else◌}

-- `negsuc n` is -(n + 1).
pub data ℤ : Type 0 where
  pos : ℕ → ℤ
  negsuc : ℕ → ℤ

abbrev pub minus_one : ℤ
minus_one = negsuc 0

abbrev pub u32_mod : ℕ
u32_mod = 4294967296

-- `(uint32_t) z`.
abbrev pub to_u32 : ℤ → ℕ
to_u32 (pos n) = n % u32_mod
to_u32 (negsuc n) = u32_mod - 1 - n % u32_mod

-- A bit pattern read as a 32-bit `int`.
abbrev pub of_u32 : ℕ → ℤ
of_u32 m = if ltb m 2147483648 then pos m else negsuc (u32_mod - 1 - m)

-- `(int) z` for a `long` z.
abbrev pub to_i32 : ℤ → ℤ
to_i32 z = of_u32 (to_u32 z)

abbrev pub is_pos : ℤ → Bool
is_pos (pos zero) = false
is_pos (pos (suc n)) = true
is_pos (negsuc n) = false

abbrev pub eq_ℤ : ℤ → ℤ → Bool
eq_ℤ (pos a) (pos b) = a == b
eq_ℤ (negsuc a) (negsuc b) = a == b
eq_ℤ (pos a) (negsuc b) = false
eq_ℤ (negsuc a) (pos b) = false

abbrev pub is_zero : ℤ → Bool
is_zero z = eq_ℤ z (pos 0)

pub to_i32_small : (n : ℕ) → n < 2147483648 → to_i32 (pos n) ≡ pos n
to_i32_small n h = ground arith
