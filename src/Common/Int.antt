-- ===== src/Common/Int.antt =====
-- Signed integers over the native numbers, and their two's complement at 32 bits.
use Prim.Native.Nat.{ℕ, ◌-◌, ◌%◌, ◌^◌, ◌<◌}
use mathlib.Core.Path.{◌≡◌}
use native.Mathlib.Omega.{arith}
use addons_terraria_tshock.Common.Tests.{ltb, if◌then◌else◌}

-- `negsuc n` is -(n + 1).
pub data ℤ : Type 0 where
  pos : ℕ → ℤ
  negsuc : ℕ → ℤ

-- A cast to an unsigned 32-bit integer.
abbrev pub to_unsigned : ℤ → ℕ
to_unsigned (pos n) = n % 2 ^ 32
to_unsigned (negsuc n) = 2 ^ 32 - 1 - n % 2 ^ 32

-- A cast from an unsigned to a signed 32-bit integer.
abbrev pub to_signed : ℕ → ℤ
to_signed x = if ltb x (2 ^ 31) then pos x else negsuc (2 ^ 32 - 1 - x)

-- The range of a 32-bit signed integer.
abbrev pub IsInt : ℤ → Type 0
IsInt (pos n) = n < 2 ^ 31
IsInt (negsuc n) = n < 2 ^ 31

pub to_signed-to_unsigned : (z : ℤ) → IsInt z → to_signed (to_unsigned z) ≡ z
to_signed-to_unsigned (pos n) h = ground arith
to_signed-to_unsigned (negsuc n) h = ground arith

pub to_unsigned-to_signed : (x : ℕ) → x < 2 ^ 32 → to_unsigned (to_signed x) ≡ x
to_unsigned-to_signed x h = ground arith

pub to_unsigned-lt : (z : ℤ) → to_unsigned z < 2 ^ 32
to_unsigned-lt (pos n) = omega arith
to_unsigned-lt (negsuc n) = omega arith
