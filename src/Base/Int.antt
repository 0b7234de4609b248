-- ===== src/Base/Int.antt =====
-- Signed integers over the native numbers, and their w-bit patterns.
use Prim.Native.Nat.{ℕ, ◌-◌, ◌%◌, ◌^◌, ◌<◌}
use mathlib.Core.Path.{◌≡◌}
use native.Mathlib.Omega.{arith}
use mp4ff.Base.Tests.{ltb, if◌then◌else◌}

-- `negsuc n` is -(n + 1).
pub data ℤ : Type 0 where
  pos : ℕ → ℤ
  negsuc : ℕ → ℤ

-- `int16(u)` of a uint16, and `uint16(z)` of an int16.
abbrev pub int16 : ℕ → ℤ
int16 u = if ltb u (2 ^ 15) then pos u else negsuc (2 ^ 16 - 1 - u)

abbrev pub uint16 : ℤ → ℕ
uint16 (pos n) = n % 2 ^ 16
uint16 (negsuc n) = 2 ^ 16 - 1 - n % 2 ^ 16

-- `int32(u)` of a uint32, and `uint32(z)` of an int32.
abbrev pub int32 : ℕ → ℤ
int32 u = if ltb u (2 ^ 31) then pos u else negsuc (2 ^ 32 - 1 - u)

abbrev pub uint32 : ℤ → ℕ
uint32 (pos n) = n % 2 ^ 32
uint32 (negsuc n) = 2 ^ 32 - 1 - n % 2 ^ 32

abbrev pub int64 : ℕ → ℤ
int64 u = if ltb u (2 ^ 63) then pos u else negsuc (2 ^ 64 - 1 - u)

abbrev pub uint64 : ℤ → ℕ
uint64 (pos n) = n % 2 ^ 64
uint64 (negsuc n) = 2 ^ 64 - 1 - n % 2 ^ 64

-- The values of an int16, of an int32 and of an int64.
abbrev pub IsInt16 : ℤ → Type 0
IsInt16 (pos n) = n < 2 ^ 15
IsInt16 (negsuc n) = n < 2 ^ 15

abbrev pub IsInt32 : ℤ → Type 0
IsInt32 (pos n) = n < 2 ^ 31
IsInt32 (negsuc n) = n < 2 ^ 31

abbrev pub IsInt64 : ℤ → Type 0
IsInt64 (pos n) = n < 2 ^ 63
IsInt64 (negsuc n) = n < 2 ^ 63

pub int16-uint16 : (z : ℤ) → IsInt16 z → int16 (uint16 z) ≡ z
int16-uint16 (pos n) h = ground arith
int16-uint16 (negsuc n) h = ground arith

pub uint16-lt : (z : ℤ) → uint16 z < 2 ^ 16
uint16-lt (pos n) = omega arith
uint16-lt (negsuc n) = omega arith

pub int32-uint32 : (z : ℤ) → IsInt32 z → int32 (uint32 z) ≡ z
int32-uint32 (pos n) h = ground arith
int32-uint32 (negsuc n) h = ground arith

pub uint32-lt : (z : ℤ) → uint32 z < 2 ^ 32
uint32-lt (pos n) = omega arith
uint32-lt (negsuc n) = omega arith

pub int64-uint64 : (z : ℤ) → IsInt64 z → int64 (uint64 z) ≡ z
int64-uint64 (pos n) h = ground arith
int64-uint64 (negsuc n) h = ground arith

pub uint64-lt : (z : ℤ) → uint64 z < 2 ^ 64
uint64-lt (pos n) = omega arith
uint64-lt (negsuc n) = omega arith
