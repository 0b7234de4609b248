-- ===== src/Base/Words.antt =====
-- Fixed-width unsigned words: the big-endian byte order of encoding/binary.
use Prim.Native.Nat.{ℕ, zero, suc, ◌+◌, ◌*◌, ◌/◌, ◌%◌, ◌^◌, ◌<◌}
use mathlib.Core.Path.{◌≡◌, refl, ap}
use mathlib.Core.List.{[], ◌∷◌}
use mathlib.Core.Bool.{Bool}
use native.Mathlib.Omega.{arith}
use mp4ff.Base.Tests.{◌==◌}
use mp4ff.Base.Lists.{Bytes, length}

abbrev pub IsUint8 : ℕ → Type 0
IsUint8 v = v < 2 ^ 8

abbrev pub IsUint16 : ℕ → Type 0
IsUint16 v = v < 2 ^ 16

abbrev pub IsUint24 : ℕ → Type 0
IsUint24 v = v < 2 ^ 24

abbrev pub IsUint32 : ℕ → Type 0
IsUint32 v = v < 2 ^ 32

abbrev pub IsUint64 : ℕ → Type 0
IsUint64 v = v < 2 ^ 64

-- `BigEndian.PutUintN`: the `k` lowest bytes of `v`, highest first.
unfoldable pub be_bytes : ℕ → ℕ → Bytes
be_bytes zero v = []
be_bytes (suc k) v = v / 256 ^ k % 256 ∷ be_bytes k v

-- `BigEndian.UintN`, with what was read before as the accumulator.
abbrev pub be_value : ℕ → Bytes → ℕ
be_value acc [] = acc
be_value acc (b ∷ bs) = be_value (acc * 256 + b) bs

pub length-be_bytes : (k v : ℕ) → length (be_bytes k v) ≡ k
unfolding be_bytes
length-be_bytes zero v = refl
length-be_bytes (suc k) v = ap suc (length-be_bytes k v)

pub be_value-be_bytes1 : (v : ℕ) → IsUint8 v → be_value 0 (be_bytes 1 v) ≡ v
unfolding be_bytes
be_value-be_bytes1 v h = omega arith

pub be_value-be_bytes2 : (v : ℕ) → IsUint16 v → be_value 0 (be_bytes 2 v) ≡ v
unfolding be_bytes
be_value-be_bytes2 v h = omega arith

pub be_value-be_bytes3 : (v : ℕ) → IsUint24 v → be_value 0 (be_bytes 3 v) ≡ v
unfolding be_bytes
be_value-be_bytes3 v h = omega arith

pub be_value-be_bytes4 : (v : ℕ) → IsUint32 v → be_value 0 (be_bytes 4 v) ≡ v
unfolding be_bytes
be_value-be_bytes4 v h = omega arith

pub be_value-be_bytes8 : (v : ℕ) → IsUint64 v → be_value 0 (be_bytes 8 v) ≡ v
unfolding be_bytes
be_value-be_bytes8 v h = omega arith

-- `x & (1 << k) != 0`
abbrev pub has_bit : ℕ → ℕ → Bool
has_bit k x = x / 2 ^ k % 2 == 1
