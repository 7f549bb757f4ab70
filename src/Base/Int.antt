-- ===== src/Base/Int.antt =====
-- Signed integers over the native numbers, and their 64-bit two's complement patterns.
use Prim.Native.Nat.{ℕ, ◌-◌, ◌%◌, ◌^◌, ◌<◌}
use mathlib.Core.Path.{◌≡◌}
use native.Mathlib.Omega.{arith}
use genet.Base.Tests.{ltb, if◌then◌else◌}

-- `negsuc n` is -(n + 1).
pub data ℤ : Type 0 where
  pos : ℕ → ℤ
  negsuc : ℕ → ℤ

-- The values of an `i64`.
abbrev pub IsInt64 : ℤ → Type 0
IsInt64 (pos n) = n < 2 ^ 63
IsInt64 (negsuc n) = n < 2 ^ 63

-- `i64 as u64`, the bit pattern, and back.
unfoldable pub to_bits : ℤ → ℕ
to_bits (pos n) = n % 2 ^ 64
to_bits (negsuc n) = 2 ^ 64 - 1 - n % 2 ^ 64

unfoldable pub of_bits : ℕ → ℤ
of_bits n = if ltb n (2 ^ 63) then pos n else negsuc (2 ^ 64 - 1 - n)

pub of_bits-to_bits : (z : ℤ) → IsInt64 z → of_bits (to_bits z) ≡ z
unfolding of_bits to_bits
of_bits-to_bits (pos n) h = ground arith
of_bits-to_bits (negsuc n) h = ground arith

pub to_bits-lt : (z : ℤ) → to_bits z < 2 ^ 64
unfolding to_bits
to_bits-lt (pos n) = omega arith
to_bits-lt (negsuc n) = omega arith
