-- ===== src/Base/Bytes.antt =====
-- Numbers as bytes, the most significant byte first and last.
use Prim.Native.Nat.{ℕ, zero, suc, ◌+◌, ◌*◌, ◌/◌, ◌%◌, ◌<◌}
use mathlib.Core.Path.{◌≡◌, refl}
use mathlib.Core.List.{List, [], ◌∷◌}
use native.Mathlib.Omega.{arith}
use genet.Base.Lists.{length}

abbrev pub be_from : ℕ → List ℕ → ℕ
be_from acc [] = acc
be_from acc (b ∷ bs) = be_from (acc * 256 + b) bs

-- The value of bytes in big-endian order.
abbrev pub of_bytes_be : List ℕ → ℕ
of_bytes_be = be_from 0

-- The value of bytes in little-endian order, and the bytes of a value.
abbrev pub of_bytes_le : List ℕ → ℕ
of_bytes_le [] = 0
of_bytes_le (b ∷ bs) = b + 256 * of_bytes_le bs

abbrev pub to_bytes_le : ℕ → ℕ → List ℕ
to_bytes_le zero n = []
to_bytes_le (suc w) n = n % 256 ∷ to_bytes_le w (n / 256)

pub length-to_bytes_le : (w n : ℕ) → length (to_bytes_le w n) ≡ w
length-to_bytes_le zero n = refl
length-to_bytes_le (suc w) n = omega (arith, length-to_bytes_le w (n / 256))

abbrev pub AreBytes : List ℕ → Type 0
AreBytes [] = Unit {0}
AreBytes (b ∷ bs) = (b < 256) × AreBytes bs
