-- ===== src/Tests/Signed.antt =====
-- A signed field of two bytes.
use genet.Base.{ℕ, ◌≡◌, refl, [], ◌∷◌, false, none, some, arith}
use genet.Base.Int.{ℤ, pos, negsuc}
use genet.Abi.Result.{ok, ◌>>=◌}
use genet.Abi.Slice.{ByteSlice}
use genet.Abi.Variant.{try_into_i64, as_i8}
use genet.Base.Int.{to_bits}
use genet.Sdk.Cast.{cursor}
use genet.Sdk.Signed.{SignedOrder, signed, int_cast, into_int64, half, int_cast-unsigned}

abbrev as_i64 : ℕ → ℤ
as_i64 n = pos n

abbrev signs : SignedOrder cursor
signs = record {
  read_int_be = λ w bs. elim (cursor.read_be w bs) [ none ↦ none | some n ↦ some (signed w n) ];
  read_int_le = λ w bs. elim (cursor.read_le w bs) [ none ↦ none | some n ↦ some (signed w n) ];
  read_int_be_lem = λ w bs. refl;
  read_int_le_lem = λ w bs. refl;
}

-- -2 in big-endian order, behind one other byte.
abbrev field : ByteSlice
field = 9 ∷ 255 ∷ 254 ∷ []

int_cast-unsigned_example :
    (into_int64 (int_cast cursor signs false 2) (record { start = 1; end = 3 }) field
      >>= try_into_i64 as_i64)
    ≡ ok (negsuc 1)
unfolding half
int_cast-unsigned_example =
    int_cast-unsigned cursor 2 1 3 field signs as_i64 false (negsuc 1) (omega arith) (omega arith)
      (omega arith) (omega arith) refl

low_bits : as_i8 (pos 511) ≡ negsuc 0
unfolding as_i8 to_bits
low_bits = refl
