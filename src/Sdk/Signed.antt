-- ===== src/Sdk/Signed.antt =====
-- genet-sdk/src/cast.rs: the casts to signed and floating-point numbers and to texts, and how their
-- values become variants (genet-abi/src/variant.rs, genet-abi/src/cast.rs). `byteorder` reads a
-- signed number as the unsigned one of the same bytes, and a float as its bit pattern.
use native.Mathlib.Nat.{pow-succ'}
use genet.Base.{
  ℕ, zero, suc, ◌+◌, ◌-◌, ◌*◌, ◌^◌, ◌≤◌, ◌<◌, ◌≡◌, refl, ap, ◌∙◌, List, Option, none, some, length,
  take, drop, ltb, if◌then◌else◌, arith, inl, inr, Option-cases, Bool, true, false, length-take,
  length-drop, take-take,
}
use genet.Base.Bytes.{of_bytes_be, of_bytes_le}
use genet.Base.Int.{ℤ, pos, negsuc}
use genet.Abi.Attr.{Range}
use genet.Abi.Result.{ok_or, unexpected_eof, ok, err, map_ok, ◌>>=◌, invalid_utf8, Result-cases}
use genet.Abi.Slice.{ByteSlice, try_get}
use genet.Abi.Variant.{FloatCasts, Variant, int64, float64, string, try_into_i64}
use genet.Sdk.Cast.{ByteOrder, Typed, map_cast, byte_slice, uint_be, uint_le, uint_be-inside}

-- Half of the numbers of `w` bytes.
unfoldable pub half : ℕ → ℕ
half zero = 0
half (suc w) = 128 * 256 ^ w

-- `as i8`, `as i16`, `as i32` and `as i64` of a number of as many bits, and back.
unfoldable pub signed : ℕ → ℕ → ℤ
signed w n = if ltb n (half w) then pos n else negsuc (256 ^ w - 1 - n)

abbrev pub unsigned : ℕ → ℤ → ℕ
unsigned w (pos n) = n
unsigned w (negsuc n) = 256 ^ w - 1 - n

-- `read_i8` and so on of `ReadBytesExt`: the number of which the first `w` bytes are the two's
-- complement.
pub record SignedOrder (io : ByteOrder) : Type 0 where
  pub read_int_be : ℕ → List ℕ → Option ℤ
  pub read_int_le : ℕ → List ℕ → Option ℤ
  pub read_int_be_lem :
      (w : ℕ) (bs : List ℕ)
      → read_int_be w bs ≡ elim (io.read_be w bs) [ none ↦ none | some n ↦ some (signed w n) ]
  pub read_int_le_lem :
      (w : ℕ) (bs : List ℕ)
      → read_int_le w bs ≡ elim (io.read_le w bs) [ none ↦ none | some n ↦ some (signed w n) ]

module _ (io : ByteOrder) (signs : SignedOrder io) where
  unfoldable pub int_be : ℕ → Typed ℤ
  int_be w range bytes = do
    slice ← try_get bytes range.start range.end
    ok_or (signs.read_int_be w slice) unexpected_eof

  unfoldable pub int_le : ℕ → Typed ℤ
  int_le w range bytes = do
    slice ← try_get bytes range.start range.end
    ok_or (signs.read_int_le w slice) unexpected_eof

  abbrev pub int_cast : Bool → ℕ → Typed ℤ
  int_cast le w = if le then int_le w else int_be w

  abbrev pub int8 : Typed ℤ
  int8 = int_be 1

  abbrev pub int16_be : Typed ℤ
  int16_be = int_be 2

  abbrev pub int32_be : Typed ℤ
  int32_be = int_be 4

  abbrev pub int64_be : Typed ℤ
  int64_be = int_be 8

  abbrev pub int16_le : Typed ℤ
  int16_le = int_le 2

  abbrev pub int32_le : Typed ℤ
  int32_le = int_le 4

  abbrev pub int64_le : Typed ℤ
  int64_le = int_le 8

module _ (io : ByteOrder) where
  abbrev pub float32_be : Typed ℕ
  float32_be = uint_be io 4

  abbrev pub float64_be : Typed ℕ
  float64_be = uint_be io 8

  abbrev pub float32_le : Typed ℕ
  float32_le = uint_le io 4

  abbrev pub float64_le : Typed ℕ
  float64_le = uint_le io 8

-- `Utf8`, with the test of `String::from_utf8` an argument
unfoldable pub utf8 : (List ℕ → Option (List ℕ)) → Typed (List ℕ)
utf8 from_utf8 range bytes = elim (byte_slice range bytes) [
  | err e ↦ err e
  | ok slice ↦ elim (from_utf8 slice) [ some text ↦ ok text | none ↦ err invalid_utf8 ]
]

-- The variants of the signed integers, of the floats and of a text.
abbrev pub into_int64 : Typed ℤ → Typed Variant
into_int64 = map_cast int64

abbrev pub into_float32 : FloatCasts → Typed ℕ → Typed Variant
into_float32 floats = map_cast λ v. float64 (floats.f64_from_f32 v)

abbrev pub into_float64 : Typed ℕ → Typed Variant
into_float64 = map_cast float64

abbrev pub into_string : Typed (List ℕ) → Typed Variant
into_string = map_cast string

-- The values of a signed integer of `w` bytes.
abbrev pub IsInt : ℕ → ℤ → Type 0
IsInt w (pos n) = n < half w
IsInt w (negsuc n) = n < half w

twice_half : (w : ℕ) → 0 < w → 256 ^ w ≡ half w + half w
unfolding half
twice_half zero h = absurd (omega arith)
twice_half (suc w) h = omega (arith, pow-succ' 256 w)

signed-unsigned : (w : ℕ) (z : ℤ) → 0 < w → IsInt w z → signed w (unsigned w z) ≡ z
unfolding signed
signed-unsigned w (pos n) p h = ground arith
signed-unsigned w (negsuc n) p h =
    let e = twice_half w p in
    let high : ltb (256 ^ w - 1 - n) (half w) ≡ false = ground (arith, e) in
    rw high (ap negsuc (omega (arith, e)))

-- The number that bytes stand for, in little-endian order or not.
abbrev pub value_of : Bool → List ℕ → ℕ
value_of true bs = of_bytes_le bs
value_of false bs = of_bytes_be bs

module _ (io : ByteOrder) (signs : SignedOrder io) (w : ℕ) (range : Range) (bytes : ByteSlice) where
  int_be-uint_be : int_be io signs w range bytes ≡ map_ok (signed w) (uint_be io w range bytes)
  unfolding int_be uint_be
  int_be-uint_be = elim (Result-cases (try_get bytes range.start range.end)) [
    | inr (e, f) ↦ rw f refl
    | inl (slice, f) ↦ rw f (elim (Option-cases (io.read_be w slice)) [
      | inl n ↦ rw (signs.read_int_be_lem w slice, n) refl
      | inr (v, n) ↦ rw (signs.read_int_be_lem w slice, n) refl
    ])
  ]

  int_le-uint_le : int_le io signs w range bytes ≡ map_ok (signed w) (uint_le io w range bytes)
  unfolding int_le uint_le
  int_le-uint_le = elim (Result-cases (try_get bytes range.start range.end)) [
    | inr (e, f) ↦ rw f refl
    | inl (slice, f) ↦ rw f (elim (Option-cases (io.read_le w slice)) [
      | inl n ↦ rw (signs.read_int_le_lem w slice, n) refl
      | inr (v, n) ↦ rw (signs.read_int_le_lem w slice, n) refl
    ])
  ]

module _ (io : ByteOrder) (w start end : ℕ) (bytes : ByteSlice) where
  -- A field inside the data, of whose first `w` bytes the value is known.
  uint_le-inside :
      start + w ≤ end
      → end ≤ length bytes
      → uint_le io w (record { start = start; end = end }) bytes
        ≡ ok (of_bytes_le (take w (drop start bytes)))
  unfolding uint_le try_get
  uint_le-inside h k =
      let slice = take (end - start) (drop start bytes) in
      let size : length slice ≡ end - start =
        omega (arith, length-take (end - start) (drop start bytes), length-drop start bytes) in
      ground (
        arith,
        io.read_le_lem w slice,
        size,
        take-take w (end - start) (drop start bytes) (omega arith),
      )

  -- A signed cast reads the number of which a field's first bytes are the two's complement, in
  -- either order of the bytes, and its variant converts to that number. The field lies inside the
  -- data and has at least one byte, and the number fits it.
  pub int_cast-unsigned :
      (signs : SignedOrder io) (f64_as_i64 : ℕ → ℤ) (le : Bool) (z : ℤ)
      → 0 < w
      → start + w ≤ end
      → end ≤ length bytes
      → IsInt w z
      → value_of le (take w (drop start bytes)) ≡ unsigned w z
      → (into_int64 (int_cast io signs le w) (record { start = start; end = end }) bytes
          >>= try_into_i64 f64_as_i64)
        ≡ ok z
  unfolding map_cast try_into_i64
  int_cast-unsigned signs f64_as_i64 true z p h k fits e =
      let field : Range = record { start = start; end = end } in
      let read =
        int_le-uint_le io signs w field bytes ∙ ap (map_ok (signed w)) (uint_le-inside h k) in
      rw read (ap ok (ap (signed w) e ∙ signed-unsigned w z p fits))
  int_cast-unsigned signs f64_as_i64 false z p h k fits e =
      let field : Range = record { start = start; end = end } in
      let read =
        int_be-uint_be io signs w field bytes
        ∙ ap (map_ok (signed w)) (uint_be-inside io w start end bytes h k) in
      rw read (ap ok (ap (signed w) e ∙ signed-unsigned w z p fits))
