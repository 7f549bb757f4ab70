-- ===== src/Abi/Variant.antt =====
-- genet-abi/src/variant.rs: attribute values. An `f64` is its bit pattern and a text its bytes in
-- UTF-8. The casts of an `f64` to an integer are arguments.
use genet.Base.{ℕ, ◌-◌, ltb, if◌then◌else◌, ◌%◌, ◌^◌, Bool, true, false, List}
use genet.Base.Int.{ℤ, pos, negsuc, to_bits, of_bits}
use genet.Abi.Result.{Result, ok, err, map_ok, wrong_type}
use genet.Abi.Slice.{ByteSlice}

pub data Variant : Type 0 where
  nil : Variant
  bool : Bool → Variant
  int64 : ℤ → Variant
  uint64 : ℕ → Variant
  float64 : ℕ → Variant
  string : List ℕ → Variant
  big_int : List ℕ → Variant
  buffer : List ℕ → Variant
  slice : ByteSlice → Variant

-- `Value<ByteSlice>` and `Value<Vec<u8>>`
unfoldable pub try_into_slice : Variant → Result ByteSlice
try_into_slice (slice val) = ok val
try_into_slice _ = err wrong_type

unfoldable pub try_into_vec : Variant → Result (List ℕ)
try_into_vec (string val) = ok val
try_into_vec (buffer val) = ok val
try_into_vec (slice val) = ok val
try_into_vec _ = err wrong_type

-- `Value<u64>`, and the narrower unsigned types by truncation.
unfoldable pub try_into_u64 : (ℕ → ℕ) → Variant → Result ℕ
try_into_u64 f64_as_u64 nil = ok 0
try_into_u64 f64_as_u64 (bool true) = ok 1
try_into_u64 f64_as_u64 (bool false) = ok 0
try_into_u64 f64_as_u64 (int64 val) = ok (to_bits val)
try_into_u64 f64_as_u64 (uint64 val) = ok val
try_into_u64 f64_as_u64 (float64 val) = ok (f64_as_u64 val)
try_into_u64 f64_as_u64 _ = err wrong_type

unfoldable pub try_into_u32 : (ℕ → ℕ) → Variant → Result ℕ
try_into_u32 f64_as_u64 v = map_ok (λ n. n % 2 ^ 32) (try_into_u64 f64_as_u64 v)

unfoldable pub try_into_u16 : (ℕ → ℕ) → Variant → Result ℕ
try_into_u16 f64_as_u64 v = map_ok (λ n. n % 2 ^ 16) (try_into_u64 f64_as_u64 v)

unfoldable pub try_into_u8 : (ℕ → ℕ) → Variant → Result ℕ
try_into_u8 f64_as_u64 v = map_ok (λ n. n % 2 ^ 8) (try_into_u64 f64_as_u64 v)

-- `Value<i64>`
unfoldable pub try_into_i64 : (ℕ → ℤ) → Variant → Result ℤ
try_into_i64 f64_as_i64 nil = ok (pos 0)
try_into_i64 f64_as_i64 (bool true) = ok (pos 1)
try_into_i64 f64_as_i64 (bool false) = ok (pos 0)
try_into_i64 f64_as_i64 (int64 val) = ok val
try_into_i64 f64_as_i64 (uint64 val) = ok (of_bits val)
try_into_i64 f64_as_i64 (float64 val) = ok (f64_as_i64 val)
try_into_i64 f64_as_i64 _ = err wrong_type

-- `as i32`, which keeps the low 32 bits of a value, and its bit pattern as a `u32`.
unfoldable pub as_i32 : ℤ → ℤ
as_i32 z =
    let low : ℕ = to_bits z % 2 ^ 32 in
    if ltb low (2 ^ 31) then pos low else negsuc (2 ^ 32 - 1 - low)

unfoldable pub i32_as_u32 : ℤ → ℕ
i32_as_u32 z = to_bits z % 2 ^ 32

-- `Value<i32>`
unfoldable pub try_into_i32 : (ℕ → ℤ) → Variant → Result ℤ
try_into_i32 f64_as_i64 v = map_ok as_i32 (try_into_i64 f64_as_i64 v)

-- `Value<String>`
unfoldable pub try_into_string : Variant → Result (List ℕ)
try_into_string (string val) = ok val
try_into_string _ = err wrong_type

-- `Value<usize>` and `Value<isize>`, of 64 bits.
unfoldable pub try_into_usize : (ℕ → ℕ) → Variant → Result ℕ
try_into_usize f64_as_u64 v = try_into_u64 f64_as_u64 v

unfoldable pub try_into_isize : (ℕ → ℤ) → Variant → Result ℤ
try_into_isize f64_as_i64 v = try_into_i64 f64_as_i64 v

-- `as i16` and `as i8`, which keep the low bits of a value.
unfoldable pub as_i16 : ℤ → ℤ
as_i16 z =
    let low : ℕ = to_bits z % 2 ^ 16 in
    if ltb low (2 ^ 15) then pos low else negsuc (2 ^ 16 - 1 - low)

unfoldable pub as_i8 : ℤ → ℤ
as_i8 z =
    let low : ℕ = to_bits z % 2 ^ 8 in if ltb low (2 ^ 7) then pos low else negsuc (2 ^ 8 - 1 - low)

-- `Value<i16>` and `Value<i8>`
unfoldable pub try_into_i16 : (ℕ → ℤ) → Variant → Result ℤ
try_into_i16 f64_as_i64 v = map_ok as_i16 (try_into_i64 f64_as_i64 v)

unfoldable pub try_into_i8 : (ℕ → ℤ) → Variant → Result ℤ
try_into_i8 f64_as_i64 v = map_ok as_i8 (try_into_i64 f64_as_i64 v)

-- `0f64`, `1f64`, and the casts of integers to an `f64` and of an `f64` to an `f32`.
pub record FloatCasts : Type 0 where
  pub zero_f64 : ℕ
  pub one_f64 : ℕ
  pub i64_as_f64 : ℤ → ℕ
  pub u64_as_f64 : ℕ → ℕ
  pub f64_as_f32 : ℕ → ℕ
  pub f64_from_f32 : ℕ → ℕ

-- `Value<f64>`
unfoldable pub try_into_f64 : FloatCasts → Variant → Result ℕ
try_into_f64 floats nil = ok floats.zero_f64
try_into_f64 floats (bool true) = ok floats.one_f64
try_into_f64 floats (bool false) = ok floats.zero_f64
try_into_f64 floats (int64 val) = ok (floats.i64_as_f64 val)
try_into_f64 floats (uint64 val) = ok (floats.u64_as_f64 val)
try_into_f64 floats (float64 val) = ok val
try_into_f64 floats _ = err wrong_type

-- `Value<f32>`
unfoldable pub try_into_f32 : FloatCasts → Variant → Result ℕ
try_into_f32 floats v = map_ok floats.f64_as_f32 (try_into_f64 floats v)
