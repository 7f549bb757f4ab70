-- ===== src/Sdk/Cast.antt =====
-- genet-sdk/src/cast.rs with genet-abi/src/cast.rs: casts from a byte range to a value. Reading an
-- integer off a cursor is the `byteorder` crate's, an argument with its documented behaviour.
use genet.Base.{
  ℕ, ◌+◌, ◌-◌, ◌≤◌, ◌≡◌, refl, List, length, take, drop, Option, none, some, if◌then◌else◌, leb,
  arith, length-take, length-drop, take-take,
}
use genet.Base.Bytes.{of_bytes_be, of_bytes_le}
use genet.Abi.Result.{Result, ok, err, ok_or, map_ok, ◌>>=◌, unexpected_eof, out_of_bounds}
use genet.Abi.Slice.{ByteSlice, try_get}
use genet.Abi.Variant.{Variant}
use genet.Abi.Attr.{Range}

-- `ReadBytesExt` on a cursor over bytes: the value of the first `w` bytes, or an error where there
-- are fewer.
pub record ByteOrder : Type 0 where
  pub read_be : ℕ → List ℕ → Option ℕ
  pub read_le : ℕ → List ℕ → Option ℕ
  pub read_be_lem :
      (w : ℕ) (bs : List ℕ)
      → read_be w bs ≡ (if leb w (length bs) then some (of_bytes_be (take w bs)) else none)
  pub read_le_lem :
      (w : ℕ) (bs : List ℕ)
      → read_le w bs ≡ (if leb w (length bs) then some (of_bytes_le (take w bs)) else none)

abbrev pub cursor : ByteOrder
cursor = record {
  read_be = λ w bs. if leb w (length bs) then some (of_bytes_be (take w bs)) else none;
  read_le = λ w bs. if leb w (length bs) then some (of_bytes_le (take w bs)) else none;
  read_be_lem = λ w bs. refl;
  read_le_lem = λ w bs. refl;
}

-- `trait Typed`
abbrev pub Typed : Type 0 → Type 0
Typed T = Range → ByteSlice → Result T

-- `Map::map`, and the cast made of a typed cast.
unfoldable pub map_cast : {S T : Type 0} → (S → T) → Typed S → Typed T
map_cast func cast range bytes = map_ok func (cast range bytes)

unfoldable pub byte_slice : Typed ByteSlice
byte_slice range bytes = try_get bytes range.start range.end

-- `AttrClassBuilder::value`
unfoldable pub const_value : Variant → Typed Variant
const_value value range bytes = ok value

module _ (io : ByteOrder) where
  unfoldable pub uint_be : ℕ → Typed ℕ
  uint_be w range bytes = do
    slice ← try_get bytes range.start range.end
    ok_or (io.read_be w slice) unexpected_eof

  unfoldable pub uint_le : ℕ → Typed ℕ
  uint_le w range bytes = do
    slice ← try_get bytes range.start range.end
    ok_or (io.read_le w slice) unexpected_eof

  unfoldable pub uint8 : Typed ℕ
  uint8 = uint_be 1

  unfoldable pub uint16_be : Typed ℕ
  uint16_be = uint_be 2

  unfoldable pub uint32_be : Typed ℕ
  uint32_be = uint_be 4

  unfoldable pub uint64_be : Typed ℕ
  uint64_be = uint_be 8

  unfoldable pub uint16_le : Typed ℕ
  uint16_le = uint_le 2

  unfoldable pub uint32_le : Typed ℕ
  uint32_le = uint_le 4

  unfoldable pub uint64_le : Typed ℕ
  uint64_le = uint_le 8

  -- A field that lies inside the data reads as the value of its first `w` bytes.
  pub uint_be-inside :
      (w start end : ℕ) (bytes : ByteSlice)
      → start + w ≤ end
      → end ≤ length bytes
      → uint_be w (record { start = start; end = end }) bytes
        ≡ ok (of_bytes_be (take w (drop start bytes)))
  unfolding uint_be try_get
  uint_be-inside w start end bytes h k =
      let slice = take (end - start) (drop start bytes) in
      let size : length slice ≡ end - start =
        omega (arith, length-take (end - start) (drop start bytes), length-drop start bytes) in
      ground (
        arith,
        io.read_be_lem w slice,
        size,
        take-take w (end - start) (drop start bytes) (omega arith),
      )

  -- One that reaches past the data is an error.
  pub uint_be-outside :
      (w start end : ℕ) (bytes : ByteSlice)
      → length bytes + 1 ≤ end
      → uint_be w (record { start = start; end = end }) bytes ≡ err out_of_bounds
  unfolding uint_be try_get
  uint_be-outside w start end bytes h = ground arith
