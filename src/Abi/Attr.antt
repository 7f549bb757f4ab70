-- ===== src/Abi/Attr.antt =====
-- genet-abi/src/attr.rs: attributes, their ranges, and how a value crosses the C interface. A cast
-- reads nothing of its attribute but the byte range, so it takes that. `Wire` is what `abi_get`
-- leaves in its out-parameters: the tag, the 64 bits of `num`, the bytes at `data`, the error, of
-- which only the description crosses.
pub mod Crossing
use genet.Base.{
  ℕ, ◌+◌, ◌*◌, ◌/◌, ◌%◌, ◌^◌, Bool, true, false, List, [], length, take, Option, none, some,
  if◌then◌else◌, ◌==◌,
}
use genet.Base.Int.{to_bits, of_bits}
use genet.Abi.Result.{Result, Error, ok, err, no_value, blank, describe}
use genet.Abi.Slice.{ByteSlice}
use genet.Abi.Variant.{Variant, nil, bool, int64, uint64, float64, string, big_int, buffer, slice}
use Prim.Native.String.{String}

pub record Range : Type 0 where
  pub start : ℕ
  pub end : ℕ

abbrev pub Cast : Type 0
Cast = Range → ByteSlice → Result Variant

pub record AttrClass : Type 0 where
  pub id : String
  pub typ : String
  pub cast : Option Cast

pub record Attr : Type 0 where
  pub class : AttrClass
  -- In bits.
  pub range : Range
  pub value : Option Variant

-- `AttrBuilder::range` and `AttrBuilder::bit_range`
unfoldable pub byte_range : ℕ → ℕ → Range
byte_range start end = record { start = start * 8; end = end * 8 }

unfoldable pub bit_range : ℕ → ℕ → ℕ → Range
bit_range byte_offset start end = record {
  start = start + byte_offset * 8;
  end = end + byte_offset * 8;
}

-- `AttrClass::range`, in bytes.
unfoldable pub bytes_of : Range → Range
bytes_of r = record { start = r.start / 8; end = (r.end + 7) / 8 }

unfoldable pub is_value : Attr → Bool
is_value attr = elim attr.class.cast [ none ↦ true | some c ↦ false ]

pub data ValueType : Type 0 where
  error_type nil_type bool_type int64_type uint64_type float64_type : ValueType
  string_type buffer_type byte_slice_type : ValueType

pub record Wire : Type 0 where
  pub typ : ValueType
  pub num : ℕ
  pub data_ptr : List ℕ
  pub error : Error

abbrev wire : ValueType → ℕ → List ℕ → Wire
wire typ num bytes = record { typ = typ; num = num; data_ptr = bytes; error = blank }

-- The match of `abi_get` on the value.
unfoldable pub encode : Result Variant → Wire
encode (ok (bool val)) = wire bool_type (if val then 1 else 0) []
encode (ok (int64 val)) = wire int64_type (to_bits val) []
encode (ok (uint64 val)) = wire uint64_type val []
encode (ok (float64 val)) = wire float64_type val []
encode (ok (buffer val)) = wire buffer_type (length val % 2 ^ 64) val
encode (ok (string val)) = wire string_type (length val % 2 ^ 64) val
encode (ok (slice val)) = wire byte_slice_type (length val % 2 ^ 64) val
encode (ok _) = wire nil_type 0 []
encode (err e) = record { typ = error_type; num = 0; data_ptr = []; error = describe e }

-- The value that `abi_get` computes: the cast's, or the one set on the attribute.
unfoldable pub attr_value : Attr → ByteSlice → Result Variant
unfolding bytes_of
attr_value attr bytes = elim attr.class.cast [
  | some cast ↦ cast (bytes_of attr.range) bytes
  | none ↦ elim attr.value [ some val ↦ ok val | none ↦ err no_value ]
]

-- The match of `AttrClass::try_get` on what came back.
abbrev decode_typ : ValueType → Wire → Result Variant
decode_typ error_type w = err w.error
decode_typ bool_type w = ok (bool (w.num == 1))
decode_typ int64_type w = ok (int64 (of_bits w.num))
decode_typ uint64_type w = ok (uint64 w.num)
decode_typ float64_type w = ok (float64 w.num)
decode_typ buffer_type w = ok (buffer (take w.num w.data_ptr))
decode_typ string_type w = ok (string (take w.num w.data_ptr))
decode_typ byte_slice_type w = ok (slice (take w.num w.data_ptr))
decode_typ nil_type w = ok nil

unfoldable pub decode : Wire → Result Variant
decode w = decode_typ w.typ w

-- `Attr::try_get`
unfoldable pub try_get : Attr → ByteSlice → Result Variant
unfolding attr_value encode decode
try_get attr bytes = decode (encode (attr_value attr bytes))
