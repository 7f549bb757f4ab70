-- ===== src/Packages/GenetFile.antt =====
-- package/genet-file/format/src/lib.rs: what a genet file holds, and the crate `bincode` that turns
-- it into bytes.
pub mod Writer
pub mod Reader
pub mod Tables
pub mod Represents
pub mod Entered
pub mod Ended
pub mod Reading
pub mod Copies
use Prim.Native.String.{String}
use genet.Base.{ℕ, ◌^◌, ◌<◌, ◌≡◌, List, Bool}
use genet.Base.Bytes.{to_bytes_le}
use genet.Base.Int.{ℤ}
use genet.Abi.Result.{Result, ok}
use genet.Abi.Slice.{ByteSlice}
use genet.Abi.Variant.{Variant}

-- `Value`
pub data Value : Type 0 where
  nil : Value
  bool : Bool → Value
  int64 : ℤ → Value
  uint64 : ℕ → Value
  float64 : ℕ → Value
  string : List ℕ → Value
  buffer : List ℕ → Value

-- `From<Variant>` and `Into<Variant>`
unfoldable pub from_variant : Variant → Value
from_variant (Variant.bool x) = bool x
from_variant (Variant.int64 x) = int64 x
from_variant (Variant.uint64 x) = uint64 x
from_variant (Variant.float64 x) = float64 x
from_variant (Variant.string x) = string x
from_variant (Variant.buffer x) = buffer x
from_variant _ = nil

unfoldable pub into_variant : Value → Variant
into_variant (bool x) = Variant.bool x
into_variant (int64 x) = Variant.int64 x
into_variant (uint64 x) = Variant.uint64 x
into_variant (float64 x) = Variant.float64 x
into_variant (string x) = Variant.string x
into_variant (buffer x) = Variant.buffer x
into_variant nil = Variant.nil

-- Positions in the table of tokens.
pub record AttrClass : Type 0 where
  pub id : ℕ
  pub typ : ℕ

-- A position in the table of classes, and a value.
pub record Attr : Type 0 where
  pub index : ℕ
  pub value : Value

pub record Header : Type 0 where
  pub tokens : List String
  pub attrs : List AttrClass
  pub entries : ℕ

pub record Frame : Type 0 where
  pub id : ℕ
  pub len : ℕ
  pub attrs : List Attr

pub record Entry : Type 0 where
  pub frame : Frame
  pub bytes : ByteSlice

-- `bincode::serialize`, `deserialize` and `serialized_size`: what is serialized is read back, and a
-- `usize` is 8 bytes.
pub record Bincode : Type 0 where
  pub serialize_header : Header → Result (List ℕ)
  pub deserialize_header : List ℕ → Result Header
  pub serialize_frame : Frame → Result (List ℕ)
  pub deserialize_frame : List ℕ → Result Frame
  pub serialize_usize : ℕ → Result (List ℕ)
  pub deserialize_usize : List ℕ → Result ℕ
  pub usize_size : Result ℕ
  pub serialize_usize_lem : (n : ℕ) → n < 2 ^ 64 → serialize_usize n ≡ ok (to_bytes_le 8 n)
  pub deserialize_usize_lem : (n : ℕ) → n < 2 ^ 64 → deserialize_usize (to_bytes_le 8 n) ≡ ok n
  pub usize_size_lem : usize_size ≡ ok 8
  pub deserialize-serialize_header :
      (h : Header) (bin : List ℕ) → serialize_header h ≡ ok bin → deserialize_header bin ≡ ok h
  pub deserialize-serialize_frame :
      (f : Frame) (bin : List ℕ) → serialize_frame f ≡ ok bin → deserialize_frame bin ≡ ok f
