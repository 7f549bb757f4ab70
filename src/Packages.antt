-- ===== src/Packages.antt =====
-- The decoders of package/: what they share, and one module for each.

pub mod Reading
pub mod Chain
pub mod Tcp
pub mod TcpStream
pub mod Udp
pub mod Ipv4
pub mod Ipv6
pub mod Eth
pub mod Arp
pub mod Ntp
pub mod PcapFile
pub mod GenetFile
use Prim.Native.Nat.{bit_and}
use Prim.Native.String.{String}
use genet.Base.{ℕ, List, [], ◌∷◌, Bool, true, not, Option, none, some, ◌==◌}
use genet.Abi.Result.{Result, ok, err}
use genet.Abi.Variant.{Variant, bool, uint64, slice}
use genet.Abi.Attr.{AttrClass, Attr, byte_range, bit_range}
use genet.Abi.Layer.{Layer, Parent, Payload, add_child, find_payload}
use genet.Sdk.Cast.{Typed, map_cast, const_value}

-- `enum Status`
pub data Status : Type 0 where
  done skip : Status

-- `attr_class!(id, typ: typ, cast: cast)`
abbrev pub attr_class : String → String → Typed Variant → AttrClass
attr_class id typ cast = record { id = id; typ = typ; cast = some cast }

-- `attr!(class, range: start..end)` and `attr!(class, bit_range: offset start..end)`
abbrev pub attr_at : AttrClass → ℕ → ℕ → Attr
attr_at class start end = record { class = class; range = byte_range start end; value = none }

abbrev pub attr_bits : AttrClass → ℕ → ℕ → ℕ → Attr
attr_bits class offset start end = record {
  class = class;
  range = bit_range offset start end;
  value = none;
}

-- `attr!(class, value: value)`
abbrev pub attr_with : AttrClass → Variant → Attr
attr_with class value = record { class = class; range = byte_range 0 0; value = some value }

-- A class with `typ: "@novalue"` and `value: true`.
abbrev pub no_value_class : String → AttrClass
no_value_class id = attr_class id "@novalue" (const_value (bool true))

abbrev pub number : Typed ℕ → Typed Variant
number = map_cast uint64

abbrev pub flag : Typed Bool → Typed Variant
flag = map_cast bool

abbrev pub payload : List ℕ → String → Payload
payload bytes id = record { bytes = bytes; id = id; typ = "" }

-- A decoder that works on the payload named `id` and adds at most one layer.
abbrev pub decode_payload : String → (List ℕ → Result Layer) → Parent → Parent × Result Status
decode_payload id decode_layer parent = elim (find_payload id parent) [
  | none ↦ (parent, ok skip)
  | some p ↦ elim (decode_layer p.bytes) [
    | ok layer ↦ (add_child parent layer, ok done)
    | err e ↦ (parent, err e)
  ]
]

-- `(v & mask) != 0`
abbrev pub has_bit : ℕ → ℕ → Bool
has_bit mask v = not (bit_and v mask == 0)
