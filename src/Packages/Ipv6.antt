-- ===== src/Packages/Ipv6.antt =====
-- package/ipv6/ipv6/src/lib.rs: the decoder of IPv6 headers. Its loop over extension headers
-- breaks at once.
pub mod Fields
use genet.Base.{
  ℕ, zero, suc, ◌+◌, ◌*◌, ◌/◌, ◌%◌, ◌^◌, List, [], ◌∷◌, ◌++◌, Bool, true, Option, none, some,
  if◌then◌else◌, ltb, leb, ◌==◌,
}
use genet.Abi.Result.{Result, Error, ok, err, ◌>>=◌}
use genet.Abi.Slice.{ByteSlice, try_get_at, try_get_from}
use genet.Abi.Variant.{Variant, bool, slice, try_into_u64}
use genet.Abi.Attr.{AttrClass, Attr, try_get}
use genet.Abi.Layer
use genet.Abi.Layer.{
  Layer, LayerClass, Parent, Payload, add_attr, add_payload, add_child, find_payload,
}
use genet.Sdk.Cast.{ByteOrder, map_cast, const_value, byte_slice, uint8, uint16_be, uint32_be}
use genet.Packages.{
  Status, done, skip, attr_class, attr_at, attr_bits, no_value_class, number, flag, has_bit,
  payload, decode_payload,
}
use Prim.Native.Nat.{bit_and, bit_or}
use Prim.Native.String.{String}
use text.Mathlib.Text.{◌==◌ as str_eq}

-- `get_proto`
unfoldable pub get_proto : ℕ → Option (String × AttrClass)
get_proto val =
    if val == 0x02
    then some ("@data:igmp", no_value_class "ipv6.protocol.igmp")
    else if val == 0x06
    then some ("@data:tcp", no_value_class "ipv6.protocol.tcp")
    else if val == 0x11
    then some ("@data:udp", no_value_class "ipv6.protocol.udp")
    else if val == 0x3a
    then some ("@data:icmp", no_value_class "ipv6.protocol.icmp")
    else none

-- The closure of `FLOW_ATTR`, of the three bytes it is given.
unfoldable pub flow_label : ℕ → ℕ → ℕ → ℕ
flow_label v0 v1 v2 = bit_or (bit_or (bit_and v2 0xf * 2 ^ 16) (v1 * 2 ^ 8)) v2

abbrev flow_label_of : ByteSlice → ℕ
flow_label_of (v0 ∷ v1 ∷ v2 ∷ rest) = flow_label v0 v1 v2
flow_label_of _ = 0

module _ (io : ByteOrder) where
  abbrev pub nheader_attr_header : Attr
  nheader_attr_header = attr_at (attr_class "ipv6.nextHeader" "" (number (uint8 io))) 6 7

  abbrev pub length_attr_header : Attr
  length_attr_header = attr_at (attr_class "ipv6.payloadLength" "" (number (uint8 io))) 4 6

  abbrev pub proto_attr : Attr
  proto_attr = attr_at (attr_class "ipv6.protocol" "@enum" (number (uint8 io))) 6 7

  unfoldable pub ipv6_class : LayerClass
  ipv6_class = record {
    id = "ipv6";
    aliases =
        record { id = "_.src"; target = "ipv6.src" }
        ∷ record { id = "_.dst"; target = "ipv6.dst" }
        ∷ [];
    headers =
        attr_bits (attr_class "ipv6.version" "" (number (map_cast (λ v. v / 16) (uint8 io)))) 0 0 4
        ∷ attr_bits
            (attr_class "ipv6.trafficClass" ""
              (number (map_cast (λ v. bit_and (v / 16) 0xff) (uint16_be io))))
            0 4 12
        ∷ attr_bits (attr_class "ipv6.flowLabel" "" (number (map_cast flow_label_of byte_slice))) 1
            4 24
        ∷ length_attr_header
        ∷ nheader_attr_header
        ∷ attr_at (attr_class "ipv6.hopLimit" "" (number (uint8 io))) 7 8
        ∷ attr_at (attr_class "ipv6.src" "@ipv6:addr" (map_cast slice byte_slice)) 8 24
        ∷ attr_at (attr_class "ipv6.dst" "@ipv6:addr" (map_cast slice byte_slice)) 24 40
        ∷ [];
  }

  unfoldable pub add_proto : Layer → Option (String × AttrClass) → Result Layer
  add_proto layer none = ok layer
  add_proto layer (some (typ, class)) = do
    rest ← try_get_from layer.bytes 40
    ok (add_payload (add_attr layer (attr_at class 6 7)) (payload rest typ))

  unfoldable pub decode_layer : (ℕ → ℕ) → ByteSlice → Result Layer
  decode_layer f64_as_u64 bytes = do
    nheader_value ← try_get nheader_attr_header bytes
    nheader ← try_into_u64 f64_as_u64 nheader_value
    value ← try_get proto_attr bytes
    proto ← try_into_u64 f64_as_u64 value
    add_proto (add_attr (Layer.new ipv6_class bytes) proto_attr) (get_proto proto)

  -- `IPv6Worker::decode`
  unfoldable pub decode : (ℕ → ℕ) → Parent → Parent × Result Status
  decode f64_as_u64 = decode_payload "@data:ipv6" (decode_layer f64_as_u64)
