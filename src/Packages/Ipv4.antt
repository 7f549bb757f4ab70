-- ===== src/Packages/Ipv4.antt =====
-- package/ipv4/ipv4/src/lib.rs: the decoder of IPv4 headers.
pub mod Fields
use genet.Base.{
  ℕ, zero, suc, ◌+◌, ◌*◌, ◌/◌, ◌%◌, List, [], ◌∷◌, ◌++◌, Bool, true, Option, none, some,
  if◌then◌else◌, ltb, leb, ◌==◌,
}
use genet.Abi.Result.{Result, Error, ok, err, ◌>>=◌}
use genet.Abi.Slice.{ByteSlice, try_get_at, try_get_from}
use genet.Abi.Variant.{Variant, bool, slice, try_into_u64}
use genet.Abi.Attr.{AttrClass, Attr, try_get}
use genet.Abi.Layer
use genet.Abi.Layer.{
  Layer, LayerClass, Parent, Payload, add_attr, add_payload, add_child, find_payload,
}
use genet.Sdk.Cast.{ByteOrder, map_cast, const_value, byte_slice, uint8, uint16_be, uint32_be}
use genet.Packages.{
  Status, done, skip, attr_class, attr_at, attr_bits, no_value_class, number, flag, has_bit,
  payload, decode_payload,
}
use Prim.Native.Nat.{bit_and, bit_or}
use Prim.Native.String.{String}
use text.Mathlib.Text.{◌==◌ as str_eq}

-- `get_proto`
unfoldable pub get_proto : ℕ → Option (String × AttrClass)
get_proto val =
    if val == 0x01
    then some ("@data:icmp", no_value_class "ipv4.protocol.icmp")
    else if val == 0x02
    then some ("@data:igmp", no_value_class "ipv4.protocol.igmp")
    else if val == 0x06
    then some ("@data:tcp", no_value_class "ipv4.protocol.tcp")
    else if val == 0x11
    then some ("@data:udp", no_value_class "ipv4.protocol.udp")
    else none

module _ (io : ByteOrder) where
  abbrev pub proto_attr_header : Attr
  proto_attr_header = attr_at (attr_class "ipv4.protocol" "@enum" (number (uint8 io))) 9 10

  unfoldable pub ipv4_class : LayerClass
  ipv4_class = record {
    id = "ipv4";
    aliases =
        record { id = "_.src"; target = "ipv4.src" }
        ∷ record { id = "_.dst"; target = "ipv4.dst" }
        ∷ [];
    headers =
        attr_bits (attr_class "ipv4.version" "" (number (map_cast (λ v. v / 16) (uint8 io)))) 0 0 4
        ∷ attr_bits
            (attr_class "ipv4.headerLength" "" (number (map_cast (λ v. bit_and v 0x0f) (uint8 io))))
            0 4 8
        ∷ attr_at (attr_class "ipv4.tos" "" (number (uint8 io))) 1 2
        ∷ attr_at (attr_class "ipv4.totalLength" "" (number (uint16_be io))) 2 4
        ∷ attr_at (attr_class "ipv4.id" "" (number (uint16_be io))) 4 6
        ∷ attr_bits
            (attr_class "ipv4.flags" "@flags"
              (number (map_cast (λ v. bit_and (v / 32) 0x07) (uint8 io))))
            6 0 1
        ∷ attr_bits
            (attr_class "ipv4.flags.reserved" "" (flag (map_cast (has_bit 0x80) (uint8 io)))) 6 1 2
        ∷ attr_bits
            (attr_class "ipv4.flags.dontFragment" "" (flag (map_cast (has_bit 0x40) (uint8 io)))) 6
            2 3
        ∷ attr_bits
            (attr_class "ipv4.flags.moreFragments" "" (flag (map_cast (has_bit 0x20) (uint8 io)))) 6
            3 4
        ∷ attr_bits
            (attr_class "ipv4.fragmentOffset" ""
              (number (map_cast (λ v. bit_and v 0x1fff) (uint16_be io))))
            6 4 16
        ∷ attr_at (attr_class "ipv4.ttl" "" (number (uint8 io))) 8 9
        ∷ proto_attr_header
        ∷ attr_at (attr_class "ipv4.checksum" "" (number (uint16_be io))) 10 12
        ∷ attr_at (attr_class "ipv4.src" "@ipv4:addr" (map_cast slice byte_slice)) 12 16
        ∷ attr_at (attr_class "ipv4.dst" "@ipv4:addr" (map_cast slice byte_slice)) 16 20
        ∷ [];
  }

  -- What follows a protocol that the decoder knows.
  unfoldable pub add_proto : Layer → Option (String × AttrClass) → Result Layer
  add_proto layer none = ok layer
  add_proto layer (some (typ, class)) = do
    rest ← try_get_from layer.bytes 20
    ok (add_payload (add_attr layer (attr_at class 9 10)) (payload rest typ))

  unfoldable pub decode_layer : (ℕ → ℕ) → ByteSlice → Result Layer
  decode_layer f64_as_u64 bytes = do
    value ← try_get proto_attr_header bytes
    proto ← try_into_u64 f64_as_u64 value
    add_proto (Layer.new ipv4_class bytes) (get_proto proto)

  -- `IPv4Worker::decode`
  unfoldable pub decode : (ℕ → ℕ) → Parent → Parent × Result Status
  decode f64_as_u64 = decode_payload "@data:ipv4" (decode_layer f64_as_u64)
