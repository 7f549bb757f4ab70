-- ===== src/Packages/Ipv6/Fields.antt =====
-- Which payload the IPv6 decoder hands on.
use Prim.Native.String.{String}
use genet.Base.{true, ℕ, ◌≤◌, ◌≡◌, refl, ◌∷◌, [], length, take, drop, some, arith, leb}
use genet.Base.Bytes.{of_bytes_be}
use genet.Abi.Result.{ok}
use genet.Abi.Slice.{ByteSlice, try_get_from}
use genet.Abi.Attr.{AttrClass}
use genet.Abi.Variant.{try_into_u64}
use genet.Abi.Layer
use genet.Abi.Layer.{
  Layer, Parent, Payload, attr, resolve, find_attr, add_attr, add_child, add_payload, find_payload,
}
use genet.Sdk.Cast.{ByteOrder, uint8}
use genet.Packages.{payload, attr_at}
use genet.Packages.Reading.{Reads, try_get-number}
use genet.Packages.Ipv6.{get_proto, decode_layer, add_proto, ipv6_class, proto_attr}

module _ (io : ByteOrder) where
  -- From a header of at least 40 bytes whose next header the decoder knows it makes a layer over
  -- all the bytes with one payload: what follows byte 40, under the id of that next header.
  pub ipv6-payload :
      (f64_as_u64 : ℕ → ℕ) (bytes : ByteSlice) (typ : String) (class : AttrClass)
      → 40 ≤ length bytes
      → get_proto (of_bytes_be (take 1 (drop 6 bytes))) ≡ some (typ, class)
      → (layer : Layer) × (decode_layer io f64_as_u64 bytes ≡ ok layer)
        × (layer.bytes ≡ bytes)
        × (layer.payloads ≡ payload (drop 40 bytes) typ ∷ [])
  unfolding decode_layer add_proto try_get_from Layer.new add_payload add_attr uint8 try_into_u64
  ipv6-payload f64_as_u64 bytes typ class h known =
      let next = try_get-number io "ipv6.nextHeader" "" 1 6 7 bytes (omega arith) (omega arith) in
      let read =
        try_get-number io "ipv6.protocol" "@enum" 1 6 7 bytes (omega arith) (omega arith) in
      let inside : leb 40 (length bytes) ≡ true = ground arith in
      let layer =
        add_payload
          (add_attr (add_attr (Layer.new (ipv6_class io) bytes) (proto_attr io))
            (attr_at class 6 7))
          (payload (drop 40 bytes) typ) in
      (layer, rw (next, read, known, inside), refl, refl)

  -- The attribute `ipv6.payloadLength` spans bytes 4 and 5 but reads as byte 4 alone.
  pub payload_length-first_byte :
      (bytes : ByteSlice)
      → 6 ≤ length bytes
      → Reads
          (Layer.new (ipv6_class io) bytes)
          "ipv6.payloadLength"
          (of_bytes_be (take 1 (drop 4 bytes)))
  unfolding ipv6_class attr resolve find_attr Layer.new uint8
  payload_length-first_byte bytes h =
      (_, refl, try_get-number io "ipv6.payloadLength" "" 1 4 6 bytes (omega arith) (omega arith))
