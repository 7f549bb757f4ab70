-- ===== src/Packages/Ipv4/Fields.antt =====
-- Which payload the IPv4 decoder hands on.
use Prim.Native.String.{String}
use genet.Base.{true, ℕ, ◌≤◌, ◌≡◌, refl, ◌∷◌, [], length, take, drop, some, arith, leb}
use genet.Base.Bytes.{of_bytes_be}
use genet.Abi.Result.{ok}
use genet.Abi.Slice.{ByteSlice, try_get_from}
use genet.Abi.Attr.{AttrClass}
use genet.Abi.Variant.{try_into_u64}
use genet.Abi.Layer
use genet.Abi.Layer.{
  Layer, Parent, Payload, attr, resolve, find_attr, add_attr, add_child, add_payload, find_payload,
}
use genet.Sdk.Cast.{ByteOrder, uint8}
use genet.Packages.{payload, attr_at}
use genet.Packages.Reading.{try_get-number}
use genet.Packages.Ipv4.{get_proto, decode_layer, add_proto, ipv4_class}

module _ (io : ByteOrder) where
  -- From a header of at least 20 bytes whose protocol the decoder knows it makes a layer over all
  -- the bytes with one payload: what follows byte 20, under the id of that protocol.
  pub ipv4-payload :
      (f64_as_u64 : ℕ → ℕ) (bytes : ByteSlice) (typ : String) (class : AttrClass)
      → 20 ≤ length bytes
      → get_proto (of_bytes_be (take 1 (drop 9 bytes))) ≡ some (typ, class)
      → (layer : Layer) × (decode_layer io f64_as_u64 bytes ≡ ok layer)
        × (layer.bytes ≡ bytes)
        × (layer.payloads ≡ payload (drop 20 bytes) typ ∷ [])
  unfolding decode_layer add_proto try_get_from Layer.new add_payload add_attr uint8 try_into_u64
  ipv4-payload f64_as_u64 bytes typ class h known =
      let read =
        try_get-number io "ipv4.protocol" "@enum" 1 9 10 bytes (omega arith) (omega arith) in
      let inside : leb 20 (length bytes) ≡ true = ground arith in
      let layer =
        add_payload (add_attr (Layer.new (ipv4_class io) bytes) (attr_at class 9 10))
          (payload (drop 20 bytes) typ) in
      (layer, rw (read, known, inside), refl, refl)
