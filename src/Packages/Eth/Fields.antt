-- ===== src/Packages/Eth/Fields.antt =====
-- Which payload the Ethernet decoder hands on.
use Prim.Native.String.{String}
use genet.Base.{
  true, ℕ, ◌≤◌, ◌≡◌, refl, ◌∷◌, [], length, take, drop, some, arith, if◌then◌else◌, leb,
}
use genet.Base.Bytes.{of_bytes_be}
use genet.Abi.Result.{ok}
use genet.Abi.Slice.{ByteSlice, try_get_from}
use genet.Abi.Attr.{AttrClass}
use genet.Abi.Variant.{try_into_u64}
use genet.Abi.Layer
use genet.Abi.Layer.{
  Layer, Parent, Payload, attr, resolve, find_attr, add_attr, add_child, add_payload, find_payload,
}
use genet.Sdk.Cast.{ByteOrder, uint16_be}
use genet.Packages.{payload, attr_at}
use genet.Packages.Reading.{try_get-number}
use genet.Packages.Eth.{
  get_type, decode_layer, add_type, eth_class, len_attr_header, type_attr_header,
}

module _ (io : ByteOrder) where
  -- From a header of at least 14 bytes whose type the decoder knows it makes a layer over all the
  -- bytes with one payload: what follows byte 14, under the id of that type.
  pub eth-payload :
      (f64_as_u64 : ℕ → ℕ) (bytes : ByteSlice) (typ : String) (class : AttrClass)
      → 14 ≤ length bytes
      → get_type (of_bytes_be (take 2 (drop 12 bytes))) ≡ some (typ, class)
      → (layer : Layer) × (decode_layer io f64_as_u64 bytes ≡ ok layer)
        × (layer.bytes ≡ bytes)
        × (layer.payloads ≡ payload (drop 14 bytes) typ ∷ [])
  unfolding decode_layer add_type try_get_from Layer.new add_payload add_attr uint16_be try_into_u64
  eth-payload f64_as_u64 bytes typ class h known =
      let read = try_get-number io "eth.len" "" 2 12 14 bytes (omega arith) (omega arith) in
      let inside : leb 14 (length bytes) ≡ true = ground arith in
      let header =
        if leb (of_bytes_be (take 2 (drop 12 bytes))) 1500
        then len_attr_header io
        else type_attr_header io in
      let layer =
        add_payload
          (add_attr (add_attr (Layer.new (eth_class io) bytes) header) (attr_at class 12 14))
          (payload (drop 14 bytes) typ) in
      (layer, rw (read, known, inside), refl, refl)
