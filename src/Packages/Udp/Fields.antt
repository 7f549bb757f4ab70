-- ===== src/Packages/Udp/Fields.antt =====
-- What the UDP decoder makes of a datagram.
use genet.Base.{◌≤◌, ◌≡◌, refl, ◌∷◌, [], length, take, drop, arith}
use genet.Base.Bytes.{of_bytes_be}
use genet.Abi.Result.{ok}
use genet.Abi.Slice.{ByteSlice, try_get_from}
use genet.Abi.Layer
use genet.Abi.Layer.{
  Layer, Parent, Payload, attr, resolve, find_attr, add_child, add_payload, find_payload,
}
use genet.Sdk.Cast.{ByteOrder, uint16_be}
use genet.Packages.{payload}
use genet.Packages.Reading.{Reads, try_get-number}
use genet.Packages.Udp.{decode_layer, udp_class}

module _ (io : ByteOrder) where
  -- The decoder takes any payload of at least 8 bytes for a datagram: `_.src`, `_.dst`,
  -- `udp.length` and `udp.checksum` of the layer it makes read as the big-endian 16-bit numbers at
  -- bytes 0, 2, 4 and 6, and the layer's one payload is what follows byte 8.
  pub decode_layer-header :
      (bytes : ByteSlice)
      → 8 ≤ length bytes
      → (layer : Layer) × (decode_layer io bytes ≡ ok layer)
        × Reads layer "_.src" (of_bytes_be (take 2 bytes))
        × Reads layer "_.dst" (of_bytes_be (take 2 (drop 2 bytes)))
        × Reads layer "udp.length" (of_bytes_be (take 2 (drop 4 bytes)))
        × Reads layer "udp.checksum" (of_bytes_be (take 2 (drop 6 bytes)))
        × (layer.payloads ≡ payload (drop 8 bytes) "" ∷ [])
  unfolding decode_layer try_get_from udp_class attr resolve find_attr Layer.new add_payload
      uint16_be
  decode_layer-header bytes h =
      let layer = add_payload (Layer.new (udp_class io) bytes) (payload (drop 8 bytes) "") in
      (
        layer,
        ground arith,
        (_, refl, try_get-number io "udp.src" "@udp:port" 2 0 2 bytes (omega arith) (omega arith)),
        (_, refl, try_get-number io "udp.dst" "@udp:port" 2 2 4 bytes (omega arith) (omega arith)),
        (_, refl, try_get-number io "udp.length" "" 2 4 6 bytes (omega arith) (omega arith)),
        (_, refl, try_get-number io "udp.checksum" "" 2 6 8 bytes (omega arith) (omega arith)),
        refl,
      )
