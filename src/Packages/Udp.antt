-- ===== src/Packages/Udp.antt =====
-- package/udp/udp/src/lib.rs: the decoder of UDP headers.
pub mod Fields
use genet.Base.{
  ℕ, zero, suc, ◌+◌, ◌*◌, ◌/◌, ◌%◌, List, [], ◌∷◌, ◌++◌, Bool, true, Option, none, some,
  if◌then◌else◌, ltb, leb, ◌==◌,
}
use genet.Abi.Result.{Result, Error, ok, err, ◌>>=◌}
use genet.Abi.Slice.{ByteSlice, try_get_at, try_get_from}
use genet.Abi.Variant.{Variant, bool, slice, try_into_u64}
use genet.Abi.Attr.{AttrClass, Attr, try_get}
use genet.Abi.Layer
use genet.Abi.Layer.{
  Layer, LayerClass, Parent, Payload, add_attr, add_payload, add_child, find_payload,
}
use genet.Sdk.Cast.{ByteOrder, map_cast, const_value, byte_slice, uint8, uint16_be, uint32_be}
use genet.Packages.{
  Status, done, skip, attr_class, attr_at, attr_bits, no_value_class, number, flag, has_bit,
  payload, decode_payload,
}
use Prim.Native.Nat.{bit_and, bit_or}
use Prim.Native.String.{String}
use text.Mathlib.Text.{◌==◌ as str_eq}

module _ (io : ByteOrder) where
  unfoldable pub udp_class : LayerClass
  udp_class = record {
    id = "udp";
    aliases =
        record { id = "_.src"; target = "udp.src" }
        ∷ record { id = "_.dst"; target = "udp.dst" }
        ∷ [];
    headers =
        attr_at (attr_class "udp.src" "@udp:port" (number (uint16_be io))) 0 2
        ∷ attr_at (attr_class "udp.dst" "@udp:port" (number (uint16_be io))) 2 4
        ∷ attr_at (attr_class "udp.length" "" (number (uint16_be io))) 4 6
        ∷ attr_at (attr_class "udp.checksum" "" (number (uint16_be io))) 6 8
        ∷ [];
  }

  unfoldable pub decode_layer : ByteSlice → Result Layer
  decode_layer bytes = do
    rest ← try_get_from bytes 8
    ok (add_payload (Layer.new udp_class bytes) (payload rest ""))

  -- `UdpWorker::decode`
  unfoldable pub decode : Parent → Parent × Result Status
  decode = decode_payload "@data:udp" decode_layer
