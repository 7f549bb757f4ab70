-- ===== src/Packages/Eth.antt =====
-- package/eth/eth/src/lib.rs: the decoder of Ethernet headers.
pub mod Fields
use genet.Base.{
  ℕ, zero, suc, ◌+◌, ◌*◌, ◌/◌, ◌%◌, List, [], ◌∷◌, ◌++◌, Bool, true, Option, none, some,
  if◌then◌else◌, ltb, leb, ◌==◌,
}
use genet.Abi.Result.{Result, Error, ok, err, ◌>>=◌}
use genet.Abi.Slice.{ByteSlice, try_get_at, try_get_from}
use genet.Abi.Variant.{Variant, bool, slice, try_into_u64}
use genet.Abi.Attr.{AttrClass, Attr, try_get}
use genet.Abi.Layer
use genet.Abi.Layer.{
  Layer, LayerClass, Parent, Payload, add_attr, add_payload, add_child, find_payload,
}
use genet.Sdk.Cast.{ByteOrder, map_cast, const_value, byte_slice, uint8, uint16_be, uint32_be}
use genet.Packages.{
  Status, done, skip, attr_class, attr_at, attr_bits, no_value_class, number, flag, has_bit,
  payload, decode_payload,
}
use Prim.Native.Nat.{bit_and, bit_or}
use Prim.Native.String.{String}
use text.Mathlib.Text.{◌==◌ as str_eq}

-- `get_type`
unfoldable pub get_type : ℕ → Option (String × AttrClass)
get_type val =
    if val == 0x0800
    then some ("@data:ipv4", no_value_class "eth.type.ipv4")
    else if val == 0x0806
    then some ("@data:arp", no_value_class "eth.type.arp")
    else if val == 0x0842
    then some ("@data:wol", no_value_class "eth.type.wol")
    else if val == 0x86dd
    then some ("@data:ipv6", no_value_class "eth.type.ipv6")
    else if val == 0x888e
    then some ("@data:eap", no_value_class "eth.type.eap")
    else none

module _ (io : ByteOrder) where
  abbrev pub len_attr_header : Attr
  len_attr_header = attr_at (attr_class "eth.len" "" (number (uint16_be io))) 12 14

  abbrev pub type_attr_header : Attr
  type_attr_header = attr_at (attr_class "eth.type" "@enum" (number (uint16_be io))) 12 14

  unfoldable pub eth_class : LayerClass
  eth_class = record {
    id = "eth";
    aliases =
        record { id = "_.src"; target = "eth.src" }
        ∷ record { id = "_.dst"; target = "eth.dst" }
        ∷ [];
    headers =
        attr_at (attr_class "eth.src" "@eth:mac" (map_cast slice byte_slice)) 0 6
        ∷ attr_at (attr_class "eth.dst" "@eth:mac" (map_cast slice byte_slice)) 6 12
        ∷ [];
  }

  unfoldable pub add_type : Layer → Option (String × AttrClass) → Result Layer
  add_type layer none = ok layer
  add_type layer (some (typ, class)) = do
    rest ← try_get_from layer.bytes 14
    ok (add_payload (add_attr layer (attr_at class 12 14)) (payload rest typ))

  unfoldable pub decode_layer : (ℕ → ℕ) → ByteSlice → Result Layer
  decode_layer f64_as_u64 bytes = do
    value ← try_get len_attr_header bytes
    len ← try_into_u64 f64_as_u64 value
    let header = if leb len 1500 then len_attr_header else type_attr_header
    add_type (add_attr (Layer.new eth_class bytes) header) (get_type len)

  -- `EthWorker::decode`
  unfoldable pub decode : (ℕ → ℕ) → Parent → Parent × Result Status
  decode f64_as_u64 parent =
      let layer : Parent × Result Status = elim (decode_layer f64_as_u64 parent.layer.bytes) [
        | ok layer ↦ (add_child parent layer, ok done)
        | err e ↦ (parent, err e)
      ] in
      if str_eq parent.layer.class.id "[link-1]" then layer else (parent, ok skip)
