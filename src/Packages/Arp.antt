-- ===== src/Packages/Arp.antt =====
-- package/arp/arp/src/lib.rs: the decoder of ARP packets.
pub mod Fields
use genet.Base.{ℕ, ◌+◌, List, [], ◌∷◌, ◌++◌, Option, none, some, if◌then◌else◌, ◌==◌}
use genet.Abi.Result.{Result, ok, ◌>>=◌}
use genet.Abi.Slice.{ByteSlice}
use genet.Abi.Variant.{slice, try_into_u64}
use genet.Abi.Attr.{AttrClass, Attr, try_get}
use genet.Abi.Layer
use genet.Abi.Layer.{
  Layer, LayerClass, Parent, Payload, add_attr, add_payload, add_child, find_payload,
}
use genet.Sdk.Cast.{ByteOrder, map_cast, byte_slice, uint8, uint16_be}
use genet.Packages.{Status, attr_class, attr_at, no_value_class, number, decode_payload}
use Prim.Native.String.{String}

abbrev addr_class : String → String → AttrClass
addr_class id typ = attr_class id typ (map_cast slice byte_slice)

-- `get_hw`: the class of the type, and those of the sender's and target's hardware address.
unfoldable pub get_hw : ℕ → Option (AttrClass × AttrClass × AttrClass)
get_hw val =
    if val == 0x0001
    then some (
      no_value_class "arp.hwtype.eth",
      addr_class "arp.sha" "@eth:mac",
      addr_class "arp.tha" "@eth:mac",
    )
    else none

-- `get_proto`
unfoldable pub get_proto : ℕ → Option (AttrClass × AttrClass × AttrClass)
get_proto val =
    if val == 0x0800
    then some (
      no_value_class "arp.protocol.ipv4",
      addr_class "arp.spa" "@ipv4:addr",
      addr_class "arp.tpa" "@ipv4:addr",
    )
    else if val == 0x86dd
    then some (
      no_value_class "arp.protocol.ipv6",
      addr_class "arp.spa" "@ipv6:addr",
      addr_class "arp.tpa" "@ipv6:addr",
    )
    else none

-- `get_op`
unfoldable pub get_op : ℕ → Option AttrClass
get_op val =
    if val == 0x0001
    then some (no_value_class "arp.op.request")
    else if val == 0x0002
    then some (no_value_class "arp.op.reply")
    else none

-- The four addresses, one behind the other from byte 8.
unfoldable pub addresses :
    Option (AttrClass × AttrClass × AttrClass)
    → Option (AttrClass × AttrClass × AttrClass)
    → ℕ
    → ℕ
    → List Attr
addresses (some (_, sha, tha)) (some (_, spa, tpa)) hlen plen =
    attr_at sha 8 (8 + hlen)
    ∷ attr_at spa (8 + hlen) (8 + hlen + plen)
    ∷ attr_at tha (8 + hlen + plen) (8 + hlen + plen + hlen)
    ∷ attr_at tpa (8 + hlen + plen + hlen) (8 + hlen + plen + hlen + plen)
    ∷ []
addresses _ _ hlen plen = []

abbrev class_attr : Option (AttrClass × AttrClass × AttrClass) → ℕ → ℕ → List Attr
class_attr none start end = []
class_attr (some (class, _, _)) start end = attr_at class start end ∷ []

abbrev op_attr : Option AttrClass → List Attr
op_attr none = []
op_attr (some class) = attr_at class 6 8 ∷ []

module _ (io : ByteOrder) where
  abbrev pub hwtype_attr_header : Attr
  hwtype_attr_header = attr_at (attr_class "arp.hwtype" "@enum" (number (uint16_be io))) 0 2

  abbrev pub proto_attr_header : Attr
  proto_attr_header = attr_at (attr_class "arp.protocol" "@enum" (number (uint16_be io))) 2 4

  abbrev pub hlen_attr_header : Attr
  hlen_attr_header = attr_at (attr_class "arp.hlen" "" (number (uint8 io))) 4 5

  abbrev pub plen_attr_header : Attr
  plen_attr_header = attr_at (attr_class "arp.plen" "" (number (uint8 io))) 5 6

  abbrev pub op_attr_header : Attr
  op_attr_header = attr_at (attr_class "arp.op" "@enum" (number (uint16_be io))) 6 8

  unfoldable pub arp_class : LayerClass
  arp_class = record {
    id = "arp";
    aliases =
        record { id = "_.src"; target = "arp.sha" }
        ∷ record { id = "_.dst"; target = "arp.tha" }
        ∷ [];
    headers =
        hwtype_attr_header ∷ proto_attr_header ∷ hlen_attr_header ∷ plen_attr_header
        ∷ op_attr_header ∷ [];
  }

  unfoldable pub decode_layer : (ℕ → ℕ) → ByteSlice → Result Layer
  decode_layer f64_as_u64 bytes = do
    hw_value ← try_get hwtype_attr_header bytes
    hw_type ← try_into_u64 f64_as_u64 hw_value
    proto_value ← try_get proto_attr_header bytes
    proto_type ← try_into_u64 f64_as_u64 proto_value
    hlen_value ← try_get hlen_attr_header bytes
    hlen ← try_into_u64 f64_as_u64 hlen_value
    plen_value ← try_get plen_attr_header bytes
    plen ← try_into_u64 f64_as_u64 plen_value
    op_value ← try_get op_attr_header bytes
    op_type ← try_into_u64 f64_as_u64 op_value
    let hw = get_hw hw_type
    let proto = get_proto proto_type
    let layer = Layer.new arp_class bytes
    ok (record layer {
      attrs =
          class_attr hw 0 2
          ++ (class_attr proto 2 4 ++ (op_attr (get_op op_type) ++ addresses hw proto hlen plen));
    })

  -- `ArpWorker::decode`
  unfoldable pub decode : (ℕ → ℕ) → Parent → Parent × Result Status
  decode f64_as_u64 = decode_payload "@data:arp" (decode_layer f64_as_u64)
