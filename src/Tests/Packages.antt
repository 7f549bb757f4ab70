-- ===== src/Tests/Packages.antt =====
-- Runs of the decoders on small packets.
use Prim.Native.String.{String}
use genet.Base.{ℕ, ◌≡◌, refl, [], ◌∷◌, ◌++◌, none, arith, replicate}
use genet.Abi.Result.{ok}
use genet.Abi.Slice.{ByteSlice, try_get_at}
use genet.Abi.Layer.{Layer, from_mut_ref}
use genet.Sdk.Cast.{cursor}
use genet.Packages.{payload, no_value_class}
use genet.Packages.Reading.{Reads}
use genet.Packages.Tcp
use genet.Packages.Tcp.Options.{options-Stuck, options-Ends, Ends}
use genet.Abi.Attr.{AttrClass}
use genet.Base.{some}
use genet.Base.{◌⊎◌}
use genet.Abi.Result.{Result}
use genet.Packages.{Status}
use genet.Abi.Layer.{Parent, Payload, find_payload}
use genet.Packages.Tcp.Ends.{HasStuck, decode-ends}
use genet.Packages.Eth
use genet.Packages.Ipv4
use genet.Packages.Ipv6
use genet.Packages.Udp
use genet.Packages.Ipv6.Fields as Ipv6Fields
use genet.Packages.Chain.{one_child, decode-udp_over_ipv4}

abbrev float_bits : ℕ → ℕ
float_bits n = n

-- A datagram from port 53 to port 4660 with the payload 1, 2.
abbrev datagram : ByteSlice
datagram = 0 ∷ 53 ∷ 0x12 ∷ 0x34 ∷ 0 ∷ 10 ∷ 0 ∷ 0 ∷ 1 ∷ 2 ∷ []

abbrev packet : ByteSlice
packet =
    0x45 ∷ 0 ∷ 0 ∷ 30 ∷ 0 ∷ 0 ∷ 0 ∷ 0 ∷ 64 ∷ 0x11 ∷ 0 ∷ 0 ∷ 10 ∷ 0 ∷ 0 ∷ 1 ∷ 10 ∷ 0 ∷ 0 ∷ 2
    ∷ datagram

abbrev ethernet : ByteSlice
ethernet = 1 ∷ 2 ∷ 3 ∷ 4 ∷ 5 ∷ 6 ∷ 7 ∷ 8 ∷ 9 ∷ 10 ∷ 11 ∷ 12 ∷ 0x08 ∷ 0x00 ∷ packet

abbrev link : Layer
link = record {
  class = record { id = "[link-1]"; aliases = []; headers = [] };
  bytes = ethernet;
  attrs = [];
  payloads = [];
}

decode-udp_over_ipv4_example :
    (eth : Layer) × (ipv4 : Layer) × (udp : Layer) × (Eth.decode cursor float_bits
        (from_mut_ref link)
      ≡ one_child link eth)
    × (Ipv4.decode cursor float_bits (from_mut_ref eth) ≡ one_child eth ipv4)
    × (Udp.decode cursor (from_mut_ref ipv4) ≡ one_child ipv4 udp)
    × Reads udp "_.src" 53
    × Reads udp "_.dst" 4660
    × (udp.payloads ≡ payload (1 ∷ 2 ∷ []) "" ∷ [])
decode-udp_over_ipv4_example =
    decode-udp_over_ipv4 cursor float_bits link refl (omega arith) refl refl

-- A next header of 0x3a stands for ICMP.
abbrev ipv6_packet : ByteSlice
ipv6_packet = 0x60 ∷ 0 ∷ 0 ∷ 0 ∷ 1 ∷ 2 ∷ 0x3a ∷ replicate 33 0 ++ 7 ∷ []

ipv6-payload_example :
    (layer : Layer) × (Ipv6.decode_layer cursor float_bits ipv6_packet ≡ ok layer)
    × (layer.bytes ≡ ipv6_packet)
    × (layer.payloads ≡ payload (7 ∷ []) "@data:icmp" ∷ [])
unfolding Ipv6.get_proto
ipv6-payload_example =
    Ipv6Fields.ipv6-payload cursor float_bits ipv6_packet "@data:icmp"
      (no_value_class "ipv6.protocol.icmp") (omega arith) refl

-- An option of kind 9 and length 0 at byte 20.
abbrev segment : ByteSlice
segment = replicate 20 0 ++ 9 ∷ 0 ∷ 0 ∷ 0 ∷ []

options-Stuck_example : Tcp.options cursor 100 segment 24 20 [] ≡ none
unfolding try_get_at
options-Stuck_example =
    options-Stuck cursor 100 segment 24 20 [] (omega arith) (9, refl, omega arith, refl)

options-Ends_example : Ends cursor 5 segment 24 20 []
options-Ends_example = options-Ends cursor 5 segment 24 20 [] (omega arith)

-- A request for an IPv4 address over Ethernet.
abbrev request : ByteSlice
request =
    0 ∷ 1 ∷ 8 ∷ 0 ∷ 6 ∷ 4 ∷ 0 ∷ 1 ∷ 1 ∷ 2 ∷ 3 ∷ 4 ∷ 5 ∷ 6 ∷ 10 ∷ 0 ∷ 0 ∷ 1 ∷ 0 ∷ 0 ∷ 0 ∷ 0 ∷ 0 ∷ 0
    ∷ 10 ∷ 0 ∷ 0 ∷ 2 ∷ []

abbrev arp_class_of : String → AttrClass
arp_class_of id = no_value_class id

abbrev carrier : Layer
carrier = record link { payloads = payload segment "@data:tcp" ∷ [] }

decode-ends_example :
    ((fuel : ℕ) × (r : Parent × Result Status) × (Tcp.decode cursor float_bits fuel
          (from_mut_ref carrier)
        ≡ some r))
    ⊎ ((p : Payload) × (find_payload "@data:tcp" (from_mut_ref carrier) ≡ some p)
        × HasStuck cursor float_bits p.bytes
        × ((fuel : ℕ) → Tcp.decode cursor float_bits fuel (from_mut_ref carrier) ≡ none))
decode-ends_example = decode-ends cursor float_bits (from_mut_ref carrier)
