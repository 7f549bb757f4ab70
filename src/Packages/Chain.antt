-- ===== src/Packages/Chain.antt =====
-- The decoders one on the other's layer: Ethernet, IPv4 and UDP.
use text.Mathlib.Text.{◌==◌ as str_eq}
use genet.Base.{ℕ, ◌+◌, ◌≤◌, ◌≡◌, refl, true, ◌∷◌, [], length, take, drop, arith, length-drop}
use genet.Base.Bytes.{of_bytes_be}
use genet.Abi.Result.{Result, ok}
use genet.Abi.Layer.{Layer, Parent, from_mut_ref, add_child}
use genet.Sdk.Cast.{ByteOrder}
use genet.Packages.{Status, done, no_value_class, payload}
use genet.Packages.Reading.{Reads, decode_payload-only}
use genet.Packages.Eth
use genet.Packages.Ipv4
use genet.Packages.Udp
use genet.Packages.Eth.Fields as EthFields
use genet.Packages.Ipv4.Fields as Ipv4Fields
use genet.Packages.Udp.Fields as UdpFields

-- The parent of the decoded layer, with the one child.
abbrev pub one_child : Layer → Layer → Parent × Result Status
one_child layer child = (record { layer = layer; children = child ∷ [] }, ok done)

module _ (io : ByteOrder) where
  -- On a link layer of at least 42 bytes whose type field says IPv4 and whose protocol field says
  -- UDP, the Ethernet, IPv4 and UDP decoders each add one layer to the layer before, and the UDP
  -- layer's `_.src` and `_.dst` read as the two 16-bit big-endian numbers behind the Ethernet and
  -- IPv4 headers, its payload being what follows the 8 bytes of its header.
  pub decode-udp_over_ipv4 :
      (f64_as_u64 : ℕ → ℕ) (link : Layer)
      → str_eq link.class.id "[link-1]" ≡ true
      → 42 ≤ length link.bytes
      → of_bytes_be (take 2 (drop 12 link.bytes)) ≡ 0x0800
      → of_bytes_be (take 1 (drop 9 (drop 14 link.bytes))) ≡ 0x11
      → (eth : Layer) × (ipv4 : Layer) × (udp : Layer) × (Eth.decode io f64_as_u64
            (from_mut_ref link)
          ≡ one_child link eth)
        × (Ipv4.decode io f64_as_u64 (from_mut_ref eth) ≡ one_child eth ipv4)
        × (Udp.decode io (from_mut_ref ipv4) ≡ one_child ipv4 udp)
        × Reads udp "_.src" (of_bytes_be (take 2 (drop 20 (drop 14 link.bytes))))
        × Reads udp "_.dst" (of_bytes_be (take 2 (drop 2 (drop 20 (drop 14 link.bytes)))))
        × (udp.payloads ≡ payload (drop 8 (drop 20 (drop 14 link.bytes))) "" ∷ [])
  unfolding Eth.decode Ipv4.decode Udp.decode Eth.get_type Ipv4.get_proto add_child from_mut_ref
  decode-udp_over_ipv4 f64_as_u64 link first h type proto =
      let packet = drop 14 link.bytes in
      let datagram = drop 20 packet in
      let packet_size : length packet + 14 ≡ length link.bytes =
        omega (arith, length-drop 14 link.bytes) in
      let datagram_size : length datagram + 20 ≡ length packet =
        omega (arith, length-drop 20 packet) in
      let (eth, e, b, p) =
        EthFields.eth-payload io f64_as_u64 link.bytes "@data:ipv4" (no_value_class "eth.type.ipv4")
          (omega arith) (rw type) in
      let (ipv4, f, c, q) =
        Ipv4Fields.ipv4-payload io f64_as_u64 packet "@data:udp"
          (no_value_class "ipv4.protocol.udp") (omega arith) (rw proto) in
      let (udp, g, src, dst, _, _, r) = UdpFields.decode_layer-header io datagram (omega arith) in
      (
        eth,
        ipv4,
        udp,
        rw (first, e),
        decode_payload-only "@data:ipv4" packet _ eth ipv4 refl p f,
        decode_payload-only "@data:udp" datagram _ ipv4 udp refl q g,
        src,
        dst,
        r,
      )
