-- ===== src/Packages/Arp/Fields.antt =====
-- The four addresses of an ARP packet, package/arp/arp/src/lib.rs.
use genet.Base.{
  ◌*◌, take-add, drop-add, ℕ, ◌+◌, ◌-◌, ◌≡◌, refl, sym, ◌∷◌, [], ◌++◌, List, take, drop, some,
  arith,
}
use genet.Abi.Slice.{ByteSlice}
use genet.Abi.Attr.{Attr, AttrClass, bytes_of}
use genet.Packages.{attr_at}
use genet.Packages.Reading.{bytes_of-byte_range}
use genet.Packages.Arp.{addresses}

-- The bytes that an attribute covers, and those of several attributes one behind the other.
abbrev pub covered : ByteSlice → Attr → ByteSlice
covered bytes attr =
    take ((bytes_of attr.range).end - (bytes_of attr.range).start)
      (drop (bytes_of attr.range).start bytes)

abbrev pub covered_all : ByteSlice → List Attr → ByteSlice
covered_all bytes [] = []
covered_all bytes (attr ∷ rest) = covered bytes attr ++ covered_all bytes rest

covered-attr_at :
    (bytes : ByteSlice) (class : AttrClass) (start size : ℕ)
    → covered bytes (attr_at class start (start + size)) ≡ take size (drop start bytes)
covered-attr_at bytes class start size =
    let width : start + size - start ≡ size = omega arith in
    rw (bytes_of-byte_range start (start + size), width) refl

-- An attribute with the bytes behind it.
covered-then :
    (bytes : ByteSlice) (class : AttrClass) (start size more : ℕ)
    → covered bytes (attr_at class start (start + size)) ++ take more (drop (start + size) bytes)
      ≡ take (size + more) (drop start bytes)
covered-then bytes class start size more =
    rw (covered-attr_at bytes class start size, drop-add start size bytes)
      (sym (take-add size more (drop start bytes)))

-- For types that the decoder knows, the four address attributes cover the bytes from byte 8 on, one
-- behind the other: sender's and target's hardware and protocol addresses of the lengths given.
pub addresses-covered :
    (bytes : ByteSlice) (hw proto : AttrClass × AttrClass × AttrClass) (hlen plen : ℕ)
    → covered_all bytes (addresses (some hw) (some proto) hlen plen)
      ≡ take (2 * (hlen + plen)) (drop 8 bytes)
unfolding addresses
addresses-covered bytes (_, sha, tha) (_, spa, tpa) hlen plen =
    let total : 2 * (hlen + plen) ≡ hlen + (plen + (hlen + (plen + 0))) = omega arith in
    rw
      (
        total,
        sym (covered-then bytes sha 8 hlen (plen + (hlen + (plen + 0)))),
        sym (covered-then bytes spa (8 + hlen) plen (hlen + (plen + 0))),
        sym (covered-then bytes tha (8 + hlen + plen) hlen (plen + 0)),
        sym (covered-then bytes tpa (8 + hlen + plen + hlen) plen 0),
      )
      refl
