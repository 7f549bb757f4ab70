-- ===== src/Packages/Ntp/Bounds.antt =====
-- package/ntp/ntp/src/lib.rs: how many bytes the decoder wants.
use genet.Base.{
  ℕ, ◌≡◌, refl, ◌<◌, ◌/◌, ◌%◌, ◌^◌, Option, if◌then◌else◌, ◌≤◌, length, take, drop, inl, inr,
  Bool-cases, leb, arith,
}
use genet.Base.Bytes.{of_bytes_be}
use genet.Abi.Result.{ok, err, out_of_bounds, describe}
use genet.Abi.Slice.{ByteSlice}
use genet.Abi.Variant.{uint64, try_into_u64, try_into_u8}
use Prim.Native.Nat.{bit_and}
use genet.Abi.Layer.{Layer, new, add_attr}
use genet.Abi.Attr.{AttrClass, try_get, attr_value, encode, decode, bytes_of, byte_range}
use genet.Sdk.Cast.{ByteOrder, map_cast, uint8, uint_be-inside, uint_be-outside}
use genet.Packages.Ntp.{
  Floats, leap_attr_header, mode_attr_header, stratum_attr_header, id_attr, id_ip_attr, get_leap,
  get_mode, add_some, ntp_class, decode_layer,
}

module _ (io : ByteOrder) (floats : Floats) (f64_as_u64 : ℕ → ℕ) where
  first_byte : ByteSlice → ℕ
  first_byte bytes = of_bytes_be (take 1 (drop 0 bytes))

  second_byte : ByteSlice → ℕ
  second_byte bytes = of_bytes_be (take 1 (drop 1 bytes))

  leap_inside :
      (bytes : ByteSlice)
      → 1 ≤ length bytes
      → try_get (leap_attr_header io) bytes ≡ ok (uint64 (first_byte bytes / 64))
  unfolding try_get bytes_of byte_range map_cast uint8 attr_value encode decode first_byte
  leap_inside bytes h = rw (uint_be-inside io 1 0 1 bytes (omega arith) h) refl

  mode_inside :
      (bytes : ByteSlice)
      → 1 ≤ length bytes
      → try_get (mode_attr_header io) bytes ≡ ok (uint64 (bit_and (first_byte bytes) 7))
  unfolding try_get bytes_of byte_range map_cast uint8 attr_value encode decode first_byte
  mode_inside bytes h = rw (uint_be-inside io 1 0 1 bytes (omega arith) h) refl

  stratum_inside :
      (bytes : ByteSlice)
      → 2 ≤ length bytes
      → try_get (stratum_attr_header io) bytes ≡ ok (uint64 (second_byte bytes))
  unfolding try_get bytes_of byte_range map_cast uint8 attr_value encode decode second_byte
  stratum_inside bytes h = rw (uint_be-inside io 1 1 2 bytes (omega arith) h) refl

  leap_outside :
      (bytes : ByteSlice)
      → length bytes < 1
      → try_get (leap_attr_header io) bytes ≡ err (describe out_of_bounds)
  unfolding try_get bytes_of byte_range map_cast uint8 attr_value encode decode
  leap_outside bytes h = rw (uint_be-outside io 1 0 1 bytes (omega arith)) refl

  stratum_outside :
      (bytes : ByteSlice)
      → length bytes < 2
      → try_get (stratum_attr_header io) bytes ≡ err (describe out_of_bounds)
  unfolding try_get bytes_of byte_range map_cast uint8 attr_value encode decode
  stratum_outside bytes h = rw (uint_be-outside io 1 1 2 bytes (omega arith)) refl

  -- The layer over a packet: its leap indicator is the high two bits of the first byte, its mode the
  -- low three, and the second byte says what its identifier is.
  abbrev pub ntp_layer : ByteSlice → Layer
  ntp_layer bytes =
      let leap : Option AttrClass = get_leap (of_bytes_be (take 1 (drop 0 bytes)) / 64) in
      let mode : Option AttrClass = get_mode (bit_and (of_bytes_be (take 1 (drop 0 bytes))) 7) in
      let stratum : ℕ = of_bytes_be (take 1 (drop 1 bytes)) % 2 ^ 8 in
      add_attr (add_some (add_some (new (ntp_class io floats f64_as_u64) bytes) leap) mode)
        (if leb 2 stratum then id_ip_attr else id_attr)

  -- The decoder makes of every payload of two bytes or more a layer with the leap indicator and mode
  -- of its first byte and the kind of identifier of its second, and fails on a shorter one.
  pub decode_layer-ntp_layer :
      (bytes : ByteSlice)
      → decode_layer io floats f64_as_u64 bytes
        ≡ (if leb 2 (length bytes) then ok (ntp_layer bytes) else err (describe out_of_bounds))
  unfolding decode_layer try_into_u64 try_into_u8 first_byte second_byte
  decode_layer-ntp_layer bytes = elim (Bool-cases (leb 2 (length bytes))) [
    | inl h ↦
        let leap = leap_inside bytes (ground (arith, h)) in
        let mode = mode_inside bytes (ground (arith, h)) in
        let stratum = stratum_inside bytes (ground (arith, h)) in
        rw (h, decode_layer, leap, mode, stratum) refl
    | inr h ↦ elim (Bool-cases (leb 1 (length bytes))) [
      | inl k ↦
          let leap = leap_inside bytes (ground (arith, k)) in
          let mode = mode_inside bytes (ground (arith, k)) in
          let stratum = stratum_outside bytes (ground (arith, h)) in
          rw (h, decode_layer, leap, mode, stratum) refl
      | inr k ↦ rw (h, decode_layer, leap_outside bytes (ground (arith, k))) refl
    ]
  ]
