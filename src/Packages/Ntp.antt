-- ===== src/Packages/Ntp.antt =====
-- package/ntp/ntp/src/lib.rs: the decoder of NTP packets. The arithmetic of `f64` is an argument.
-- `none` is a panic of `unwrap`.
pub mod Bounds
use Prim.Native.Nat.{bit_and}
use Prim.Native.String.{String}
use text.Mathlib.Text.{◌==◌ as str_eq}
use genet.Base.{
  ℕ, ◌+◌, ◌/◌, ◌^◌, List, [], ◌∷◌, Bool, true, false, not, ◌&&◌, Option, none, some, if◌then◌else◌,
  leb, ◌==◌,
}
use genet.Abi.Result.{Result, ok, err, ◌>>=◌}
use genet.Abi.Slice.{ByteSlice}
use genet.Abi.Variant.{Variant, float64, slice, try_into_u64, try_into_u16, try_into_u8}
use genet.Abi.Attr.{AttrClass, Attr, try_get}
use genet.Abi.Layer
use genet.Abi.Layer.{Layer, LayerClass, Parent, Payload, add_attr, add_child, stack_attr}
use genet.Sdk.Cast.{ByteOrder, Typed, map_cast, byte_slice, uint8, uint16_be, uint32_be, uint64_be}
use genet.Packages.{Status, done, skip, attr_class, attr_at, no_value_class, number}

-- `as f64`, the operations on `f64` and the constants 65536 and 4294967296
pub record Floats : Type 0 where
  pub of_u64 : ℕ → ℕ
  pub add : ℕ → ℕ → ℕ
  pub div : ℕ → ℕ → ℕ
  pub two_16 : ℕ
  pub two_32 : ℕ

unfoldable pub get_leap : ℕ → Option AttrClass
get_leap val =
    if val == 0
    then some (no_value_class "ntp.leapIndicator.noWarning")
    else if val == 1
    then some (no_value_class "ntp.leapIndicator.sec61")
    else if val == 2
    then some (no_value_class "ntp.leapIndicator.sec59")
    else if val == 3
    then some (no_value_class "ntp.leapIndicator.unknown")
    else none

unfoldable pub get_mode : ℕ → Option AttrClass
get_mode val =
    if val == 0
    then some (no_value_class "ntp.mode.reserved")
    else if val == 1
    then some (no_value_class "ntp.mode.symmetricActive")
    else if val == 2
    then some (no_value_class "ntp.mode.symmetricPassive")
    else if val == 3
    then some (no_value_class "ntp.mode.client")
    else if val == 4
    then some (no_value_class "ntp.mode.server")
    else if val == 5
    then some (no_value_class "ntp.mode.broadcast")
    else if val == 6
    then some (no_value_class "ntp.mode.controlMessage")
    else if val == 7
    then some (no_value_class "ntp.mode.reservedForPrivate")
    else none

-- `if let Some(attr) = ..` with `range: 0..1`
unfoldable pub add_some : Layer → Option AttrClass → Layer
add_some layer none = layer
add_some layer (some class) = add_attr layer (attr_at class 0 1)

module _ (io : ByteOrder) (floats : Floats) where
  -- A number with 16 or 32 bits behind its point.
  abbrev pub fixed32 : Typed Variant
  fixed32 =
      map_cast
        (λ v. float64 (
          floats.add (floats.of_u64 (v / 2 ^ 16))
            (floats.div (floats.of_u64 (bit_and v 0xffff)) floats.two_16)))
        (uint32_be io)

  abbrev pub fixed64 : Typed Variant
  fixed64 =
      map_cast
        (λ v. float64 (
          floats.add (floats.of_u64 (v / 2 ^ 32))
            (floats.div (floats.of_u64 (bit_and v 0xffffffff)) floats.two_32)))
        (uint64_be io)

module _ (io : ByteOrder) where
  abbrev pub leap_attr_header : Attr
  leap_attr_header =
      attr_at (attr_class "ntp.leapIndicator" "@enum" (number (map_cast (λ v. v / 64) (uint8 io))))
        0 1

  abbrev pub mode_attr_header : Attr
  mode_attr_header =
      attr_at (attr_class "ntp.mode" "@enum" (number (map_cast (λ v. bit_and v 7) (uint8 io)))) 0 1

  abbrev pub stratum_attr_header : Attr
  stratum_attr_header = attr_at (attr_class "ntp.stratum" "" (number (uint8 io))) 1 2

abbrev pub id_attr : Attr
id_attr = attr_at (attr_class "ntp.identifier" "" (map_cast slice byte_slice)) 12 16

abbrev pub id_ip_attr : Attr
id_ip_attr = attr_at (attr_class "ntp.identifier" "@ipv4:addr" (map_cast slice byte_slice)) 12 16

module _ (io : ByteOrder) (floats : Floats) (f64_as_u64 : ℕ → ℕ) where
  unfoldable pub ntp_class : LayerClass
  ntp_class = record {
    id = "ntp";
    aliases = [];
    headers =
        leap_attr_header io
        ∷ attr_at
            (attr_class "ntp.version" "" (number (map_cast (λ v. bit_and (v / 8) 7) (uint8 io)))) 0
            1
        ∷ mode_attr_header io
        ∷ stratum_attr_header io
        ∷ attr_at (attr_class "ntp.pollInterval" "" (number (uint8 io))) 2 3
        ∷ attr_at (attr_class "ntp.precision" "" (number (uint8 io))) 3 4
        ∷ attr_at (attr_class "ntp.rootDelay" "" (fixed32 io floats)) 4 8
        ∷ attr_at (attr_class "ntp.rootDelay.seconds" "" (number (uint16_be io))) 4 6
        ∷ attr_at (attr_class "ntp.rootDelay.fraction" "" (number (uint16_be io))) 6 8
        ∷ attr_at (attr_class "ntp.rootDispersion" "" (fixed32 io floats)) 8 12
        ∷ attr_at (attr_class "ntp.rootDispersion.seconds" "" (number (uint16_be io))) 8 10
        ∷ attr_at (attr_class "ntp.rootDispersion.fraction" "" (number (uint16_be io))) 10 12
        ∷ attr_at (attr_class "ntp.referenceTs" "@ntp:time" (fixed64 io floats)) 16 24
        ∷ attr_at (attr_class "ntp.referenceTs.seconds" "" (number (uint32_be io))) 16 20
        ∷ attr_at (attr_class "ntp.referenceTs.fraction" "" (number (uint32_be io))) 20 24
        ∷ attr_at (attr_class "ntp.originateTs" "@ntp:time" (fixed64 io floats)) 24 32
        ∷ attr_at (attr_class "ntp.originateTs.seconds" "" (number (uint32_be io))) 24 28
        ∷ attr_at (attr_class "ntp.originateTs.fraction" "" (number (uint32_be io))) 28 32
        ∷ attr_at (attr_class "ntp.receiveTs" "@ntp:time" (fixed64 io floats)) 32 40
        ∷ attr_at (attr_class "ntp.receiveTs.seconds" "" (number (uint32_be io))) 32 36
        ∷ attr_at (attr_class "ntp.receiveTs.fraction" "" (number (uint32_be io))) 36 40
        ∷ attr_at (attr_class "ntp.transmitTs" "@ntp:time" (fixed64 io floats)) 40 48
        ∷ attr_at (attr_class "ntp.transmitTs.seconds" "" (number (uint32_be io))) 40 44
        ∷ attr_at (attr_class "ntp.transmitTs.fraction" "" (number (uint32_be io))) 44 48
        ∷ [];
  }

  unfoldable pub decode_layer : ByteSlice → Result Layer
  decode_layer bytes = do
    leap ← try_get (leap_attr_header io) bytes
    leap_type ← try_into_u64 f64_as_u64 leap
    mode ← try_get (mode_attr_header io) bytes
    mode_type ← try_into_u64 f64_as_u64 mode
    level ← try_get (stratum_attr_header io) bytes
    stratum ← try_into_u8 f64_as_u64 level
    let layer : Layer =
        add_some (add_some (Layer.new ntp_class bytes) (get_leap leap_type)) (get_mode mode_type)
    ok (add_attr layer (if leb 2 stratum then id_ip_attr else id_attr))

  -- A port of the stack, read from the parent's bytes.
  unfoldable pub port : List Layer → Parent → String → Option (Result ℕ)
  port stack parent id = elim (stack_attr stack id) [
    | none ↦ none
    | some a ↦ some (try_get a parent.layer.bytes >>= try_into_u16 f64_as_u64)
  ]

  -- A port that cannot be read ends the decoder before the next one is looked up.
  unfoldable pub decode_ports :
      Option (Result ℕ) → Option (Result ℕ) → ByteSlice → Parent → Option (Parent × Result Status)
  decode_ports none dst bytes parent = none
  decode_ports (some (err e)) dst bytes parent = some (parent, err e)
  decode_ports (some (ok src)) none bytes parent = none
  decode_ports (some (ok src)) (some (err e)) bytes parent = some (parent, err e)
  decode_ports (some (ok src)) (some (ok dst)) bytes parent =
      if not (src == 123) && not (dst == 123)
      then some (parent, ok skip)
      else elim (decode_layer bytes) [
        | ok layer ↦ some (add_child parent layer, ok done)
        | err e ↦ some (parent, err e)
      ]

  -- `NtpWorker::decode`
  unfoldable pub decode : List Layer → Parent → Option (Parent × Result Status)
  decode stack parent =
      if not (str_eq parent.layer.class.id "udp")
      then some (parent, ok skip)
      else elim parent.layer.payloads [
        | [] ↦ some (parent, ok skip)
        | p ∷ _ ↦
            decode_ports (port stack parent "udp.src") (port stack parent "udp.dst") p.bytes parent
      ]
