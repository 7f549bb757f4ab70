-- ===== src/Packages/Tcp.antt =====
-- package/tcp/tcp/src/lib.rs: the decoder of TCP headers. `f64_as_u64` is the cast of an `f64`.
pub mod Options
pub mod Ends
use Prim.Native.Nat.{bit_and}
use genet.Base.{
  ℕ, zero, suc, ◌+◌, ◌*◌, ◌/◌, List, [], ◌∷◌, ◌++◌, Bool, true, Option, none, some, if◌then◌else◌,
  ltb, leb, ◌==◌,
}
use genet.Abi.Result.{Result, Error, ok, err, ◌>>=◌}
use genet.Abi.Slice.{ByteSlice, try_get_at, try_get_from}
use genet.Abi.Variant.{Variant, bool, slice, try_into_u64}
use genet.Abi.Attr.{AttrClass, Attr, try_get}
use genet.Abi.Layer
use genet.Abi.Layer.{Layer, LayerClass, Parent, add_payload, add_child, find_payload}
use genet.Sdk.Cast.{ByteOrder, map_cast, const_value, byte_slice, uint8, uint16_be, uint32_be}
use genet.Packages.{
  Status, done, skip, attr_class, attr_at, attr_bits, no_value_class, number, flag, has_bit,
  payload,
}

abbrev pub options_attr : AttrClass
options_attr = attr_class "tcp.options" "@nested" (const_value (bool true))

abbrev pub options_nop_attr : AttrClass
options_nop_attr = no_value_class "tcp.options.nop"

abbrev pub options_sackp_attr : AttrClass
options_sackp_attr = no_value_class "tcp.options.selectiveAckPermitted"

abbrev pub options_sack_attr : AttrClass
options_sack_attr = attr_class "tcp.options.selectiveAck" "" (map_cast slice byte_slice)

abbrev pub options_ts_attr : AttrClass
options_ts_attr = attr_class "tcp.options.ts" "@nested" (const_value (bool true))

module _ (io : ByteOrder) where
  abbrev pub options_mss_attr : AttrClass
  options_mss_attr = attr_class "tcp.options.mss" "" (number (uint16_be io))

  abbrev pub options_scale_attr : AttrClass
  options_scale_attr = attr_class "tcp.options.scale" "" (number (uint8 io))

  abbrev pub options_ts_my_attr : AttrClass
  options_ts_my_attr = attr_class "tcp.options.ts.my" "" (number (uint32_be io))

  abbrev pub options_ts_echo_attr : AttrClass
  options_ts_echo_attr = attr_class "tcp.options.ts.echo" "" (number (uint32_be io))

  abbrev pub offset_attr_header : Attr
  offset_attr_header =
      attr_at (attr_class "tcp.dataOffset" "" (number (map_cast (λ v. v / 16) (uint8 io)))) 12 13

  unfoldable pub tcp_class : LayerClass
  tcp_class = record {
    id = "tcp";
    aliases = [];
    headers =
        attr_at (attr_class "tcp.src" "@tcp:port" (number (uint16_be io))) 0 2
        ∷ attr_at (attr_class "tcp.dst" "@tcp:port" (number (uint16_be io))) 2 4
        ∷ attr_at (attr_class "tcp.seq" "" (number (uint32_be io))) 4 8
        ∷ attr_at (attr_class "tcp.ack" "" (number (uint32_be io))) 8 12
        ∷ offset_attr_header
        ∷ attr_bits
            (attr_class "tcp.flags" "@flags"
              (number (map_cast (λ v. bit_and v 0xfff) (uint16_be io))))
            12 7 16
        ∷ attr_bits (attr_class "tcp.flags.ns" "" (flag (map_cast (has_bit 0x01) (uint8 io)))) 12 7
            8
        ∷ attr_bits (attr_class "tcp.flags.cwr" "" (flag (map_cast (has_bit 0x80) (uint8 io)))) 13 0
            1
        ∷ attr_bits (attr_class "tcp.flags.ece" "" (flag (map_cast (has_bit 0x40) (uint8 io)))) 13 1
            2
        ∷ attr_bits (attr_class "tcp.flags.urg" "" (flag (map_cast (has_bit 0x20) (uint8 io)))) 13 2
            3
        ∷ attr_bits (attr_class "tcp.flags.ack" "" (flag (map_cast (has_bit 0x10) (uint8 io)))) 13 3
            4
        ∷ attr_bits (attr_class "tcp.flags.psh" "" (flag (map_cast (has_bit 0x08) (uint8 io)))) 13 4
            5
        ∷ attr_bits (attr_class "tcp.flags.rst" "" (flag (map_cast (has_bit 0x04) (uint8 io)))) 13 5
            6
        ∷ attr_bits (attr_class "tcp.flags.syn" "" (flag (map_cast (has_bit 0x02) (uint8 io)))) 13 6
            7
        ∷ attr_bits (attr_class "tcp.flags.fin" "" (flag (map_cast (has_bit 0x01) (uint8 io)))) 13 7
            8
        ∷ attr_at (attr_class "tcp.window" "" (number (uint16_be io))) 14 16
        ∷ attr_at (attr_class "tcp.checksum" "" (number (uint16_be io))) 16 18
        ∷ attr_at (attr_class "tcp.urgent" "" (number (uint16_be io))) 18 20
        ∷ [];
  }

  -- The attributes of one option of kind 2 or more, of length `len`.
  unfoldable pub option_attrs : ℕ → ℕ → ℕ → List Attr
  option_attrs typ offset len =
      if typ == 2
      then attr_at options_mss_attr (offset + 2) (offset + len) ∷ []
      else if typ == 3
      then attr_at options_scale_attr (offset + 2) (offset + len) ∷ []
      else if typ == 4
      then attr_at options_sackp_attr offset (offset + len) ∷ []
      else if typ == 5
      then attr_at options_sack_attr (offset + 2) (offset + len) ∷ []
      else if typ == 8
      then attr_at options_ts_attr offset (offset + len)
        ∷ attr_at options_ts_my_attr (offset + 2) (offset + 6)
        ∷ attr_at options_ts_echo_attr (offset + 6) (offset + 10)
        ∷ []
      else []

  -- How the loop over the options ends: `none` when the fuel ran out.
  unfoldable pub options : ℕ → ByteSlice → ℕ → ℕ → List Attr → Option (Result (ℕ × List Attr))
  options zero bytes data_offset offset attrs = none
  options (suc fuel) bytes data_offset offset attrs =
      let nop = attrs ++ attr_at options_nop_attr offset (offset + 1) ∷ [] in
      let single = λ (typ : ℕ).
        options fuel bytes data_offset (offset + 1) (if typ == 1 then nop else attrs) in
      let longer = λ (typ : ℕ) (len : ℕ).
        options fuel bytes data_offset (offset + len) (attrs ++ option_attrs typ offset len) in
      let sized : ℕ → Option (Result (ℕ × List Attr)) = λ typ.
        elim (try_get_at bytes (offset + 1)) [ ok len ↦ longer typ len | err e ↦ some (err e) ] in
      let round : Option (Result (ℕ × List Attr)) = elim (try_get_at bytes offset) [
        | ok typ ↦ if leb typ 1 then single typ else sized typ
        | err e ↦ some (err e)
      ] in
      if ltb offset data_offset then round else some (ok (offset, attrs))

  -- The decoding of the payload; `f64_as_u64` stands in `try_into`.
  unfoldable pub decode_layer : (ℕ → ℕ) → ℕ → ByteSlice → Option (Result Layer)
  decode_layer f64_as_u64 fuel bytes =
      let layer = Layer.new tcp_class bytes in
      let finish : ℕ → ℕ × List Attr → Result Layer = λ data_offset (offset, attrs). do
        rest ← try_get_from bytes data_offset
        ok (
            add_payload (record layer { attrs = attrs ++ attr_at options_attr 20 offset ∷ [] })
              (payload rest "@data:tcp"))
      in let after : ℕ → Option (Result Layer) = λ data_offset.
        elim (options fuel bytes data_offset 20 []) [
          | some r ↦ some (r >>= finish data_offset)
          | none ↦ none
        ] in
        elim (try_get offset_attr_header bytes >>= try_into_u64 f64_as_u64) [
          | ok n ↦ after (n * 4)
          | err e ↦ some (err e)
        ]

  -- `TcpWorker::decode`; `none` where the loop has not ended within the fuel.
  unfoldable pub decode : (ℕ → ℕ) → ℕ → Parent → Option (Parent × Result Status)
  decode f64_as_u64 fuel parent = elim (find_payload "@data:tcp" parent) [
    | none ↦ some (parent, ok skip)
    | some p ↦ elim (decode_layer f64_as_u64 fuel p.bytes) [
      | none ↦ none
      | some (ok layer) ↦ some (add_child parent layer, ok done)
      | some (err e) ↦ some (parent, err e)
    ]
  ]
