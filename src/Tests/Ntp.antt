-- ===== src/Tests/Ntp.antt =====
-- The beginning of an NTP packet.
use genet.Base.{ℕ, ◌≡◌, refl, [], ◌∷◌, some, length, leb, if◌then◌else◌}
use genet.Abi.Result.{ok, err, out_of_bounds, describe}
use genet.Abi.Slice.{ByteSlice}
use genet.Sdk.Cast.{cursor}
use genet.Packages.Ntp.{Floats, get_mode, decode_layer}
use genet.Packages.Ntp.Bounds.{ntp_layer, decode_layer-ntp_layer}
use genet.Packages.{no_value_class}

abbrev floats : Floats
floats = record {
  of_u64 = λ n. n;
  add = λ a b. a;
  div = λ a b. a;
  two_16 = 65536;
  two_32 = 4294967296;
}

abbrev float_bits : ℕ → ℕ
float_bits n = n

-- No warning, version 4, a client, of stratum 2.
abbrev packet : ByteSlice
packet = 0x23 ∷ 2 ∷ 6 ∷ []

decode_layer-ntp_layer_example : decode_layer cursor floats float_bits packet ≡ (
    if leb 2 (length packet)
    then ok (ntp_layer cursor floats float_bits packet)
    else err (describe out_of_bounds))
decode_layer-ntp_layer_example = decode_layer-ntp_layer cursor floats float_bits packet

mode_of_packet : get_mode 3 ≡ some (no_value_class "ntp.mode.client")
unfolding get_mode
mode_of_packet = refl
