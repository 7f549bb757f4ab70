-- ===== src/Packages/Reading.antt =====
-- What a number attribute of a decoder reads out of the layer's bytes.
use Prim.Native.String.{String}
use genet.Base.{ℕ, ◌+◌, ◌*◌, ◌/◌, ◌≤◌, ◌≡◌, true, [], ◌∷◌, length, take, drop, some, arith}
use genet.Base.Bytes.{of_bytes_be}
use genet.Abi.Result.{Result, ok}
use genet.Abi.Slice.{ByteSlice}
use genet.Abi.Variant.{uint64}
use genet.Abi.Attr.{Attr, byte_range, bytes_of, attr_value, try_get}
use genet.Abi.Layer.{Layer, attr, find_payload, add_child, from_mut_ref}
use text.Mathlib.Text.{◌==◌ as str_eq}
use genet.Sdk.Cast.{ByteOrder, map_cast, uint_be, uint_be-inside}
use genet.Packages.{done, payload, number, attr_class, attr_at, decode_payload}

-- The attribute of that name is there and reads as `n`.
abbrev pub Reads : Layer → String → ℕ → Type 0
Reads layer name n =
    (a : Attr) × (attr layer name ≡ some a) × (try_get a layer.bytes ≡ ok (uint64 n))

pub bytes_of-byte_range :
    (start end : ℕ) → bytes_of (byte_range start end) ≡ record { start = start; end = end }
unfolding bytes_of byte_range
bytes_of-byte_range start end =
    let low : start * 8 / 8 ≡ start = omega arith in
    let high : (end * 8 + 7) / 8 ≡ end = omega arith in rw (low, high)

module _ (io : ByteOrder) where
  pub try_get-number :
      (id typ : String) (w start end : ℕ) (bytes : ByteSlice)
      → start + w ≤ end
      → end ≤ length bytes
      → try_get (attr_at (attr_class id typ (number (uint_be io w))) start end) bytes
        ≡ ok (uint64 (of_bytes_be (take w (drop start bytes))))
  unfolding try_get attr_value map_cast
  try_get-number id typ w start end bytes h k =
      rw (bytes_of-byte_range start end, uint_be-inside io w start end bytes h k)

-- A decoder finds the payload it is meant for when it is the layer's only one.
pub decode_payload-only :
    (id : String) (bytes : ByteSlice) (decode_layer : ByteSlice → Result Layer)
    (layer child : Layer)
    → str_eq id id ≡ true
    → layer.payloads ≡ payload bytes id ∷ []
    → decode_layer bytes ≡ ok child
    → decode_payload id decode_layer (from_mut_ref layer)
      ≡ (record { layer = layer; children = child ∷ [] }, ok done)
unfolding find_payload from_mut_ref add_child
decode_payload-only id bytes decode_layer layer child same only e = simp (only, same, e)
