-- ===== src/Packages/Tcp/Ends.antt =====
-- Termination of the TCP decoder, package/tcp/tcp/src/lib.rs.
use genet.Base.{ℕ, suc, ◌*◌, ◌≡◌, ◌⊎◌, inl, inr, refl, [], none, some, arith, Option-cases}
use genet.Abi.Result.{Result, ok, err, ◌>>=◌, Result-cases}
use genet.Abi.Slice.{ByteSlice}
use genet.Abi.Variant.{try_into_u64}
use genet.Abi.Attr.{try_get}
use genet.Abi.Layer.{Layer, Parent, Payload, find_payload, add_child}
use genet.Sdk.Cast.{ByteOrder}
use genet.Packages.{Status, done, skip}
use genet.Packages.Tcp.{offset_attr_header, decode_layer, decode}
use genet.Packages.Tcp.Options.{Stuck, Reaches, options-Ends}

module _ (io : ByteOrder) where
  module _ (f64_as_u64 : ℕ → ℕ) where
    -- Stepping over the options from byte 20 to the data offset that the header gives, the loop comes
    -- to an option of kind 2 or more with the length 0.
    abbrev pub HasStuck : ByteSlice → Type 0
    HasStuck bytes =
        (n : ℕ) × (try_get (offset_attr_header io) bytes >>= try_into_u64 f64_as_u64 ≡ ok n)
        × (at : ℕ) × Reaches bytes (n * 4) at 20
        × Stuck bytes at

    decode_layer-ends :
        (bytes : ByteSlice)
        → ((fuel : ℕ) × (r : Result Layer) × (decode_layer io f64_as_u64 fuel bytes ≡ some r))
          ⊎ (HasStuck bytes × ((fuel : ℕ) → decode_layer io f64_as_u64 fuel bytes ≡ none))
    unfolding decode_layer
    decode_layer-ends bytes =
        elim (Result-cases (try_get (offset_attr_header io) bytes >>= try_into_u64 f64_as_u64)) [
          | inr (e, failed) ↦ inl (0, err e, rw (decode_layer, failed) refl)
          | inl (n, read) ↦ elim (options-Ends io (suc (n * 4)) bytes (n * 4) 20 [] (omega arith)) [
            | inl (r, e) ↦ elim (Option-cases (decode_layer io f64_as_u64 (suc (n * 4)) bytes)) [
              | inl bad ↦ absurd (let no = rw (decode_layer, read, e) at bad in cc)
              | inr (layer, q) ↦ inl (suc (n * 4), layer, q)
            ]
            | inr (at, r, s, never) ↦
                inr ((n, read, at, r, s), λ fuel. rw (decode_layer, read, never fuel) refl)
          ]
        ]

    -- With enough fuel the decoder has a result for every parent, unless the options of the parent's
    -- TCP payload, read one after the other from byte 20 to the data offset that its header gives,
    -- come to one of kind 2 or more with the length byte 0; then it has none with any fuel.
    pub decode-ends :
        (parent : Parent)
        → ((fuel : ℕ) × (r : Parent × Result Status) × (decode io f64_as_u64 fuel parent ≡ some r))
          ⊎ ((p : Payload) × (find_payload "@data:tcp" parent ≡ some p)
              × HasStuck p.bytes
              × ((fuel : ℕ) → decode io f64_as_u64 fuel parent ≡ none))
    unfolding decode
    decode-ends parent = elim (Option-cases (find_payload "@data:tcp" parent)) [
      | inl missing ↦ inl (0, (parent, ok skip), rw (decode, missing) refl)
      | inr (p, found) ↦ elim (decode_layer-ends p.bytes) [
        | inl (fuel, ok layer, e) ↦
            inl (fuel, (add_child parent layer, ok done), rw (decode, found, e) refl)
        | inl (fuel, err error, e) ↦ inl (fuel, (parent, err error), rw (decode, found, e) refl)
        | inr (stuck, never) ↦ inr (p, found, stuck, λ fuel. rw (decode, found, never fuel) refl)
      ]
    ]
