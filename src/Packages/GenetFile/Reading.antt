-- ===== src/Packages/GenetFile/Reading.antt =====
-- package/genet-file/reader/src/lib.rs: what is read of the bytes of a header and of entries.
use Prim.Native.String.{String}
use genet.Base.{
  ℕ, zero, suc, ◌^◌, ◌<◌, ◌≡◌, refl, sym, ap, ◌∙◌, List, [], ◌∷◌, ◌++◌, Option, some, length,
  get_elem?, map, select, arith, append_assoc, append-nil, length-append, take-append_left,
  take-all, drop-append,
}
use genet.Base.Bytes.{to_bytes_le, length-to_bytes_le}
use genet.Abi.Result.{Result, ok}
use genet.Abi.Slice.{ByteSlice}
use genet.Abi.Attr.{Attr as LayerAttr, AttrClass as LayerAttrClass, is_value}
use genet.Abi.Layer.{Layer, new, add_attr}
use genet.Packages.{attr_with}
use genet.Packages.PcapFile.{bind_ok, value_class}
use genet.Packages.PcapFile.Reader.{Input}
use genet.Packages.GenetFile.{Attr, Entry, Bincode, from_variant, into_variant}
use genet.Packages.GenetFile.Reader.{
  Run, ◌>>=◌, unwrap, layer_class, add_attrs, read_usize, read_sized, read_entry, read_entries,
}
use genet.Packages.GenetFile.Represents.{value_in, AttrsEntered, IsEntered, AreEntered}
use genet.Packages.GenetFile.Ended.{AllSerialize, sized, entry_bytes}

-- What is kept of an attribute that holds a value, and of a layer: no cast, no range, and of a value
-- that is a big integer or a slice only that it was there.
abbrev saved_attr : ByteSlice → LayerAttr → LayerAttr
saved_attr bytes a =
    attr_with (value_class a.class.id a.class.typ) (into_variant (from_variant (value_in bytes a)))

abbrev pub saved : Layer → Layer
saved layer = record {
  class = layer_class layer.class.id;
  bytes = layer.bytes;
  attrs = map (saved_attr layer.bytes) (select is_value layer.attrs);
  payloads = [];
}

run_ok :
    {S A B : Type 0} (first : Run S A) (next : A → Run S B) {s s' : S} {a : A}
    {r : Option (Result B × S)}
    → first s ≡ some (ok a, s')
    → next a s' ≡ r
    → (first >>= next) s ≡ r
unfolding ◌>>=◌
run_ok first next e f = rw (◌>>=◌, e) f

get_elem?-map :
    {A B : Type 0} (f : A → B) (xs : List A) (i : ℕ) (x : A)
    → get_elem? xs i ≡ some x
    → get_elem? (map f xs) i ≡ some (f x)
get_elem?-map f [] i x e = absurd (cc)
get_elem?-map f (y ∷ ys) zero x e = ground (arith, e)
get_elem?-map f (y ∷ ys) (suc i) x e = get_elem?-map f ys i x e

abbrev pub classes_of : List (String × String) → List LayerAttrClass
classes_of = map λ a. value_class a.0 a.1

add_attrs_entered :
    (classes : List (String × String)) (bytes : ByteSlice) {fs : List Attr} {attrs : List LayerAttr}
    (layer : Layer)
    → AttrsEntered classes bytes fs attrs
    → add_attrs (classes_of classes) fs layer
      ≡ some (record layer { attrs = layer.attrs ++ map (saved_attr bytes) attrs })
unfolding add_attrs
add_attrs_entered classes bytes layer AttrsEntered.nil =
    ap (λ t. some (record layer { attrs = t })) (sym (append-nil layer.attrs))
add_attrs_entered classes bytes layer (AttrsEntered.cons {f} {a} {fs} {rest} c v t) =
    let class_found =
      get_elem?-map (λ (p : String × String). value_class p.0 p.1) classes f.index _ c in
    let more = add_attrs_entered classes bytes (add_attr layer (saved_attr bytes a)) t in
    rw (add_attrs, class_found, v)
      (more
        ∙ (unfold add_attr in
            ap (λ t. some (record layer { attrs = t }))
              (append_assoc layer.attrs (saved_attr bytes a ∷ []) _)))

module _ (input : Input) (bincode : Bincode) where
  read_exact-append : (xs rest : List ℕ) → input.read_exact (length xs) (xs ++ rest) ≡ (ok xs, rest)
  read_exact-append xs rest =
      input.read_exact_all (length xs) (xs ++ rest) (omega (arith, length-append xs rest))
      ∙ rw
          (
            take-append_left (length xs) xs rest (omega arith),
            take-all (length xs) xs (omega arith),
            drop-append xs rest,
          )
          refl

  read_usize_lem :
      (size rest : List ℕ) (n : ℕ)
      → length size ≡ 8
      → bincode.deserialize_usize size ≡ ok n
      → read_usize input bincode (size ++ rest) ≡ (ok n, rest)
  unfolding read_usize
  read_usize_lem size rest n h e =
      bind_ok _ _ (ap (λ r. (r, size ++ rest)) bincode.usize_size_lem) (
        bind_ok _ _
          (ap (λ k. input.read_exact k (size ++ rest)) (sym h) ∙ read_exact-append size rest)
          (ap (λ r. (r, rest)) e))

  pub read_sized_lem :
      (bin rest : List ℕ)
      → length bin < 2 ^ 64
      → read_sized input bincode (sized bin ++ rest) ≡ (ok bin, rest)
  unfolding read_sized
  read_sized_lem bin rest h =
      let size = to_bytes_le 8 (length bin) in
      bind_ok _ _
        (read_usize_lem size (bin ++ rest) (length bin) (length-to_bytes_le 8 (length bin))
          (bincode.deserialize_usize_lem (length bin) h))
        (read_exact-append bin rest)

  module _ (tokens : List String) (classes : List (String × String)) where
    read_entry_lem :
        {e : Entry} {layer : Layer} (bin rest : List ℕ)
        → IsEntered tokens classes e layer
        → bincode.deserialize_frame bin ≡ ok e.frame
        → length bin < 2 ^ 64
        → read_entry input bincode tokens (classes_of classes) (sized bin ++ (e.bytes ++ rest))
          ≡ some (ok (saved layer), rest)
    unfolding read_entry new
    read_entry_lem {e} {layer} bin rest h d fits =
        run_ok _ _ (ap some (read_sized_lem bin (e.bytes ++ rest) fits)) (
          run_ok _ _ (ap (λ r. some (r, e.bytes ++ rest)) d) (
            run_ok _ _ (ap some payload_read)
              (run_ok _ _ (ap (λ o. unwrap o rest) h.id) (ap (λ o. unwrap o rest) added))))
      where
        payload_read : input.read_exact e.frame.len (e.bytes ++ rest) ≡ (ok layer.bytes, rest)
        payload_read =
            (λ i. input.read_exact (h.len i) (h.bytes i ++ rest))
            ∙ read_exact-append layer.bytes rest

        added :
            add_attrs
              (classes_of classes)
              e.frame.attrs
              (new (layer_class layer.class.id) layer.bytes)
            ≡ some (saved layer)
        added =
            add_attrs_entered classes layer.bytes (new (layer_class layer.class.id) layer.bytes)
              h.attrs

    pub read_entries_lem :
        {es : List Entry} {layers : List Layer} (rest : List ℕ)
        → AreEntered tokens classes es layers
        → (frames : AllSerialize bincode es)
        → read_entries input bincode tokens
            (classes_of classes)
            (length es)
            (entry_bytes bincode es frames ++ rest)
          ≡ some (ok (map saved layers), rest)
    unfolding read_entries
    read_entries_lem rest AreEntered.nil frames = refl
    read_entries_lem rest (AreEntered.cons {e} {layer} {es} h t) frames =
        let bin = frames.0.bin in
        let more = entry_bytes bincode es frames.1 in
        let regroup : (sized bin ++ (e.bytes ++ more)) ++ rest
            ≡ sized bin ++ (e.bytes ++ (more ++ rest)) =
          append_assoc (sized bin) (e.bytes ++ more) rest
          ∙ ap (λ t. sized bin ++ t) (append_assoc e.bytes more rest) in
        run_ok _ _
          (ap (read_entry input bincode tokens (classes_of classes)) regroup
            ∙ read_entry_lem bin (more ++ rest) h
                (bincode.deserialize-serialize_frame e.frame bin frames.0.made) frames.0.fits)
          (run_ok _ _ (read_entries_lem rest t frames.1) refl)
