-- ===== src/Packages/GenetFile/Represents.antt =====
-- package/genet-file: the entries of a file that stand for layers.
use Prim.Native.String.{String}
use genet.Base.{◌≡◌, List, [], ◌∷◌, some, length, get_elem?, select}
use genet.Abi.Result.{ok, err}
use genet.Abi.Slice.{ByteSlice}
use genet.Abi.Variant.{Variant}
use genet.Abi.Attr.{Attr as LayerAttr, is_value, try_get}
use genet.Abi.Layer.{Layer}
use genet.Packages.GenetFile.{Attr, Entry, from_variant}
use genet.Packages.GenetFile.Tables.{Extends, get_elem?-Extends}

-- What an attribute reads as, and `nil` where it cannot be read.
abbrev pub value_in : ByteSlice → LayerAttr → Variant
value_in bytes a = elim (try_get a bytes) [ ok v ↦ v | err e ↦ Variant.nil ]

abbrev pub AreReadable : ByteSlice → List LayerAttr → Type 0
AreReadable bytes [] = Unit
AreReadable bytes (a ∷ rest) = (try_get a bytes ≡ ok (value_in bytes a)) × AreReadable bytes rest

-- A file attribute for each attribute, with a class of its name and type and its value.
pub data AttrsEntered (classes : List (String × String)) (bytes : ByteSlice)
    : List Attr → List LayerAttr → Type 0 where
  nil : AttrsEntered classes bytes [] []
  cons :
      {f : Attr} {a : LayerAttr} {fs : List Attr} {rest : List LayerAttr}
      → get_elem? classes f.index ≡ some (a.class.id, a.class.typ)
      → f.value ≡ from_variant (value_in bytes a)
      → AttrsEntered classes bytes fs rest
      → AttrsEntered classes bytes (f ∷ fs) (a ∷ rest)

pub record IsEntered (tokens : List String) (classes : List (String × String)) (e : Entry)
    (layer : Layer) : Type 0 where
  pub id : get_elem? tokens e.frame.id ≡ some layer.class.id
  pub len : e.frame.len ≡ length layer.bytes
  pub bytes : e.bytes ≡ layer.bytes
  pub attrs : AttrsEntered classes layer.bytes e.frame.attrs (select is_value layer.attrs)

pub data AreEntered (tokens : List String) (classes : List (String × String))
    : List Entry → List Layer → Type 0 where
  nil : AreEntered tokens classes [] []
  cons :
      {e : Entry} {layer : Layer} {es : List Entry} {layers : List Layer}
      → IsEntered tokens classes e layer
      → AreEntered tokens classes es layers
      → AreEntered tokens classes (e ∷ es) (layer ∷ layers)

AttrsEntered-Extends :
    (classes more : List (String × String)) (bytes : ByteSlice) {fs : List Attr}
    {rest : List LayerAttr}
    → Extends classes more
    → AttrsEntered classes bytes fs rest
    → AttrsEntered more bytes fs rest
AttrsEntered-Extends classes more bytes x nil = nil
AttrsEntered-Extends classes more bytes x (cons {f} {a} c v t) =
    cons (get_elem?-Extends classes more f.index _ x c) v
      (AttrsEntered-Extends classes more bytes x t)

pub IsEntered-Extends :
    (tokens tokens' : List String) (classes classes' : List (String × String)) {e : Entry}
    {layer : Layer}
    → Extends tokens tokens'
    → Extends classes classes'
    → IsEntered tokens classes e layer
    → IsEntered tokens' classes' e layer
IsEntered-Extends tokens tokens' classes classes' {e} {layer} x y h = record {
  id = get_elem?-Extends tokens tokens' e.frame.id layer.class.id x h.id;
  len = h.len;
  bytes = h.bytes;
  attrs = AttrsEntered-Extends classes classes' layer.bytes y h.attrs;
}
