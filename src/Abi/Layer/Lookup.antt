-- ===== src/Abi/Layer/Lookup.antt =====
-- Attribute lookup of genet-abi/src/layer.rs after attributes are added.
use Prim.Native.String.{String}
use text.Mathlib.Text.{◌==◌ as str_eq}
use mathlib.Core.List.{reverse-append}
use genet.Base.{◌≡◌, refl, List, [], ◌∷◌, ◌++◌, none, some, if◌then◌else◌, arith, append_assoc}
use genet.Abi.Attr.{Attr}
use genet.Abi.Layer.{Layer, add_attr, resolve, find_attr, attr, stack_attr}

find_attr-append :
    (id : String) (xs ys : List Attr)
    → find_attr id (xs ++ ys)
      ≡ (elim (find_attr id xs) [ some a ↦ some a | none ↦ find_attr id ys ])
unfolding find_attr
find_attr-append id [] ys = refl
find_attr-append id (x ∷ xs) ys = ground (arith, find_attr-append id xs ys)

-- A name, its alias resolved, looked up in a layer that got one more attribute: an attribute added
-- before wins over the new one, and the new one wins over the class's headers.
pub attr-add_attr :
    (layer : Layer) (a : Attr) (id : String)
    → attr (add_attr layer a) id ≡ (elim (find_attr (resolve layer.class.aliases id) layer.attrs) [
      | some old ↦ some old
      | none ↦
          if str_eq a.class.id (resolve layer.class.aliases id)
          then some a
          else find_attr (resolve layer.class.aliases id) layer.class.headers
    ])
unfolding attr add_attr find_attr
attr-add_attr layer a id =
    let name = resolve layer.class.aliases id in
    let headers = layer.class.headers in
    ground (
      arith,
      append_assoc layer.attrs (a ∷ []) headers,
      find_attr-append name layer.attrs (a ∷ headers),
    )

-- The stack asks its layers from the top: a layer on top answers first.
pub stack_attr-push :
    (stack : List Layer) (layer : Layer) (id : String)
    → stack_attr (stack ++ layer ∷ []) id
      ≡ (elim (attr layer id) [ some a ↦ some a | none ↦ stack_attr stack id ])
unfolding stack_attr
stack_attr-push stack layer id = rw (reverse-append stack (layer ∷ []))
