-- ===== src/Abi/Layer.antt =====
-- genet-abi/src/layer.rs: layers, their attributes with aliases, payloads, the layer stack and the
-- parent that a decoder works on. A token is written as the text it stands for (module Token).
pub mod Lookup
use Prim.Native.String.{String}
use text.Mathlib.Text.{◌==◌ as str_eq}
use mathlib.Core.List.{reverse, head?}
use genet.Base.{ℕ, List, [], ◌∷◌, ◌++◌, Bool, Option, none, some, find, get_elem?, if◌then◌else◌}
use genet.Abi.Slice.{ByteSlice}
use genet.Abi.Attr.{Attr, AttrClass}

pub record Alias : Type 0 where
  pub id : String
  pub target : String

pub record LayerClass : Type 0 where
  pub id : String
  pub aliases : List Alias
  pub headers : List Attr

pub record Payload : Type 0 where
  pub bytes : ByteSlice
  pub id : String
  pub typ : String

pub record Layer : Type 0 where
  pub class : LayerClass
  pub bytes : ByteSlice
  pub attrs : List Attr
  pub payloads : List Payload

-- `Layer::new`
unfoldable pub new : LayerClass → ByteSlice → Layer
new class bytes = record { class = class; bytes = bytes; attrs = []; payloads = [] }

unfoldable pub add_attr : Layer → Attr → Layer
add_attr layer attr = record layer { attrs = layer.attrs ++ attr ∷ [] }

unfoldable pub add_payload : Layer → Payload → Layer
add_payload layer payload = record layer { payloads = layer.payloads ++ payload ∷ [] }

-- The first alias of that name, and otherwise the name itself.
unfoldable pub resolve : List Alias → String → String
resolve [] id = id
resolve (a ∷ rest) id = if str_eq a.id id then a.target else resolve rest id

unfoldable pub find_attr : String → List Attr → Option Attr
find_attr id = find λ a. str_eq a.class.id id

-- `Layer::attr`
unfoldable pub attr : Layer → String → Option Attr
attr layer id = find_attr (resolve layer.class.aliases id) (layer.attrs ++ layer.class.headers)

-- `LayerStack`, bottom first.
abbrev first_attr : String → List Layer → Option Attr
first_attr id [] = none
first_attr id (layer ∷ rest) = elim (attr layer id) [ some a ↦ some a | none ↦ first_attr id rest ]

unfoldable pub stack_attr : List Layer → String → Option Attr
stack_attr stack id = first_attr id (reverse stack)

unfoldable pub top : List Layer → Option Layer
top stack = head? (reverse stack)

unfoldable pub bottom : List Layer → Option Layer
bottom stack = head? stack

unfoldable pub stack_layer : List Layer → String → Option Layer
stack_layer stack id = find (λ layer. str_eq layer.class.id id) stack

-- `Parent`
pub record Parent : Type 0 where
  pub layer : Layer
  pub children : List Layer

unfoldable pub from_mut_ref : Layer → Parent
from_mut_ref layer = record { layer = layer; children = [] }

unfoldable pub add_child : Parent → Layer → Parent
add_child parent layer = record parent { children = parent.children ++ layer ∷ [] }

-- `parent.payloads().iter().find(|p| p.id() == id)`
unfoldable pub find_payload : String → Parent → Option Payload
find_payload id parent = find (λ p. str_eq p.id id) parent.layer.payloads
