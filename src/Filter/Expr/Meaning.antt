-- ===== src/Filter/Expr/Meaning.antt =====
-- `Expr::eval` of genet-filter/src/ast.rs on tokens: the layers are asked from the top.
use Prim.Native.String.{String}
use text.Mathlib.Text.{◌==◌ as str_eq}
use mathlib.Core.List.{reverse, reverse-cons}
use genet.Base.{
  ◌≡◌, refl, ap, ◌∙◌, Bool, true, false, ◌||◌, List, [], ◌∷◌, ◌++◌, none, if◌then◌else◌, Bool-cases,
  inl, inr, arith,
}
use genet.Kernel.Frame.{Frame}
use genet.Abi.Layer.{Layer, find_attr}
use genet.Filter.Value.{Numbers, is_truthy}
use genet.Filter.Expr.{token, layer_value, search_layers, eval, test}

-- A layer of that id.
abbrev pub has_layer : String → List Layer → Bool
has_layer t [] = false
has_layer t (layer ∷ rest) = if str_eq layer.class.id t then true else has_layer t rest

-- No header or attribute of these layers has that id.
abbrev pub LacksAttr : String → List Layer → Type 0
LacksAttr t [] = Unit {0}
LacksAttr t (layer ∷ rest) =
    (find_attr t (layer.class.headers ++ layer.attrs) ≡ none) × LacksAttr t rest

has_layer-append :
    (t : String) (xs ys : List Layer) → has_layer t (xs ++ ys) ≡ (has_layer t xs || has_layer t ys)
has_layer-append t [] ys = refl
has_layer-append t (x ∷ xs) ys = elim (Bool-cases (str_eq x.class.id t)) [
  | inl e ↦ rw e refl
  | inr e ↦ rw e (has_layer-append t xs ys)
]

search_layers-has_layer :
    (t : String) (layers : List Layer)
    → LacksAttr t layers
    → is_truthy (search_layers t layers) ≡ has_layer t layers
unfolding search_layers layer_value is_truthy
search_layers-has_layer t [] h = refl
search_layers-has_layer t (layer ∷ rest) h = ground (arith, h.0, search_layers-has_layer t rest h.1)

LacksAttr-append :
    (t : String) (xs ys : List Layer) → LacksAttr t xs → LacksAttr t ys → LacksAttr t (xs ++ ys)
LacksAttr-append t [] ys h k = k
LacksAttr-append t (x ∷ xs) ys h k = (h.0, LacksAttr-append t xs ys h.1 k)

LacksAttr-reverse : (t : String) (xs : List Layer) → LacksAttr t xs → LacksAttr t (reverse xs)
LacksAttr-reverse t [] h = tt
LacksAttr-reverse t (x ∷ xs) h =
    rw (reverse-cons x xs)
      (LacksAttr-append t (reverse xs) (x ∷ []) (LacksAttr-reverse t xs h.1) (h.0, tt))

or_if : (a b : Bool) → (a || (if b then true else false)) ≡ (if b then true else a)
or_if true true = refl
or_if true false = refl
or_if false true = refl
or_if false false = refl

has_layer-reverse : (t : String) (xs : List Layer) → has_layer t (reverse xs) ≡ has_layer t xs
has_layer-reverse t [] = refl
has_layer-reverse t (x ∷ xs) =
    ap (has_layer t) (reverse-cons x xs)
    ∙ has_layer-append t (reverse xs) (x ∷ [])
    ∙ or_if (has_layer t (reverse xs)) (str_eq x.class.id t)
    ∙ ap (λ b. if str_eq x.class.id t then true else b) (has_layer-reverse t xs)

module _ (nums : Numbers) where
  pub test-token :
      (t : String) (frame : Frame Layer)
      → LacksAttr t frame.layers
      → test nums (token t) frame ≡ has_layer t frame.layers
  unfolding test eval
  test-token t frame h =
      search_layers-has_layer t (reverse frame.layers) (LacksAttr-reverse t frame.layers h)
      ∙ has_layer-reverse t frame.layers
