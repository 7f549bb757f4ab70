-- ===== src/Filter/Expr/Topmost.antt =====
-- `Expr::eval` of genet-filter/src/ast.rs on tokens: which layer gives the value.
use Prim.Native.String.{String}
use text.Mathlib.Text.{◌==◌ as str_eq}
use mathlib.Core.List.{reverse, reverse-cons, reverse-append, reverse-reverse}
use genet.Base.{
  ◌≡◌, refl, ap, sym, subst, ◌∙◌, ◌⊎◌, true, false, List, [], ◌∷◌, ◌++◌, none, some, append_assoc,
  Bool-cases, Option-cases, inl, inr,
}
use genet.Abi.Result.{Error, ok, err, Result-cases}
use genet.Abi.Variant.{Variant, nil, bool}
use genet.Abi.Attr.{Attr, try_get}
use genet.Abi.Layer.{Layer, find_attr}
use genet.Filter.Value.{Numbers}
use genet.Filter.Expr.{token, layer_value, search_layers, eval}

-- What a layer says of a token: its own id stands for `true`, and comes before the first header or
-- attribute of that name, which stands for its value where it can be read.
abbrev pub Says : String → Layer → Variant → Type 0
Says t layer v =
    ((str_eq layer.class.id t ≡ true) × (v ≡ bool true))
    ⊎ ((str_eq layer.class.id t ≡ false)
        × ((a : Attr) × (find_attr t (layer.class.headers ++ layer.attrs) ≡ some a)
            × (try_get a layer.bytes ≡ ok v)))

-- A layer that has another id, and no header or attribute of that name or one that cannot be read.
abbrev pub IsSilent : String → Layer → Type 0
IsSilent t layer =
    (str_eq layer.class.id t ≡ false)
    × ((find_attr t (layer.class.headers ++ layer.attrs) ≡ none)
        ⊎ ((a : Attr) × (find_attr t (layer.class.headers ++ layer.attrs) ≡ some a)
            × ((e : Error) × (try_get a layer.bytes ≡ err e))))

abbrev pub AreSilent : String → List Layer → Type 0
AreSilent t [] = Unit {0}
AreSilent t (layer ∷ rest) = IsSilent t layer × AreSilent t rest

AreSilent-append :
    (t : String) (xs ys : List Layer) → AreSilent t xs → AreSilent t ys → AreSilent t (xs ++ ys)
AreSilent-append t [] ys h k = k
AreSilent-append t (x ∷ xs) ys h k = (h.0, AreSilent-append t xs ys h.1 k)

AreSilent-reverse : (t : String) (xs : List Layer) → AreSilent t xs → AreSilent t (reverse xs)
AreSilent-reverse t [] h = tt
AreSilent-reverse t (x ∷ xs) h =
    rw (reverse-cons x xs)
      (AreSilent-append t (reverse xs) (x ∷ []) (AreSilent-reverse t xs h.1) (h.0, tt))

Says-or-IsSilent :
    (t : String) (layer : Layer)
    → ((v : Variant) × Says t layer v × (layer_value t layer ≡ some v))
      ⊎ (IsSilent t layer × (layer_value t layer ≡ none))
unfolding layer_value
Says-or-IsSilent t layer = elim (Bool-cases (str_eq layer.class.id t)) [
  | inl own ↦ inl (bool true, inl (own, refl), rw own refl)
  | inr other ↦ elim (Option-cases (find_attr t (layer.class.headers ++ layer.attrs))) [
    | inl missing ↦ inr ((other, inl missing), rw (other, missing) refl)
    | inr (a, found) ↦ elim (Result-cases (try_get a layer.bytes)) [
      | inl (v, read) ↦ inl (v, inr (other, (a, found, read)), rw (other, found, read) refl)
      | inr (e, failed) ↦ inr ((other, inr (a, found, (e, failed))), rw (other, found, failed) refl)
    ]
  ]
]

-- The first of some layers that says something, and what it says; or none says anything.
abbrev pub Topmost : String → List Layer → Variant → Type 0
Topmost t layers v =
    ((above : List Layer) × (layer : Layer) × (below : List Layer) × (layers
        ≡ above ++ layer ∷ below)
      × AreSilent t above
      × Says t layer v)
    ⊎ (AreSilent t layers × (v ≡ nil))

search_layers-Topmost :
    (t : String) (layers : List Layer) → Topmost t layers (search_layers t layers)
unfolding search_layers
search_layers-Topmost t [] = inr (tt, refl)
search_layers-Topmost t (layer ∷ rest) = elim (Says-or-IsSilent t layer) [
  | inl (v, says, e) ↦ inl ([], layer, rest, refl, tt, rw (search_layers, e) says)
  | inr (silent, e) ↦
      let same : search_layers t (layer ∷ rest) ≡ search_layers t rest =
        rw (search_layers, e) refl in
      elim (search_layers-Topmost t rest) [
        | inl (above, l, below, q, silents, says) ↦ inl (
          layer ∷ above,
          l,
          below,
          ap (λ ls. layer ∷ ls) q,
          (silent, silents),
          subst (Says t l) (sym same) says,
        )
        | inr (silents, q) ↦ inr ((silent, silents), same ∙ q)
      ]
]

module _ (nums : Numbers) where
  -- The value of a token in a stack of layers is what the topmost layer says that says anything of
  -- it: `true` where its own id is the token, else the value of its first header or attribute of
  -- that name, if it can be read. The layers above it have other ids, and no such attribute or one
  -- that cannot be read. Where all layers are like this the value is `nil`.
  pub eval-token :
      (t : String) (layers : List Layer)
      → ((below : List Layer) × (layer : Layer) × (above : List Layer) × (layers
            ≡ below ++ layer ∷ above)
          × AreSilent t above
          × Says t layer (eval nums layers (token t)))
        ⊎ (AreSilent t layers × (eval nums layers (token t) ≡ nil))
  unfolding eval
  eval-token t layers = elim (search_layers-Topmost t (reverse layers)) [
    | inl (above, layer, below, q, silent, says) ↦ inl (
      reverse below,
      layer,
      reverse above,
      sym (reverse-reverse layers)
          ∙ ap reverse q
          ∙ reverse-append above (layer ∷ below)
          ∙ ap (λ ls. ls ++ reverse above) (reverse-cons layer below)
          ∙ append_assoc (reverse below) (layer ∷ []) (reverse above),
      AreSilent-reverse t above silent,
      says,
    )
    | inr (silent, q) ↦ inr (
      subst (AreSilent t) (reverse-reverse layers) (AreSilent-reverse t (reverse layers) silent),
      q,
    )
  ]
