-- ===== src/Filter/Expr.antt =====
-- genet-filter/src/ast.rs, context.rs and lib.rs: filter expressions, their evaluation over the
-- layers of a frame, and the test of a filter. A token is written as its text.
pub mod Meaning
pub mod Topmost
use Prim.Native.String.{String}
use text.Mathlib.Text.{◌==◌ as str_eq}
use mathlib.Core.List.{reverse}
use genet.Base.{
  ℕ, Bool, true, false, not, ◌&&◌, ◌||◌, List, [], ◌∷◌, ◌++◌, Option, none, some, if◌then◌else◌,
}
use genet.Kernel.Frame.{Frame}
use genet.Abi.Result.{Result, ok, err}
use genet.Abi.Variant.{Variant, nil, bool}
use genet.Abi.Attr.{Attr, try_get}
use genet.Abi.Layer.{Layer, find_attr}
use genet.Filter.Value.{
  Numbers, is_truthy, op_unary_plus, op_unary_negation, op_eq, op_lt, op_gt, op_lte, op_gte,
}

pub data Expr : Type 0 where
  literal : Variant → Expr
  token : String → Expr
  macro : String → Expr
  cmp_eq cmp_not_eq cmp_lt cmp_gt cmp_lte cmp_gte : Expr → Expr → Expr
  logical_and logical_or : Expr → Expr → Expr
  logical_negation unary_plus unary_negation : Expr → Expr

-- What one layer says of a token: `none` where the search goes on.
unfoldable pub layer_value : String → Layer → Option Variant
layer_value t layer =
    let read : Option Variant = elim (find_attr t (layer.class.headers ++ layer.attrs)) [
      | none ↦ none
      | some a ↦ elim (try_get a layer.bytes) [ ok val ↦ some val | err e ↦ none ]
    ] in
    if str_eq layer.class.id t then some (bool true) else read

-- `for layer in ctx.layers().iter().rev()`
unfoldable pub search_layers : String → List Layer → Variant
search_layers t [] = nil
search_layers t (layer ∷ rest) = elim (layer_value t layer) [
  | some val ↦ val
  | none ↦ search_layers t rest
]

module _ (nums : Numbers) where
  -- `Expr::eval`
  unfoldable pub eval : List Layer → Expr → Variant
  eval ctx (literal v) = v
  eval ctx (cmp_eq l r) = bool (op_eq nums (eval ctx l) (eval ctx r))
  eval ctx (cmp_not_eq l r) = bool (not (op_eq nums (eval ctx l) (eval ctx r)))
  eval ctx (cmp_lt l r) = bool (op_lt nums (eval ctx l) (eval ctx r))
  eval ctx (cmp_gt l r) = bool (op_gt nums (eval ctx l) (eval ctx r))
  eval ctx (cmp_lte l r) = bool (op_lte nums (eval ctx l) (eval ctx r))
  eval ctx (cmp_gte l r) = bool (op_gte nums (eval ctx l) (eval ctx r))
  eval ctx (logical_and l r) = bool (is_truthy (eval ctx l) && is_truthy (eval ctx r))
  eval ctx (logical_or l r) = bool (is_truthy (eval ctx l) || is_truthy (eval ctx r))
  eval ctx (logical_negation v) = bool (not (is_truthy (eval ctx v)))
  eval ctx (unary_plus v) = op_unary_plus (eval ctx v)
  eval ctx (unary_negation v) = op_unary_negation nums (eval ctx v)
  eval ctx (token t) = search_layers t (reverse ctx)
  eval ctx (macro m) = nil

  -- `Filter::test`, on the layers of a frame.
  unfoldable pub test : Expr → Frame Layer → Bool
  test expr frame = is_truthy (eval frame.layers expr)
