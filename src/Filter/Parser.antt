-- ===== src/Filter/Parser.antt =====
-- genet-filter/src/parser.rs and `Filter::compile` of genet-filter/src/lib.rs: filter texts. The
-- pest crate's parser and operator climber and the readers of numbers, texts and addresses are
-- arguments. `none` stands for a panic.
pub mod Grammar
pub mod Grouping
pub mod Trees
pub use Trees.*
use Prim.Native.Char.{code}
use Prim.Native.String.{String}
use mathlib.Core.Option
use text.Mathlib.Text.{◌==◌ as str_eq}
use genet.Base.{
  ℕ, zero, suc, ◌+◌, ◌-◌, ◌*◌, ◌≡◌, ◌≢◌, ◌⊎◌, inl, inr, Bool, true, false, List, [], ◌∷◌, Option,
  none, some, if◌then◌else◌, ◌==◌, ltb, leb, ◌&&◌, ◌≤◌, length,
}
use genet.Base.Int.{ℤ, pos}
use genet.Abi.Variant.{Variant}
use genet.Filter.Value.{Numbers, shrink}
use genet.Filter.Expr.{Expr}

-- `&s[n..]`, where the first n characters are ASCII
abbrev pub skip : ℕ → String → String
skip zero s = s
skip (suc n) String.[] = String.[]
skip (suc n) (String.◌∷◌ c s) = skip n s

-- The closure `infix` of `consume_expr`.
unfoldable pub infix_expr : Infix
infix_expr lhs Rule.op_lt rhs = Expr.cmp_lt lhs rhs
infix_expr lhs Rule.op_lte rhs = Expr.cmp_lte lhs rhs
infix_expr lhs Rule.op_gt rhs = Expr.cmp_gt lhs rhs
infix_expr lhs Rule.op_gte rhs = Expr.cmp_gte lhs rhs
infix_expr lhs Rule.op_eq rhs = Expr.cmp_eq lhs rhs
infix_expr lhs Rule.op_ne rhs = Expr.cmp_not_eq lhs rhs
infix_expr lhs Rule.op_logical_and rhs = Expr.logical_and lhs rhs
infix_expr lhs Rule.op_logical_or rhs = Expr.logical_or lhs rhs
infix_expr lhs _ rhs = Expr.literal Variant.nil

-- The table that `consume_expr` gives to the climber.
abbrev pub operators : List (List Rule)
operators =
    (Rule.op_lt ∷ Rule.op_lte ∷ Rule.op_gt ∷ Rule.op_gte ∷ [])
    ∷ (Rule.op_eq ∷ Rule.op_ne ∷ [])
    ∷ (Rule.op_logical_and ∷ [])
    ∷ (Rule.op_logical_or ∷ [])
    ∷ []

pub data Compiled : Type 0 where
  compiled : Expr → Compiled
  rejected : String → Compiled
  panicked : Compiled

module _ (nums : Numbers) (readers : Readers) where
  open nums use {to_signed}
  open readers use {
    parse_filter, from_str_radix, json_string, parse_float, parse_ipv4, parse_ipv6, parse_hwaddr,
    climb,
  }

  unfoldable pub parse_macro : String → Expr
  parse_macro exp = elim (parse_ipv4 exp) [
    | some addr ↦ Expr.literal (Variant.buffer addr)
    | none ↦ elim (parse_ipv6 exp) [
      | some addr ↦ Expr.literal (Variant.buffer addr)
      | none ↦ elim (parse_hwaddr exp) [
        | some addr ↦ Expr.literal (Variant.buffer addr)
        | none ↦ Expr.macro exp
      ]
    ]
  ]

  -- `from_str_radix(..).unwrap()`, made small
  unfoldable pub integer_literal : ℕ → String → Option Expr
  integer_literal radix s =
      Option.map (λ v. Expr.literal (shrink nums (Variant.big_int (to_signed v))))
        (from_str_radix radix s)

  abbrev climb_operands : Option (List (Rule × Expr)) → Option Expr
  climb_operands none = none
  climb_operands (some items) = climb operators infix_expr items

  unfoldable mutual
    -- The closure `primary` on each pair of an expression.
    pub consume_operands : Pairs → Option (List (Rule × Expr))
    consume_operands end = some []
    consume_operands (next (pair Rule.primary s inner) rest) = elim (consume_items inner) [
      | some (some e) ↦ Option.map (λ es. (Rule.primary, e) ∷ es) (consume_operands rest)
      | _ ↦ none
    ]
    consume_operands (next (pair r _ _) rest) =
        Option.map (λ es. (r, Expr.literal Variant.nil) ∷ es) (consume_operands rest)

    -- The loop of `consume_primary`, from the last pair to the first.
    pub consume_items : Pairs → Option (Option Expr)
    consume_items end = some none
    consume_items (next item rest) = elim (consume_items rest) [
      | none ↦ none
      | some result ↦ Option.map some (consume_item item result)
    ]

    pub consume_item : Pair → Option Expr → Option Expr
    consume_item (pair Rule.expression s inner) result = climb_operands (consume_operands inner)
    consume_item (pair Rule.op_unary_plus _ _) result = Option.map Expr.unary_plus result
    consume_item (pair Rule.op_unary_negation _ _) result = Option.map Expr.unary_negation result
    consume_item (pair Rule.op_logical_negation _ _) result =
        Option.map Expr.logical_negation result
    consume_item (pair Rule.bin_integer s _) result = integer_literal 2 (skip 2 s)
    consume_item (pair Rule.oct_integer s _) result = integer_literal 8 (skip 2 s)
    consume_item (pair Rule.hex_integer s _) result = integer_literal 16 (skip 2 s)
    consume_item (pair Rule.dec_integer s _) result = integer_literal 10 s
    consume_item (pair Rule.string s _) result =
        Option.map (λ v. Expr.literal (Variant.string v)) (json_string s)
    consume_item (pair Rule.macro_exp s _) result = some (parse_macro (skip 1 s))
    consume_item (pair Rule.float s _) result =
        Option.map (λ v. Expr.literal (Variant.float64 v)) (parse_float s)
    consume_item (pair Rule.nil _ _) result = some (Expr.literal Variant.nil)
    consume_item (pair Rule.boolean s _) result =
        some (Expr.literal (Variant.bool (str_eq s "true")))
    consume_item (pair Rule.member s _) result = some (Expr.token s)
    consume_item _ result = some (Expr.literal Variant.nil)

  unfoldable pub consume_expr : Pair → Option Expr
  consume_expr (pair _ _ inner) = climb_operands (consume_operands inner)

  -- `parse`
  abbrev first_inner : Pairs → Option Pair
  first_inner (next (pair _ _ (next item _)) _) = some item
  first_inner _ = none

  -- `Filter::compile`, whose error is the parser's message.
  unfoldable pub compile : String → Compiled
  compile text = elim (parse_filter text) [
    | inl message ↦ rejected message
    | inr pairs ↦ elim (first_inner pairs) [
      | none ↦ panicked
      | some item ↦ elim (consume_expr item) [ some expr ↦ compiled expr | none ↦ panicked ]
    ]
  ]
