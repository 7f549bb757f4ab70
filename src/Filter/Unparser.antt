-- ===== src/Filter/Unparser.antt =====
-- genet-filter/src/unparser.rs, and `VariantExt::to_string` of variant.rs. How numbers, texts,
-- tokens and addresses are written is an argument.
pub mod Plain
use Prim.Native.String.{String, ◌++◌}
use text.Mathlib.Text.{◌==◌ as str_eq}
use genet.Base.{ℕ, Bool, true, false, List, if◌then◌else◌, length, ◌==◌}
use genet.Base.Int.{ℤ}
use genet.Base.Bytes.{of_bytes_be}
use genet.Abi.Variant.{Variant, bool, slice}
use genet.Filter.Expr.{
  Expr, literal, token, macro, cmp_eq, cmp_not_eq, cmp_lt, cmp_gt, cmp_lte, cmp_gte, logical_and,
  logical_or, logical_negation, unary_plus, unary_negation,
}

pub record Writers : Type 0 where
  -- `format!` of an `i64`, a `u64` and an `f64`
  pub write_i64 : ℤ → String
  pub write_u64 : ℕ → String
  pub write_f64 : ℕ → String
  -- `serde_json::to_string` and `BigInt::to_str_radix` in base 16
  pub write_json : List ℕ → String
  pub write_hex : ℕ → String
  pub write_ipv4 : List ℕ → String
  pub write_ipv6 : List ℕ → String
  pub write_hwaddr : List ℕ → String

module _ (writers : Writers) where
  open writers use {
    write_i64, write_u64, write_f64, write_json, write_hex, write_ipv4, write_ipv6, write_hwaddr,
  }

  -- `VariantExt::to_string`
  unfoldable pub variant_to_string : Variant → String
  variant_to_string Variant.nil = "nil"
  variant_to_string (Variant.bool v) = if v then "true" else "false"
  variant_to_string (Variant.int64 v) = write_i64 v
  variant_to_string (Variant.uint64 v) = write_u64 v
  variant_to_string (Variant.float64 v) = write_f64 v
  variant_to_string (Variant.string s) = write_json s
  variant_to_string (Variant.big_int b) = "0x" ++ write_hex (of_bytes_be b)
  variant_to_string (Variant.buffer b) = "0x" ++ write_hex (of_bytes_be b)
  variant_to_string (Variant.slice b) = "0x" ++ write_hex (of_bytes_be b)

  unfoldable pub unparse_attr : String → Variant → Expr
  unparse_attr typ (slice b) =
      if str_eq typ "@ipv4:addr"
      then (if length b == 4 then macro (write_ipv4 b) else literal (slice b))
      else if str_eq typ "@ipv6:addr"
      then (if length b == 16 then macro (write_ipv6 b) else literal (slice b))
      else if str_eq typ "@eth:mac"
      then (if length b == 6 then macro (write_hwaddr b) else literal (slice b))
      else literal (slice b)
  unparse_attr typ var = literal var

  unfoldable pub unparse : Expr → String
  unparse (literal var) = variant_to_string var
  unparse (token t) = t
  unparse (macro expr) = "@" ++ expr
  unparse (cmp_eq lhs (literal (bool true))) = unparse lhs
  unparse (cmp_eq lhs (literal (bool false))) = "!" ++ unparse lhs
  unparse (cmp_eq (literal (bool true)) rhs) = unparse rhs
  unparse (cmp_eq (literal (bool false)) rhs) = "!" ++ unparse rhs
  unparse (cmp_eq lhs rhs) = unparse lhs ++ " == " ++ unparse rhs
  unparse (cmp_not_eq lhs (literal (bool false))) = unparse lhs
  unparse (cmp_not_eq lhs (literal (bool true))) = "!" ++ unparse lhs
  unparse (cmp_not_eq (literal (bool false)) rhs) = unparse rhs
  unparse (cmp_not_eq (literal (bool true)) rhs) = "!" ++ unparse rhs
  unparse (cmp_not_eq lhs rhs) = unparse lhs ++ " != " ++ unparse rhs
  unparse (cmp_lt lhs rhs) = unparse lhs ++ " < " ++ unparse rhs
  unparse (cmp_gt lhs rhs) = unparse lhs ++ " > " ++ unparse rhs
  unparse (cmp_lte lhs rhs) = unparse lhs ++ " <= " ++ unparse rhs
  unparse (cmp_gte lhs rhs) = unparse lhs ++ " >= " ++ unparse rhs
  unparse (logical_and lhs rhs) = unparse lhs ++ " && " ++ unparse rhs
  unparse (logical_or lhs rhs) = unparse lhs ++ " || " ++ unparse rhs
  unparse (logical_negation expr) = "!" ++ unparse expr
  unparse (unary_plus expr) = "+" ++ unparse expr
  unparse (unary_negation expr) = "-" ++ unparse expr
