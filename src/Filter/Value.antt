-- ===== src/Filter/Value.antt =====
-- genet-filter/src/variant.rs: what a filter does with values. The crate `num_bigint`, whose numbers
-- are the integers, and the operations on `f64`, whose values are bit patterns, are arguments.
pub mod Order
use Prim.Native.Nat.{compare, Ordering}
use genet.Base.{
  ℕ, zero, suc, ◌%◌, ◌^◌, ◌≡◌, Bool, true, false, ◌&&◌, List, [], ◌∷◌, Option, none, some,
  if◌then◌else◌, ltb, ◌==◌,
}
use genet.Base.Bytes.{of_bytes_be}
use genet.Base.Int.{ℤ, pos, negsuc, to_bits, of_bits}
use genet.Abi.Variant.{Variant, nil, bool, int64, uint64, float64, string, big_int, buffer, slice}

pub record Numbers : Type 0 where
  -- `BigInt::from_signed_bytes_be` and `BigInt::to_signed_bytes_be`
  pub from_signed : List ℕ → ℤ
  pub to_signed : ℤ → List ℕ
  pub signed_round_trip : (z : ℤ) → from_signed (to_signed z) ≡ z
  pub float_compare : ℕ → ℕ → Option Ordering
  pub float_neg : ℕ → ℕ
  -- `f64 as i64`, `f64 as u64`, `i64 as f64` and `u64 as f64`
  pub float_to_i64 : ℕ → ℤ
  pub float_to_u64 : ℕ → ℕ
  pub float_of_i64 : ℤ → ℕ
  pub float_of_u64 : ℕ → ℕ

abbrev pub compare_int : ℤ → ℤ → Ordering
compare_int (pos a) (pos b) = compare a b
compare_int (pos a) (negsuc b) = Ordering.gt
compare_int (negsuc a) (pos b) = Ordering.lt
compare_int (negsuc a) (negsuc b) = compare b a

-- The order of byte strings and texts, byte by byte.
abbrev pub compare_bytes : List ℕ → List ℕ → Ordering
compare_bytes [] [] = Ordering.eq
compare_bytes [] (_ ∷ _) = Ordering.lt
compare_bytes (_ ∷ _) [] = Ordering.gt
compare_bytes (a ∷ as') (b ∷ bs) = elim (compare a b) [
  | Ordering.eq ↦ compare_bytes as' bs
  | other ↦ other
]

abbrev pub is_eq : Ordering → Bool
is_eq Ordering.eq = true
is_eq _ = false

abbrev pub is_lt : Ordering → Bool
is_lt Ordering.lt = true
is_lt _ = false

abbrev pub is_gt : Ordering → Bool
is_gt Ordering.gt = true
is_gt _ = false

abbrev pub when_some : (Ordering → Bool) → Option Ordering → Bool
when_some p none = false
when_some p (some o) = p o

abbrev pub negate : ℤ → ℤ
negate (pos zero) = pos zero
negate (pos (suc n)) = negsuc n
negate (negsuc n) = pos (suc n)

-- `-v` on an `i64`, which wraps.
abbrev pub negate_i64 : ℤ → ℤ
negate_i64 z = of_bits (to_bits (negate z))

-- `VariantExt::is_truthy`
unfoldable pub is_truthy : Variant → Bool
is_truthy nil = false
is_truthy (bool b) = b
is_truthy _ = true

-- `VariantExt::op_unary_plus`
unfoldable pub op_unary_plus : Variant → Variant
op_unary_plus (int64 v) = int64 v
op_unary_plus (uint64 v) = uint64 v
op_unary_plus (float64 v) = float64 v
op_unary_plus (big_int v) = big_int v
op_unary_plus _ = int64 (pos 0)

abbrev bool_eq : Bool → Bool → Bool
bool_eq true b = b
bool_eq false true = false
bool_eq false false = true

module _ (nums : Numbers) where
  open nums use {
    from_signed, to_signed, float_compare, float_neg, float_to_i64, float_to_u64, float_of_i64,
    float_of_u64,
  }

  -- `VariantExt::shrink`
  abbrev fit : List ℕ → ℤ → Variant
  fit v (pos n) = if ltb n (2 ^ 64) then uint64 n else big_int v
  fit v (negsuc n) = if ltb n (2 ^ 63) then int64 (negsuc n) else big_int v

  unfoldable pub shrink : Variant → Variant
  shrink (big_int v) = fit v (from_signed v)
  shrink v = v

  -- `VariantExt::op_unary_negation`
  unfoldable pub op_unary_negation : Variant → Variant
  op_unary_negation (int64 v) = int64 (negate_i64 v)
  op_unary_negation (uint64 v) = int64 (negate_i64 (of_bits v))
  op_unary_negation (float64 v) = float64 (float_neg v)
  op_unary_negation (big_int v) = big_int (to_signed (negate (from_signed v)))
  op_unary_negation _ = int64 (pos 0)

  -- Bytes are compared as the number they stand for.
  unfoldable pub as_number : Variant → Variant
  as_number (buffer v) = big_int (to_signed (pos (of_bytes_be v)))
  as_number (slice v) = big_int (to_signed (pos (of_bytes_be v)))
  as_number v = v

  abbrev ord_numbers : Variant → Variant → Option Ordering
  ord_numbers (string a) (string b) = some (compare_bytes a b)
  ord_numbers (int64 a) (int64 b) = some (compare_int a b)
  ord_numbers (uint64 a) (uint64 b) = some (compare a b)
  ord_numbers (float64 a) (float64 b) = float_compare a b
  ord_numbers (big_int a) (big_int b) = some (compare_bytes a b)
  ord_numbers (int64 a) (uint64 b) = some (compare_int a (of_bits b))
  ord_numbers (int64 a) (float64 b) = some (compare_int a (float_to_i64 b))
  ord_numbers (uint64 a) (int64 b) = some (compare a (to_bits b))
  ord_numbers (uint64 a) (float64 b) = some (compare a (float_to_u64 b))
  ord_numbers (float64 a) (int64 b) = float_compare a (float_of_i64 b)
  ord_numbers (float64 a) (uint64 b) = float_compare a (float_of_u64 b)
  ord_numbers (int64 a) (big_int b) = some (compare_int a (from_signed b))
  ord_numbers (uint64 a) (big_int b) = some (compare_int (pos a) (from_signed b))
  ord_numbers (float64 a) (big_int b) = some (compare_int (float_to_i64 a) (from_signed b))
  ord_numbers (big_int a) (int64 b) = some (compare_int (from_signed a) b)
  ord_numbers (big_int a) (uint64 b) = some (compare_int (from_signed a) (pos b))
  ord_numbers (big_int a) (float64 b) = some (compare_int (from_signed a) (float_to_i64 b))
  ord_numbers _ _ = none

  -- `VariantExt::ord`
  unfoldable pub ord : Variant → Variant → Option Ordering
  unfolding as_number
  ord lhs rhs = ord_numbers (as_number lhs) (as_number rhs)

  -- `PartialEq` of `Variant`
  unfoldable pub equals : Variant → Variant → Bool
  equals nil nil = true
  equals (bool a) (bool b) = bool_eq a b
  equals (int64 a) (int64 b) = is_eq (compare_int a b)
  equals (uint64 a) (uint64 b) = a == b
  equals (float64 a) (float64 b) = when_some is_eq (float_compare a b)
  equals (string a) (string b) = is_eq (compare_bytes a b)
  equals (big_int a) (big_int b) = is_eq (compare_bytes a b)
  equals (buffer a) (buffer b) = is_eq (compare_bytes a b)
  equals (slice a) (slice b) = is_eq (compare_bytes a b)
  equals _ _ = false

  unfoldable pub op_lt : Variant → Variant → Bool
  op_lt l r = when_some is_lt (ord l r)

  unfoldable pub op_gt : Variant → Variant → Bool
  op_gt l r = when_some is_gt (ord l r)

  unfoldable pub op_lte : Variant → Variant → Bool
  op_lte l r = when_some (λ o. if is_lt o then true else is_eq o) (ord l r)

  unfoldable pub op_gte : Variant → Variant → Bool
  op_gte l r = when_some (λ o. if is_gt o then true else is_eq o) (ord l r)

  unfoldable pub op_eq : Variant → Variant → Bool
  op_eq l r = if equals l r then true else when_some is_eq (ord l r)
