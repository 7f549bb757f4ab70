-- ===== src/Filter/Value/Order.antt =====
-- The order of values of genet-filter/src/variant.rs against the order of the integers.
use genet.Base.{
  ℕ, ◌%◌, ◌^◌, ◌≤◌, ◌<◌, ◌≡◌, ◌↔◌, ◌⊎◌, inl, inr, refl, sym, ap, ◌∙◌, Bool, true, false, List, [],
  ◌∷◌, Option, none, some, if◌then◌else◌, ltb, arith, Bool-cases,
}
use genet.Base.Bytes.{of_bytes_be}
use genet.Base.Int.{ℤ, pos, negsuc, to_bits, of_bits}
use genet.Abi.Variant.{Variant, int64, uint64, big_int, buffer, slice}
use genet.Filter.Value.{
  Numbers, compare_int, compare_bytes, is_eq, shrink, as_number, ord, equals, op_eq, op_lt, op_gt,
}

compare_bytes-eq : (a b : List ℕ) → (is_eq (compare_bytes a b) ≡ true) ↔ (a ≡ b)
compare_bytes-eq [] [] = ((λ e. refl), (λ e. refl))
compare_bytes-eq [] (b ∷ bs) = ((λ e. cc), (λ e. cc))
compare_bytes-eq (a ∷ as') [] = ((λ e. cc), (λ e. cc))
compare_bytes-eq (a ∷ as') (b ∷ bs) = ground (arith, compare_bytes-eq as' bs)

module _ (nums : Numbers) where
  open nums use {from_signed, to_signed, signed_round_trip}

  -- The integer that a value is compared as.
  abbrev pub integer_of : Variant → Option ℤ
  integer_of (int64 z) = some z
  integer_of (uint64 n) = some (pos n)
  integer_of (big_int v) = some (from_signed v)
  integer_of (buffer v) = some (pos (of_bytes_be v))
  integer_of (slice v) = some (pos (of_bytes_be v))
  integer_of _ = none

  abbrev pub are_bytes : Variant → Bool
  are_bytes (big_int _) = true
  are_bytes (buffer _) = true
  are_bytes (slice _) = true
  are_bytes _ = false

  abbrev NotNegative : ℤ → Type 0
  NotNegative (pos n) = n < 2 ^ 63
  NotNegative (negsuc n) = ⊥

  -- An `i64` and a `u64` meet only below 2 ^ 63, and not both values are bytes.
  abbrev pub Comparable : Variant → Variant → Type 0
  Comparable (int64 a) (uint64 b) = b < 2 ^ 63
  Comparable (uint64 a) (int64 b) = NotNegative b
  Comparable l r = if are_bytes l then are_bytes r ≡ false else Unit {0}

  -- Values that stand for integers are ordered as these integers are, where an `i64` meets only a
  -- `u64` below 2 ^ 63, a `u64` only an `i64` that is not negative, and at most one of the two values
  -- is given by bytes.
  pub ord-compare_int :
      (l r : Variant) (a b : ℤ)
      → integer_of l ≡ some a
      → integer_of r ≡ some b
      → Comparable l r
      → ord nums l r ≡ some (compare_int a b)
  unfolding ord of_bits to_bits
  ord-compare_int (int64 x) (uint64 y) a b p q h =
      let small : of_bits y ≡ pos y = ground arith in rw small (cc)
  ord-compare_int (uint64 x) (int64 (pos y)) a b p q h =
      let small : y % 2 ^ 64 ≡ y = omega arith in rw small (cc)
  ord-compare_int (uint64 x) (int64 (negsuc y)) a b p q h = absurd h
  ord-compare_int _ _ a b p q h = grind (arith, signed_round_trip)

  -- A negative `i64` on the left is less than every `u64` below 2 ^ 63; on the right of such a
  -- `u64`, the `u64` is less than it and not greater.
  pub op_lt-negative :
      (n u : ℕ)
      → n < 2 ^ 63
      → u < 2 ^ 63
      → (op_lt nums (int64 (negsuc n)) (uint64 u) ≡ true)
        × (op_gt nums (uint64 u) (int64 (negsuc n)) ≡ false)
        × (op_lt nums (uint64 u) (int64 (negsuc n)) ≡ true)
  unfolding op_lt op_gt ord of_bits to_bits
  op_lt-negative n u h k = (ground arith, ground arith, ground arith)

  -- The bytes of an address.
  abbrev pub bytes_of : Variant → Option (List ℕ)
  bytes_of (buffer v) = some v
  bytes_of (slice v) = some v
  bytes_of _ = none

  same_number :
      (m n : ℕ) → (is_eq (compare_bytes (to_signed (pos m)) (to_signed (pos n))) ≡ true) ↔ (m ≡ n)
  same_number m n =
      let (fore, back) = compare_bytes-eq (to_signed (pos m)) (to_signed (pos n)) in
      (
        λ e.
            let same : pos m ≡ pos n =
              sym (signed_round_trip (pos m))
              ∙ ap from_signed (fore e)
              ∙ signed_round_trip (pos n) in
            cc,
        λ e. back (ap (λ (k : ℕ). to_signed (pos k)) e),
      )

  same_or_number :
      (v w : List ℕ)
      → ((if is_eq (compare_bytes v w)
            then true
            else is_eq
                (compare_bytes (to_signed (pos (of_bytes_be v))) (to_signed (pos (of_bytes_be w)))))
          ≡ true)
        ↔ (of_bytes_be v ≡ of_bytes_be w)
  same_or_number v w = elim (Bool-cases (is_eq (compare_bytes v w))) [
    | inl e ↦ rw e ((λ _. ap of_bytes_be ((compare_bytes-eq v w).0 e)), (λ _. refl))
    | inr e ↦ rw e (same_number (of_bytes_be v) (of_bytes_be w))
  ]

  -- Byte values are equal to a filter exactly when they stand for the same number.
  pub op_eq-bytes :
      (l r : Variant) (x y : List ℕ)
      → bytes_of l ≡ some x
      → bytes_of r ≡ some y
      → (op_eq nums l r ≡ true) ↔ (of_bytes_be x ≡ of_bytes_be y)
  unfolding op_eq equals ord as_number
  op_eq-bytes (buffer v) (buffer w) x y p q =
      let e : v ≡ x = cc in let f : w ≡ y = cc in rw (← e, ← f) (same_or_number v w)
  op_eq-bytes (buffer v) (slice w) x y p q =
      let e : v ≡ x = cc in
      let f : w ≡ y = cc in rw (← e, ← f) (same_number (of_bytes_be v) (of_bytes_be w))
  op_eq-bytes (slice v) (buffer w) x y p q =
      let e : v ≡ x = cc in
      let f : w ≡ y = cc in rw (← e, ← f) (same_number (of_bytes_be v) (of_bytes_be w))
  op_eq-bytes (slice v) (slice w) x y p q =
      let e : v ≡ x = cc in let f : w ≡ y = cc in rw (← e, ← f) (same_or_number v w)
  op_eq-bytes _ _ x y p q = absurd (cc)

  -- A `BigInt` that stands for an integer outside `i64` and `u64`.
  abbrev pub IsWide : List ℕ → Type 0
  IsWide b =
      ((n : ℕ) × (from_signed b ≡ pos n) × (2 ^ 64 ≤ n))
      ⊎ ((n : ℕ) × (from_signed b ≡ negsuc n) × (2 ^ 63 ≤ n))

  abbrev Shrunk : List ℕ → Variant → Type 0
  Shrunk v u = (integer_of u ≡ some (from_signed v)) × ((b : List ℕ) → u ≡ big_int b → IsWide b)

  big_int-injective : {v b : List ℕ} → big_int v ≡ big_int b → v ≡ b
  big_int-injective e = cc

  shrink-Shrunk : (v : List ℕ) (z : ℤ) → from_signed v ≡ z → Shrunk v (shrink nums (big_int v))
  unfolding shrink
  shrink-Shrunk v (pos n) e = elim (Bool-cases (ltb n (2 ^ 64))) [
    | inl fits ↦ rw (e, fits) (refl, λ b f. absurd (cc))
    | inr wide ↦
        rw (e, wide, shrink)
          (ap some e, λ b f. inl (n, rw (big_int-injective f) at e, ground arith))
  ]
  shrink-Shrunk v (negsuc n) e = elim (Bool-cases (ltb n (2 ^ 63))) [
    | inl fits ↦ rw (e, fits) (refl, λ b f. absurd (cc))
    | inr wide ↦
        rw (e, wide, shrink)
          (ap some e, λ b f. inr (n, rw (big_int-injective f) at e, ground arith))
  ]

  -- Making a literal small keeps its number, and leaves a `BigInt` only outside the 64-bit integers.
  pub shrink-integer_of :
      (v : Variant)
      → (integer_of (shrink nums v) ≡ integer_of v)
        × ((b : List ℕ) → shrink nums v ≡ big_int b → IsWide b)
  shrink-integer_of (big_int v) = shrink-Shrunk v (from_signed v) refl
  shrink-integer_of _ = unfold shrink in (refl, λ b e. absurd (cc))
