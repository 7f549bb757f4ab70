-- ===== src/Packages/GenetFile/Tables.antt =====
-- The tables of package/genet-file/writer/src/lib.rs: a position stands for the same entry however
-- many more are pushed.
use Prim.Native.String.{String}
use text.Mathlib.Text.{◌==◌ as str_eq}
use text.Mathlib.TextEquality.{eq_iff}
use genet.Base.{
  ℕ, suc, ◌+◌, ◌≡◌, refl, sym, ap, ◌∙◌, List, [], ◌∷◌, ◌++◌, Bool, true, some, get_elem?,
  get_elem?-append_left, get_elem?-append_right, get_elem?-bound, arith, append_assoc, append-nil,
  Option-cases, inl, inr, Bool-cases,
}
use genet.Packages.GenetFile.Writer.{position, index_in, same_attr}

module _ {ℓ} {A : Type ℓ} where
  -- One table that another begins with.
  abbrev pub Extends : List A → List A → Type ℓ
  Extends xs ys = (more : List A) × (ys ≡ xs ++ more)

  pub Extends_refl : (xs : List A) → Extends xs xs
  Extends_refl xs = ([], sym (append-nil xs))

  pub Extends_trans : (xs ys zs : List A) → Extends xs ys → Extends ys zs → Extends xs zs
  Extends_trans xs ys zs (m, e) (n, f) = (m ++ n, f ∙ ap (λ t. t ++ n) e ∙ append_assoc xs m n)

  pub get_elem?-Extends :
      (xs ys : List A) (i : ℕ) (x : A)
      → Extends xs ys
      → get_elem? xs i ≡ some x
      → get_elem? ys i ≡ some x
  get_elem?-Extends xs ys i x (m, e) h =
      ap (λ t. get_elem? t i) e ∙ get_elem?-append_left xs m i (get_elem?-bound xs i x h) ∙ h

  -- The entry that `position` finds.
  position_lem :
      (p : A → Bool) (i j : ℕ) (xs : List A)
      → position p i xs ≡ some j
      → (k : ℕ) × (j ≡ i + k) × (x : A) × (get_elem? xs k ≡ some x) × (p x ≡ true)
  unfolding position
  position_lem p i j [] e = absurd (cc)
  position_lem p i j (x ∷ xs) e = elim (Bool-cases (p x)) [
    | inl y ↦ (0, ground (arith, y, e), x, refl, y)
    | inr n ↦
        let later : position p (i + 1) xs ≡ some j = ground (arith, n, e) in
        let (k, ek, y, at, py) = position_lem p (i + 1) j xs later in
        (suc k, ek ∙ omega arith, y, at, py)
  ]

  module _ (eq : A → A → Bool) (x : A) (xs : List A) where
    pub index_in-Extends : Extends xs (index_in eq x xs).1
    unfolding index_in
    index_in-Extends = elim (Option-cases (position (λ y. eq y x) 0 xs)) [
      | inl e ↦ rw (index_in, e) (x ∷ [], refl)
      | inr (i, e) ↦ rw (index_in, e) (Extends_refl xs)
    ]

    -- The position that is given out stands for `x`.
    pub get_elem?-index_in :
        ((y : A) → eq y x ≡ true → y ≡ x)
        → get_elem? (index_in eq x xs).1 (index_in eq x xs).0 ≡ some x
    unfolding index_in
    get_elem?-index_in same = elim (Option-cases (position (λ y. eq y x) 0 xs)) [
      | inl e ↦ rw (index_in, e) (get_elem?-append_right xs x [])
      | inr (i, e) ↦
          let (k, ek, y, at, py) = position_lem (λ y. eq y x) 0 i xs e in
          let at_i : get_elem? xs i ≡ some y = ap (get_elem? xs) (ek ∙ omega arith) ∙ at in
          rw (index_in, e) (at_i ∙ ap some (same y py))
    ]

pub str_eq_eq : (a b : String) → str_eq a b ≡ true → a ≡ b
str_eq_eq a b h = (eq_iff a b).0 h

pub same_attr_eq : (a b : String × String) → same_attr a b ≡ true → a ≡ b
unfolding same_attr
same_attr_eq (a, b) (c, d) h = ground (arith, str_eq_eq a c, str_eq_eq b d)
