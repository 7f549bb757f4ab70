-- ===== src/Abi/Vec/Holds.antt =====
-- genet-abi/src/vec.rs: the list that the memory of a `SafeVec` holds, and reading it.
use native.Mathlib.Nat.{mod-eq_of_lt}
use genet.Base.{
  ℕ, zero, suc, ◌+◌, ◌-◌, ◌*◌, ◌≤◌, ◌<◌, ◌≡◌, refl, sym, ap, ◌∙◌, List, [], ◌∷◌, ◌++◌, none, some,
  length, get_elem?, set, take, arith, true, false, ◌⊎◌, leb, ltb, length-append, length-set,
  get_elem?-set_self, get_elem?-set_ne, inl, inr,
}
use genet.Abi.Vec.{
  Block, cells, u64_limit, add_u64, mul_usize, SafeVec, IntoIter, new, write_last, next, collect,
  elements, as_slice,
}

pub add_u64_small : (a b : ℕ) → a + b < u64_limit → add_u64 a b ≡ a + b
unfolding add_u64
add_u64_small a b h = mod-eq_of_lt h

pub mul_usize_small : (a b : ℕ) → a * b < u64_limit → mul_usize a b ≡ a * b
unfolding mul_usize
mul_usize_small a b h = mod-eq_of_lt h

module _ {A : Type 0} where
  -- The vector owns `cap` cells, and the first of them hold the elements of the list.
  pub record Holds (v : SafeVec A) (xs : List A) : Type 0 where
    pub len : v.len ≡ length xs
    pub cap : v.cap ≡ length (cells v.ptr)
    pub room : v.len ≤ v.cap
    pub at : (i : ℕ) (x : A) → get_elem? xs i ≡ some x → get_elem? (cells v.ptr) i ≡ some (some x)

  pub new-Holds : Holds new []
  unfolding new
  new-Holds = record { len = refl; cap = refl; room = omega arith; at = λ i x e. absurd (cc) }

  -- An element of a list with one more is of the list, or the last.
  snoc_cases :
      (xs : List A) (val : A) (i : ℕ) (x : A)
      → get_elem? (xs ++ val ∷ []) i ≡ some x
      → ((i < length xs) × (get_elem? xs i ≡ some x)) ⊎ ((i ≡ length xs) × (x ≡ val))
  snoc_cases [] val zero x e = inr (refl, let same : val ≡ x = cc in sym same)
  snoc_cases [] val (suc i) x e = absurd (cc)
  snoc_cases (y ∷ ys) val zero x e = inl (omega arith, e)
  snoc_cases (y ∷ ys) val (suc i) x e = elim (snoc_cases ys val i x e) [
    | inl (lt, f) ↦ inl (omega arith, f)
    | inr (q, f) ↦ inr (omega arith, f)
  ]

  -- Writing behind the last element where there is room.
  pub write_last-Holds :
      (val : A) (v : SafeVec A) (xs : List A)
      → Holds v xs
      → v.len < v.cap
      → v.len + 1 < u64_limit
      → Holds (write_last val v) (xs ++ val ∷ [])
  unfolding write_last
  write_last-Holds val v xs h room fits =
      let more = add_u64_small v.len 1 fits in
      let sized = length-set (cells v.ptr) v.len (some val) in
      record {
        len = more ∙ omega (arith, h.len, length-append xs (val ∷ []));
        cap = h.cap ∙ sym sized;
        room = omega (arith, more);
        at = λ i x e. elim (snoc_cases xs val i x e) [
          | inl (lt, f) ↦
              get_elem?-set_ne (cells v.ptr) v.len i (some val) (λ q. omega (arith, h.len))
              ∙ h.at i x f
          | inr (q, f) ↦
              ap (get_elem? (set (cells v.ptr) v.len (some val))) (q ∙ sym h.len)
              ∙ get_elem?-set_self (cells v.ptr) v.len (some val) (omega (arith, h.cap))
              ∙ ap (λ y. some (some y)) (sym f)
        ];
      }

  -- Cells that hold the elements of a list.
  elements-at :
      (b : Block A) (xs : List A) (n : ℕ)
      → n ≡ length xs
      → n ≤ length b
      → ((i : ℕ) (x : A) → get_elem? xs i ≡ some x → get_elem? b i ≡ some (some x))
      → elements (take n b) ≡ some xs
  unfolding elements
  elements-at b [] n e h at = rw e refl
  elements-at [] (x ∷ xs) n e h at = absurd (omega arith)
  elements-at (c ∷ b) (x ∷ xs) zero e h at = absurd (omega arith)
  elements-at (c ∷ b) (x ∷ xs) (suc n) e h at =
      let first : c ≡ some x = let f = at 0 x refl in cc in
      rw (first, elements-at b xs n (omega arith) (omega arith) (λ i y f. at (suc i) y f)) refl

  pub as_slice-Holds : (v : SafeVec A) (xs : List A) → Holds v xs → as_slice v ≡ some xs
  unfolding as_slice
  as_slice-Holds v xs h =
      let inside : leb v.len (length (cells v.ptr)) ≡ true = ground (arith, h.room, h.cap) in
      rw inside (elements-at (cells v.ptr) xs v.len h.len (omega (arith, h.room, h.cap)) h.at)

  -- What an iterator has still to give.
  pub record Remains (it : IntoIter A) (xs : List A) : Type 0 where
    pub len : it.len ≡ length xs
    pub fits : it.offset + length xs < u64_limit
    pub at :
        (i : ℕ) (x : A)
        → get_elem? xs i ≡ some x
        → get_elem? (cells it.ptr) (it.offset + i) ≡ some (some x)

  next-Remains :
      (it : IntoIter A) (x : A) (xs : List A)
      → Remains it (x ∷ xs)
      → (it' : IntoIter A) × (next it ≡ some (some x, it')) × Remains it' xs
  unfolding next
  next-Remains it x xs h =
      let go : ltb 0 it.len ≡ true = ground (arith, h.len) in
      let here : get_elem? (cells it.ptr) it.offset ≡ some (some x) =
        ap (get_elem? (cells it.ptr)) (omega arith) ∙ h.at 0 x refl in
      let more = add_u64_small it.offset 1 (omega (arith, h.fits)) in
      (
        record it { offset = add_u64 it.offset 1; len = it.len - 1 },
        rw (next, go, here) refl,
        record {
          len = omega (arith, h.len);
          fits = omega (arith, h.fits, more);
          at = λ i y f. ap (get_elem? (cells it.ptr)) (omega (arith, more)) ∙ h.at (suc i) y f;
        },
      )

  pub collect-Remains :
      (turns : ℕ) (it : IntoIter A) (xs : List A)
      → Remains it xs
      → length xs < turns
      → collect turns it ≡ some xs
  unfolding collect
  collect-Remains zero it xs h t = absurd (omega arith)
  collect-Remains (suc turns) it [] h t =
      let none_left : ltb 0 it.len ≡ false = ground (arith, h.len) in
      let ended : next it ≡ some (none, it) = unfold next in rw none_left refl in
      rw (collect, ended) refl
  collect-Remains (suc turns) it (x ∷ xs) h t =
      let (it', e, rest) = next-Remains it x xs h in
      rw (collect, e, collect-Remains turns it' xs rest (omega arith)) refl
