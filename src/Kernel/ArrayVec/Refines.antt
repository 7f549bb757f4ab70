-- ===== src/Kernel/ArrayVec/Refines.antt =====
-- The blocked vector of genet-kernel/src/array_vec.rs against a list.
use genet.Base.{
  ℕ, ◌*◌, ◌/◌, ◌%◌, ◌≤◌, ◌<◌, ◌≡◌, ◌≢◌, refl, sym, ap, subst, ◌∙◌, List, [], ◌∷◌, ◌++◌, length,
  get_elem?, set, Option, none, some, if◌then◌else◌, ltb, leb, arith, Bool-cases, inl, inr,
  length-append, length-set, length-replicate, get_elem?-set_self, get_elem?-set_ne, get_elem?-none,
  get_elem?-some, get_elem?-bound, get_elem?-append_left, get_elem?-append_right, append_assoc,
  append-nil, ◌==◌,
}
use genet.Kernel.ArrayVec.{
  ArrayVec, found, absent, block_size, new, uninitialized, bucket_at, get, push, extend,
}

length-uninitialized : (T : Type 0) → length (uninitialized {T = T}) ≡ block_size
unfolding uninitialized
length-uninitialized T = length-replicate {A = Option T} block_size none

module _ {T : Type 0} where
  abbrev Blocks : List (List (Option T)) → Type 0
  Blocks bs = (k : ℕ) (b : List (Option T)) → get_elem? bs k ≡ some b → length b ≡ block_size

  abbrev cell : List (List (Option T)) → ℕ → Option (Option T)
  cell bs i = get_elem? (bucket_at bs (i / block_size)) (i % block_size)

  -- The first cells hold the list, and no more are counted.
  pub record Refines (v : ArrayVec T) (xs : List T) : Type 0 where
    pub len : v.len ≡ length xs
    pub room : v.len ≤ block_size * length v.buckets
    pub blocks : Blocks v.buckets
    pub cells : (i : ℕ) (x : T) → get_elem? xs i ≡ some x → cell v.buckets i ≡ some (some x)

  -- A fresh block behind the others, when the last is full.
  abbrev grown : List (List (Option T)) → ℕ → List (List (Option T))
  grown bs k = if leb (length bs) k then bs ++ uninitialized ∷ [] else bs

  grown-Blocks :
      (bs : List (List (Option T))) (k : ℕ) → k ≤ length bs → Blocks bs → Blocks (grown bs k)
  grown-Blocks bs k h w j b e = elim (Bool-cases (leb (length bs) k)) [
    | inl full ↦
        let e' : get_elem? (bs ++ uninitialized ∷ []) j ≡ some b = rw full at e in
        elim (Bool-cases (ltb j (length bs))) [
          | inl old ↦ w j b (sym (get_elem?-append_left bs _ j (ground arith)) ∙ e')
          | inr last ↦
              let bound = get_elem?-bound (bs ++ uninitialized ∷ []) j b e' in
              let at : j ≡ length bs =
                ground (arith, length-append bs (uninitialized ∷ []), bound) in
              let same : some uninitialized ≡ some b =
                sym (get_elem?-append_right bs uninitialized [])
                ∙ ap (get_elem? (bs ++ uninitialized ∷ [])) (sym at)
                ∙ e' in
              let eq : uninitialized ≡ b = cc in ap length (sym eq) ∙ length-uninitialized T
        ]
    | inr more ↦ w j b (rw more at e)
  ]

  grown-length : (bs : List (List (Option T))) (k : ℕ) → k ≤ length bs → k < length (grown bs k)
  grown-length bs k h = ground (arith, length-append bs (uninitialized ∷ []))

  grown-length_le : (bs : List (List (Option T))) (k : ℕ) → length bs ≤ length (grown bs k)
  grown-length_le bs k = ground (arith, length-append bs (uninitialized ∷ []))

  grown-cell :
      (bs : List (List (Option T))) (k i : ℕ) (x : Option T)
      → cell bs i ≡ some x
      → cell (grown bs k) i ≡ some x
  grown-cell bs k i x e = elim (Bool-cases (leb (length bs) k)) [
    | inl full ↦
        let n = i / block_size in
        elim (Bool-cases (ltb n (length bs))) [
          | inl old ↦
              rw full
                (ground (arith, get_elem?-append_left bs (uninitialized ∷ []) n (ground arith)))
          | inr past ↦ ground (arith, get_elem?-none bs n (ground arith))
        ]
    | inr more ↦ rw more e
  ]

  -- A write into a block that is there.
  abbrev written : List (List (Option T)) → ℕ → T → List (List (Option T))
  written bs n x =
      let k = n / block_size in set bs k (set (bucket_at bs k) (n % block_size) (some x))

  module _ (bs : List (List (Option T))) (n : ℕ) (x : T) (w : Blocks bs)
      (there : n / block_size < length bs) where
    block_there : get_elem? bs (n / block_size) ≡ some (bucket_at bs (n / block_size))
    block_there = let (b, e) = get_elem?-some bs (n / block_size) there in ground arith

    written-Blocks : Blocks (written bs n x)
    written-Blocks j b e =
        let k = n / block_size in
        let old = bucket_at bs k in
        let b' = set old (n % block_size) (some x) in
        elim (Bool-cases (k == j)) [
          | inl same ↦
              let at : k ≡ j = ground arith in
              let eq : some b' ≡ some b =
                sym (get_elem?-set_self bs k b' there) ∙ ap (get_elem? (written bs n x)) at ∙ e in
              let same_block : b' ≡ b = cc in
              ap length (sym same_block)
              ∙ length-set old (n % block_size) (some x)
              ∙ w k old block_there
          | inr other ↦ w j b (sym (get_elem?-set_ne bs k j b' (ground arith)) ∙ e)
        ]

    written-cell_new : cell (written bs n x) n ≡ some (some x)
    written-cell_new =
        let k = n / block_size in
        let old = bucket_at bs k in
        let b' = set old (n % block_size) (some x) in
        let full = w k old block_there in
        ground (
          arith,
          get_elem?-set_self bs k b' there,
          get_elem?-set_self old (n % block_size) (some x) (omega (arith, full)),
        )

    written-cell_old :
        (i : ℕ) (y : Option T) → i ≢ n → cell bs i ≡ some y → cell (written bs n x) i ≡ some y
    written-cell_old i y ne e =
        let k = n / block_size in
        let old = bucket_at bs k in
        let b' = set old (n % block_size) (some x) in
        elim (Bool-cases (k == i / block_size)) [
          | inl same ↦
              let at : k ≡ i / block_size = ground arith in
              let apart : n % block_size ≢ i % block_size = omega (arith, at, ne) in
              let found : get_elem? (written bs n x) (i / block_size) ≡ some b' =
                ap (get_elem? (written bs n x)) (sym at) ∙ get_elem?-set_self bs k b' there in
              let kept = get_elem?-set_ne old (n % block_size) (i % block_size) (some x) apart in
              let before : get_elem? old (i % block_size) ≡ some y =
                ap (λ j. get_elem? (bucket_at bs j) (i % block_size)) at ∙ e in
              ground (arith, found, kept, before)
          | inr other ↦
              let same = get_elem?-set_ne bs k (i / block_size) b' (ground arith) in
              ground (arith, same, e)
        ]

  pub push-Refines :
      (v : ArrayVec T) (xs : List T) (x : T) → Refines v xs → Refines (push v x) (xs ++ x ∷ [])
  unfolding push
  push-Refines v xs x r =
      let k = v.len / block_size in
      let bs = grown v.buckets k in
      let fits : k ≤ length v.buckets = omega (arith, r.room) in
      let w = grown-Blocks v.buckets k fits r.blocks in
      let there = grown-length v.buckets k fits in
      record {
        len = omega (arith, r.len, length-append xs (x ∷ []));
        room =
            omega
              (arith, there, length-set bs k (set (bucket_at bs k) (v.len % block_size) (some x)));
        blocks = written-Blocks bs v.len x w there;
        cells = λ i y e. elim (Bool-cases (ltb i (length xs))) [
          | inl old ↦ written-cell_old bs v.len x w there i (some y) (ground (arith, r.len)) (
              grown-cell v.buckets k i (some y)
                (r.cells i y (sym (get_elem?-append_left xs (x ∷ []) i (ground arith)) ∙ e)))
          | inr last ↦
              let bound = get_elem?-bound (xs ++ x ∷ []) i y e in
              let at : i ≡ v.len = ground (arith, length-append xs (x ∷ []), bound, r.len) in
              let same : some x ≡ some y =
                sym (get_elem?-append_right xs x [])
                ∙ ap (get_elem? (xs ++ x ∷ [])) (sym r.len ∙ sym at)
                ∙ e in
              let eq : x ≡ y = cc in rw (at, ← eq) (written-cell_new bs v.len x w there)
        ];
      }

  new-Refines : Refines new []
  unfolding new
  new-Refines = record { len = refl; room = omega arith; blocks = λ k b e. cc; cells = λ i x e. cc }

  extend-Refines :
      (v : ArrayVec T) (xs ys : List T) → Refines v xs → Refines (extend v ys) (xs ++ ys)
  unfolding extend
  extend-Refines v xs [] r = rw append-nil r
  extend-Refines v xs (y ∷ ys) r =
      subst (Refines (extend (push v y) ys)) (append_assoc xs (y ∷ []) ys)
        (extend-Refines (push v y) (xs ++ y ∷ []) ys (push-Refines v xs y r))

  -- After any pushes `get` finds the element at each position of the list pushed, reports the
  -- positions past its end as absent, and never reads memory that is not initialised; `len` is
  -- the length of the list.
  pub get-extend :
      (xs : List T) (i : ℕ)
      → (get (extend new xs) i ≡ (elim (get_elem? xs i) [ some x ↦ found x | none ↦ absent ]))
        × ((extend new xs).len ≡ length xs)
  unfolding get
  get-extend xs i =
      let r = extend-Refines new [] xs new-Refines in
      let v = extend new xs in
      elim (Bool-cases (ltb i v.len)) [
        | inl inside ↦
            let (x, e) = get_elem?-some xs i (ground (arith, r.len)) in
            (ground (arith, r.cells i x e), r.len)
        | inr past ↦ (ground (arith, get_elem?-none xs i (ground (arith, r.len))), r.len)
      ]
