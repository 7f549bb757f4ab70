-- ===== src/Abi/Vec/Refines.antt =====
-- `SafeVec` of genet-abi/src/vec.rs against the list of its elements.
use native.Mathlib.Decide.{dec_lt}
use genet.Base.{
  ℕ, ◌+◌, ◌*◌, ◌≤◌, ◌<◌, ◌≡◌, refl, sym, ap, ◌∙◌, subst, List, [], ◌∷◌, ◌++◌, Option, some, length,
  get_elem?, arith, append-nil, append_assoc, true, false, leb, length-append,
}
use genet.Abi.Vec.{
  cells, Allocator, u64_limit, add_u64, SafeVec, write_last, into_iter, collect, with_capacity,
  push, push_all, from,
}
use genet.Abi.Vec.Holds.{add_u64_small, Holds, write_last-Holds, Remains, collect-Remains}
use genet.Abi.Vec.Memory.{HasMemory, Fits, Fits-lt, alloc-Fits, grow-Holds}

module _ {A : Type 0} where
  module _ (allocator : Allocator A) where
    open allocator use {size_of}

    -- A computation makes a vector that holds `xs` in at most `most` cells.
    abbrev Makes : ℕ → Option (SafeVec A) → List A → Type 0
    Makes most r xs = (v : SafeVec A) × (r ≡ some v) × Holds v xs × (v.cap ≤ most)

    push-Holds :
        (most : ℕ) (val : A) (v : SafeVec A) (xs : List A)
        → Fits allocator most
        → Holds v xs
        → v.cap ≤ most
        → length xs + 4 ≤ most
        → Makes most (push allocator val v) (xs ++ val ∷ [])
    unfolding push write_last
    push-Holds most val v xs fits h small room =
        let limit = Fits-lt allocator most fits in
        elim (dec_lt v.len v.cap) [
          | yes lt ↦ (
            write_last val v,
            (let shut : leb v.cap v.len ≡ false = ground arith in rw shut refl),
            write_last-Holds val v xs h lt (omega (arith, limit)),
            small,
          )
          | no ge ↦
              let opened : leb v.cap v.len ≡ true = ground arith in
              let more = add_u64_small v.cap 4 (omega (arith, h.len, limit)) in
              let n : ℕ = add_u64 v.cap 4 in
              let (b, e, grown) =
                grow-Holds allocator most n v xs fits (omega (arith, more, h.len)) h
                  (omega (arith, more, h.room)) in
              let w : SafeVec A = record v { ptr = some b; cap = n } in
              (
                write_last val w,
                rw (opened, e) refl,
                write_last-Holds val w xs grown (omega (arith, more, h.room))
                    (omega (arith, h.len, h.room, more, limit)),
                omega (arith, more, h.len),
              )
        ]

    push_all-Holds :
        (most : ℕ) (ys : List A) (v : SafeVec A) (xs : List A)
        → Fits allocator most
        → Holds v xs
        → v.cap ≤ most
        → length xs + length ys + 4 ≤ most
        → Makes most (push_all allocator ys v) (xs ++ ys)
    unfolding push_all
    push_all-Holds most [] v xs fits h small room =
        (v, refl, subst (Holds v) (sym (append-nil xs)) h, small)
    push_all-Holds most (y ∷ ys) v xs fits h small room =
        let (v1, e1, h1, s1) = push-Holds most y v xs fits h small (omega arith) in
        let (v2, e2, h2, s2) =
          push_all-Holds most ys v1 (xs ++ y ∷ []) fits h1 s1
            (omega (arith, length-append xs (y ∷ []))) in
        (v2, rw (push_all, e1) e2, subst (Holds v2) (append_assoc xs (y ∷ []) ys) h2, s2)

    with_capacity-Makes :
        (most n : ℕ) → Fits allocator most → n ≤ most → Makes n (with_capacity allocator n) []
    unfolding with_capacity
    with_capacity-Makes most n fits le =
        let (b, e, sized) = alloc-Fits allocator most n fits le in
        (
          record { ptr = some b; len = 0; cap = n },
          rw (with_capacity, e) refl,
          record { len = refl; cap = sym sized; room = omega arith; at = λ i x f. absurd (cc) },
          omega arith,
        )

    from-Makes :
        (xs : List A)
        → HasMemory allocator (size_of * (length xs + 4))
        → size_of * (length xs + 4) < u64_limit
        → Makes (length xs + 4) (from allocator xs) xs
    unfolding from
    from-Makes xs memory fits =
        let (v, e, h, small) =
          with_capacity-Makes (length xs + 4) (length xs) (memory, fits) (omega arith) in
        let (w, f, k, s) =
          push_all-Holds (length xs + 4) xs v [] (memory, fits) h (omega arith) (omega arith) in
        (w, rw (from, e) f, k, s)

    -- An iterator over a vector gives its elements and ends.
    collect-into_iter :
        (v : SafeVec A) (xs : List A)
        → Holds v xs
        → length xs + 4 < u64_limit
        → collect (length xs + 1) (into_iter v) ≡ some xs
    unfolding into_iter
    collect-into_iter v xs h fits =
        let remains : Remains (into_iter v) xs = record {
          len = h.len;
          fits = omega arith;
          at = λ i x f. ap (get_elem? (cells v.ptr)) (omega arith) ∙ h.at i x f;
        } in
        collect-Remains (length xs + 1) (into_iter v) xs remains (omega arith)

    pub from-collect :
        (xs : List A)
        → HasMemory allocator (size_of * (length xs + 4))
        → size_of * (length xs + 4) < u64_limit
        → (v : SafeVec A) × (from allocator xs ≡ some v)
          × (collect (v.len + 1) (into_iter v) ≡ some xs)
    from-collect xs memory fits =
        let (v, e, h, small) = from-Makes xs memory fits in
        (
          v,
          e,
          ap (λ n. collect (n + 1) (into_iter v)) h.len
              ∙ collect-into_iter v xs h (Fits-lt allocator (length xs + 4) (memory, fits)),
        )
