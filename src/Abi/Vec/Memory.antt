-- ===== src/Abi/Vec/Memory.antt =====
-- genet-abi/src/vec.rs: the memory that a `SafeVec` gets from the allocator, and growing into it.
use native.Mathlib.Nat.{mul_comm, le-mul_of_pos_right, mul-le-mul_left, mul-div_cancel_left}
use genet.Base.{
  ℕ, ◌*◌, ◌/◌, ◌≤◌, ◌<◌, ◌≡◌, sym, ap, ◌∙◌, List, some, length, arith, get_elem?-bound,
}
use genet.Abi.Vec.{Block, Pointer, Allocator, u64_limit, mul_usize, SafeVec}
use genet.Abi.Vec.Holds.{mul_usize_small, Holds}

module _ {A : Type 0} where
  module _ (allocator : Allocator A) where
    open allocator use {size_of}

    -- The allocator has memory for every size up to that number of bytes, 0 included.
    abbrev pub HasMemory : ℕ → Type 0
    HasMemory most =
        ((bytes : ℕ) → bytes ≤ most → (b : Block A) × (allocator.alloc bytes ≡ some b))
        × ((p : Pointer A) (bytes : ℕ)
            → bytes ≤ most
            → (b : Block A) × (allocator.realloc p bytes ≡ some b))

    -- Memory for `most` elements, whose bytes can be counted.
    abbrev pub Fits : ℕ → Type 0
    Fits most = HasMemory (size_of * most) × (size_of * most < u64_limit)

    le-size : (n : ℕ) → n ≤ size_of * n
    le-size n = rw (mul_comm size_of n) (le-mul_of_pos_right n allocator.size_of_pos)

    pub Fits-lt : (most : ℕ) → Fits most → most < u64_limit
    Fits-lt most fits = omega (arith, fits.1, le-size most)

    -- The bytes of `n` elements, which do not wrap around.
    bytes_of_elements :
        (most n : ℕ)
        → Fits most
        → n ≤ most
        → (mul_usize size_of n ≤ size_of * most) × (mul_usize size_of n / size_of ≡ n)
    bytes_of_elements most n fits le =
        let below = mul-le-mul_left size_of le in
        let same = mul_usize_small size_of n (omega (arith, below, fits.1)) in
        (
          rw same below,
          ap (λ bytes. bytes / size_of) same ∙ mul-div_cancel_left n allocator.size_of_pos,
        )

    pub alloc-Fits :
        (most n : ℕ)
        → Fits most
        → n ≤ most
        → (b : Block A) × (allocator.alloc (mul_usize size_of n) ≡ some b) × (length b ≡ n)
    alloc-Fits most n fits le =
        let (below, count) = bytes_of_elements most n fits le in
        let (b, e) = fits.0.0 (mul_usize size_of n) below in
        (b, e, allocator.length-alloc (mul_usize size_of n) b e ∙ count)

    -- The same elements in other memory of `n` cells.
    pub grow-Holds :
        (most n : ℕ) (v : SafeVec A) (xs : List A)
        → Fits most
        → n ≤ most
        → Holds v xs
        → v.len ≤ n
        → (b : Block A) × (allocator.realloc v.ptr (mul_usize size_of n) ≡ some b)
          × Holds (record v { ptr = some b; cap = n }) xs
    grow-Holds most n v xs fits small h le =
        let bytes : ℕ = mul_usize size_of n in
        let (below, count) = bytes_of_elements most n fits small in
        let (b, e) = fits.0.1 v.ptr bytes below in
        (
          b,
          e,
          record {
            len = h.len;
            cap = sym (allocator.length-realloc v.ptr bytes b e ∙ count);
            room = le;
            at = λ i x f.
                allocator.realloc_keeps v.ptr bytes i b (some x) e
                  (rw count (omega (arith, h.len, get_elem?-bound xs i x f))) (h.at i x f);
          },
        )
