-- ===== src/Abi/Vec.antt =====
-- genet-abi/src/vec.rs: a vector that crosses the C interface. The allocator, which counts
-- bytes, is an argument. Memory is a list of cells of the size of an element; a cell that was not
-- written is `none`, as is the null pointer, and a panic or a read of no element is `none` in a
-- result.
pub mod Holds
pub mod Memory
pub mod Refines
use genet.Base.{
  ℕ, zero, suc, ◌+◌, ◌-◌, ◌*◌, ◌/◌, ◌≤◌, ◌%◌, ◌^◌, ◌≡◌, ◌<◌, List, [], ◌∷◌, Option, none, some,
  length, get_elem?, set, take, if◌then◌else◌, leb, ltb,
}

abbrev pub Block {ℓ} : Type ℓ → Type ℓ
Block A = List (Option A)

-- A pointer to memory, or null.
abbrev pub Pointer {ℓ} : Type ℓ → Type ℓ
Pointer A = Option (Block A)

-- The cells behind a pointer.
abbrev pub cells {ℓ} : {A : Type ℓ} → Pointer A → Block A
cells none = []
cells (some block) = block

-- The allocator of `env.rs` on elements of `size_of` bytes: `malloc` and `realloc` take a number of
-- bytes, and give null where there is no memory.
pub record Allocator (A : Type 0) : Type 0 where
  -- `mem::size_of::<T>()`; the elements that cross the interface have at least a byte.
  pub size_of : ℕ
  pub size_of_pos : 1 ≤ size_of
  pub alloc : ℕ → Pointer A
  pub realloc : Pointer A → ℕ → Pointer A
  pub length-alloc : (bytes : ℕ) (b : Block A) → alloc bytes ≡ some b → length b ≡ bytes / size_of
  pub length-realloc :
      (p : Pointer A) (bytes : ℕ) (b : Block A)
      → realloc p bytes ≡ some b
      → length b ≡ bytes / size_of
  pub realloc_keeps :
      (p : Pointer A) (bytes i : ℕ) (b : Block A) (c : Option A)
      → realloc p bytes ≡ some b
      → i < bytes / size_of
      → get_elem? (cells p) i ≡ some c
      → get_elem? b i ≡ some c

-- The numbers of a `u64`.
unfoldable pub u64_limit : ℕ
u64_limit = 2 ^ 64

unfoldable pub add_u64 : ℕ → ℕ → ℕ
add_u64 a b = (a + b) % u64_limit

-- A product of two `usize`.
unfoldable pub mul_usize : ℕ → ℕ → ℕ
mul_usize a b = a * b % u64_limit

-- `SafeVec`
pub record SafeVec (A : Type 0) : Type 0 where
  pub ptr : Pointer A
  pub len : ℕ
  pub cap : ℕ

-- `IntoIter`
pub record IntoIter (A : Type 0) : Type 0 where
  pub ptr : Pointer A
  pub len : ℕ
  pub offset : ℕ

module _ {A : Type 0} where
  -- `SafeVec::new`
  unfoldable pub new : SafeVec A
  new = record { ptr = none; len = 0; cap = 0 }

  -- The element that `push` writes at the end.
  unfoldable pub write_last : A → SafeVec A → SafeVec A
  write_last val v = record v {
    ptr = some (set (cells v.ptr) v.len (some val));
    len = add_u64 v.len 1;
  }

  -- `SafeVec::into_iter`
  unfoldable pub into_iter : SafeVec A → IntoIter A
  into_iter v = record { ptr = v.ptr; len = v.len; offset = 0 }

  -- `IntoIter::next`
  unfoldable pub next : IntoIter A → Option (Option A × IntoIter A)
  next it =
      if ltb 0 it.len
      then elim (get_elem? (cells it.ptr) it.offset) [
        | some (some a) ↦
            some (some a, record it { offset = add_u64 it.offset 1; len = it.len - 1 })
        | some none ↦ none
        | none ↦ none
      ]
      else some (none, it)

  -- All elements of an iterator, as `collect` takes them, in at most `turns` turns.
  unfoldable pub collect : ℕ → IntoIter A → Option (List A)
  collect zero it = none
  collect (suc turns) it = elim (next it) [
    | none ↦ none
    | some (none, it') ↦ some []
    | some (some a, it') ↦ elim (collect turns it') [ none ↦ none | some rest ↦ some (a ∷ rest) ]
  ]

  -- The elements of some cells, if each was written.
  unfoldable pub elements : Block A → Option (List A)
  elements [] = some []
  elements (none ∷ cs) = none
  elements (some a ∷ cs) = elim (elements cs) [ none ↦ none | some rest ↦ some (a ∷ rest) ]

  -- `SafeVec::as_slice`, and the elements that `drop` drops.
  unfoldable pub as_slice : SafeVec A → Option (List A)
  as_slice v =
      if leb v.len (length (cells v.ptr)) then elements (take v.len (cells v.ptr)) else none

  module _ (allocator : Allocator A) where
    open allocator use {size_of, alloc, realloc}

    -- `SafeVec::with_capacity`
    unfoldable pub with_capacity : ℕ → Option (SafeVec A)
    with_capacity capacity = elim (alloc (mul_usize size_of capacity)) [
      | none ↦ none
      | some block ↦ some record { ptr = some block; len = 0; cap = capacity }
    ]

    -- `SafeVec::push`
    unfoldable pub push : A → SafeVec A → Option (SafeVec A)
    push val v =
        if leb v.cap v.len
        then elim (realloc v.ptr (mul_usize size_of (add_u64 v.cap 4))) [
          | none ↦ none
          | some block ↦
              some (write_last val (record v { ptr = some block; cap = add_u64 v.cap 4 }))
        ]
        else some (write_last val v)

    unfoldable pub push_all : List A → SafeVec A → Option (SafeVec A)
    push_all [] v = some v
    push_all (x ∷ xs) v = elim (push x v) [ none ↦ none | some v' ↦ push_all xs v' ]

    -- `FromIterator::from_iter`
    unfoldable pub from_iter : List A → Option (SafeVec A)
    from_iter xs = push_all xs new

    -- `From<&[T]>`
    unfoldable pub from : List A → Option (SafeVec A)
    from xs = elim (with_capacity (length xs)) [ none ↦ none | some v ↦ push_all xs v ]

    -- `Clone::clone`
    unfoldable pub clone : SafeVec A → Option (SafeVec A)
    clone v = elim (as_slice v) [
      | none ↦ none
      | some xs ↦ elim (with_capacity v.len) [ none ↦ none | some v' ↦ push_all xs v' ]
    ]
