-- ===== src/Kernel/ArrayVec.antt =====
-- genet-kernel/src/array_vec.rs: a vector in blocks that never move. A cell that no push has
-- written is `none`, the uninitialised memory of the source; `get` of such a cell, or past the
-- blocks, is `fault`.
pub mod Refines
use genet.Base.{
  ℕ, zero, suc, ◌+◌, ◌/◌, ◌%◌, Bool, List, [], ◌∷◌, ◌++◌, length, get_elem?, set, replicate, Option,
  none, some, if◌then◌else◌, ltb, leb,
}

abbrev pub block_size : ℕ
block_size = 1024

pub record ArrayVec (T : Type 0) : Type 0 where
  pub buckets : List (List (Option T))
  pub len : ℕ

pub data Access (T : Type 0) : Type 0 where
  found : T → Access T
  absent fault : Access T

module _ {T : Type 0} where
  unfoldable pub new : ArrayVec T
  new = record { buckets = []; len = 0 }

  unfoldable pub uninitialized : List (Option T)
  uninitialized = replicate block_size none

  abbrev pub bucket_at : List (List (Option T)) → ℕ → List (Option T)
  bucket_at buckets i = elim (get_elem? buckets i) [ none ↦ [] | some b ↦ b ]

  abbrev pub read : Option (Option T) → Access T
  read (some (some x)) = found x
  read (some none) = fault
  read none = fault

  unfoldable pub get : ArrayVec T → ℕ → Access T
  get v index =
      let cell = get_elem? (bucket_at v.buckets (index / block_size)) (index % block_size) in
      if ltb index v.len then read cell else absent

  unfoldable pub push : ArrayVec T → T → ArrayVec T
  push v val =
      let bucket = v.len / block_size in
      let offset = v.len % block_size in
      let buckets =
        if leb (length v.buckets) bucket then v.buckets ++ uninitialized ∷ [] else v.buckets in
      record {
        buckets = set buckets bucket (set (bucket_at buckets bucket) offset (some val));
        len = v.len + 1;
      }

  unfoldable pub extend : ArrayVec T → List T → ArrayVec T
  extend v [] = v
  extend v (x ∷ xs) = extend (push v x) xs
