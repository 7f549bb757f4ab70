-- ===== src/Tests/Vec.antt =====
-- Vectors with an allocator that always has memory, and calls through boxes.
use Prim.Native.String.{String}
use genet.Base.{
  ℕ, zero, suc, ◌+◌, ◌/◌, ◌<◌, ◌≡◌, refl, sym, ap, ◌∙◌, List, [], ◌∷◌, Option, none, some, length,
  get_elem?, arith,
}
use genet.Abi.Vec.{Block, cells, Allocator}
use genet.Abi.Boxes.{
  Outcome, failed, passed, Status, skip, decode_box, write_box, end_box, new_worker_box,
}
use genet.Abi.Boxes.Crossing.{crossed, is_done, boxes_call}

module _ {A : Type 0} where
  -- The first `n` cells, and cells that were not written behind them.
  abbrev resize : ℕ → Block A → Block A
  resize zero b = []
  resize (suc n) [] = none ∷ resize n []
  resize (suc n) (c ∷ b) = c ∷ resize n b

  length-resize : (n : ℕ) (b : Block A) → length (resize n b) ≡ n
  length-resize zero b = refl
  length-resize (suc n) [] = ap suc (length-resize n [])
  length-resize (suc n) (c ∷ b) = ap suc (length-resize n b)

  resize_keeps :
      (n i : ℕ) (b : Block A) (c : Option A)
      → i < n
      → get_elem? b i ≡ some c
      → get_elem? (resize n b) i ≡ some c
  resize_keeps zero i b c h e = absurd (omega arith)
  resize_keeps (suc n) i [] c h e = absurd (cc)
  resize_keeps (suc n) zero (d ∷ b) c h e = e
  resize_keeps (suc n) (suc i) (d ∷ b) c h e = resize_keeps n i b c (omega arith) e

some_eq : {B : Type 0} (a b : B) → some a ≡ some b → a ≡ b
some_eq a b e = cc

-- Elements of 8 bytes, and memory for every size.
abbrev allocator : Allocator ℕ
allocator = record {
  size_of = 8;
  size_of_pos = omega arith;
  alloc = λ bytes. some (resize (bytes / 8) []);
  realloc = λ p bytes. some (resize (bytes / 8) (cells p));
  length-alloc = λ bytes b e.
      ap length (sym (some_eq (resize (bytes / 8) []) b e)) ∙ length-resize (bytes / 8) [];
  length-realloc = λ p bytes b e.
      ap length (sym (some_eq (resize (bytes / 8) (cells p)) b e))
      ∙ length-resize (bytes / 8) (cells p);
  realloc_keeps = λ p bytes i b c e h f.
      ap (λ t. get_elem? t i) (sym (some_eq (resize (bytes / 8) (cells p)) b e))
      ∙ resize_keeps (bytes / 8) i (cells p) c h f;
}

abbrev five : List ℕ
five = 3 ∷ 1 ∷ 4 ∷ 1 ∷ 5 ∷ []

-- A worker that counts its calls, and knows errors by number.
abbrev description : ℕ → String
description n = "out of bounds"

abbrev decode : ℕ → ℕ → ℕ × ℕ × Outcome ℕ Status
decode calls parent = (calls + 1, parent + 5, passed skip)

abbrev write : ℕ → ℕ → ℕ → ℕ × Outcome ℕ (Unit {0})
write calls index stack = (calls + 1, failed 7)

abbrev finish : ℕ → ℕ × Outcome ℕ (Unit {0})
finish calls = (calls + 1, passed tt)

abbrev make : ℕ → String → Outcome ℕ ℕ
make context arg = passed context

abbrev read : ℕ → ℕ × Outcome ℕ (List ℕ)
read calls = (calls + 1, passed five)

boxes_call_example :
    (decode_box description decode 0 2 ≡ (1, 7, crossed description is_done (passed skip)))
    × (write_box description write 0 3 4 ≡ (1, crossed description (λ u. u) (failed 7)))
    × (end_box description finish 0 ≡ (1, crossed description (λ u. u) (passed tt)))
    × (new_worker_box description make 6 "x" ≡ some (crossed description (λ w. w) (make 6 "x")))
boxes_call_example = boxes_call description decode write finish make 0 2 3 4 6 "x"
