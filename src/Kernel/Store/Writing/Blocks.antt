-- ===== src/Kernel/Store/Writing/Blocks.antt =====
-- What an output receives from `process_output` of genet-kernel/src/store.rs.
use genet.Base.{
  ℕ, zero, suc, ◌+◌, ◌-◌, ◌<◌, ◌≡◌, refl, sym, ap, ◌∙◌, min, Bool, List, [], ◌∷◌, length, take,
  drop, select, Option, none, some, ltb, if◌then◌else◌, arith, Bool-cases, inl, inr, select-append,
  drop-all, drop-add, take-append-drop,
}
use genet.Kernel.Frame.{Frame}
use genet.Kernel.Serial.{concat}
use genet.Kernel.Store.{Loop, emit, output_done}
use genet.Kernel.Store.Writing.{Output, passes, output_from, process_output, output_block_size}

module _ {L E : Type 0} (out : Output L E) where
  open out use {Worker, write, end}

  -- Write the blocks one after the other, stop at the first error, and end the output otherwise.
  pub feed : Worker → List (List (Frame L)) → Worker × Option E
  feed w [] = end w
  feed w (b ∷ bs) =
      let (w', error) = write w b in
      let rest = feed w' bs in
      let result : Worker × Option E = elim error [ some e ↦ (w', some e) | none ↦ rest ] in result

module _ {L F : Type 0} (test : F → Frame L → Bool) (block : ℕ) (filter : Option F) where
  blocks : ℕ → List (Frame L) → ℕ → List (List (Frame L))
  blocks zero frames offset = []
  blocks (suc fuel) frames offset =
      let len = min block (length frames - offset) in
      let rest = blocks fuel frames (offset + len) in
      if ltb offset (length frames)
      then select (passes test filter) (take len (drop offset frames)) ∷ rest
      else []

  concat-blocks :
      (fuel : ℕ) (frames : List (Frame L)) (offset : ℕ)
      → 0 < block
      → length frames - offset < fuel
      → concat (blocks fuel frames offset) ≡ select (passes test filter) (drop offset frames)
  unfolding blocks
  concat-blocks zero frames offset b h = absurd (omega arith)
  concat-blocks (suc fuel) frames offset b h =
      let p = passes test filter in
      let len = min block (length frames - offset) in
      elim (Bool-cases (ltb offset (length frames))) [
        | inl more ↦
            rw (more, concat-blocks fuel frames (offset + len) b (ground arith))
              (rw drop-add (
                sym (select-append p (take len (drop offset frames)) _)
                ∙ ap (select p) (take-append-drop len (drop offset frames))))
        | inr done ↦ rw (done, drop-all offset frames (ground arith))
      ]

  module _ {E : Type 0} (out : Output L E) where
    output_from-feed :
        (fuel : ℕ) (frames : List (Frame L)) (offset : ℕ) (w : out.Worker)
        → output_from test out fuel block filter frames offset w
          ≡ feed out w (blocks fuel frames offset)
    unfolding output_from blocks feed
    output_from-feed zero frames offset w = refl
    output_from-feed (suc fuel) frames offset w =
        let len = min block (length frames - offset) in
        let sent = select (passes test filter) (take len (drop offset frames)) in
        let ih = output_from-feed fuel frames (offset + len) (out.write w sent).0 in
        elim (Bool-cases (ltb offset (length frames))) [
          | inr done ↦ rw (done, feed)
          | inl more ↦ rw (more, feed) (ground (arith, ih))
        ]

module _ {L F E : Type 0} (test : F → Frame L → Bool) (out : Output L E) where
  -- Every output is fed blocks that put together are the stored frames that pass the filter, in
  -- order; the first write that fails ends it with that error and without `end`, and the one
  -- callback made reports the error, or none.
  pub process_output_blocks :
      (s : Loop L F E) (id : ℕ) (w : out.Worker) (filter : Option F)
      → (bs : List (List (Frame L))) × (concat bs ≡ select (passes test filter) s.shared.frames)
        × (process_output test out s id w filter ≡ (
          (feed out w bs).0,
          record s { shared = emit s.shared (output_done id (feed out w bs).1) },
        ))
  unfolding process_output
  process_output_blocks s id w filter =
      let frames = s.shared.frames in
      let fuel = suc (length frames) in
      (
        blocks test output_block_size filter fuel frames 0,
        concat-blocks test output_block_size filter fuel frames 0 (omega arith) (omega arith),
        rw (output_from-feed test output_block_size filter out fuel frames 0 w),
      )
