-- ===== src/Kernel/Store/Writing.antt =====
-- `EventLoop::process_output` of genet-kernel/src/store.rs: the frames that pass the filter are
-- written in blocks, and the first error stops the output.
pub mod Blocks
use genet.Base.{
  ℕ, zero, suc, ◌+◌, ◌-◌, ◌%◌, ◌^◌, min, Bool, true, false, List, [], ◌∷◌, ◌++◌, map, length, take,
  drop, select, Option, none, some, ltb, leb, if◌then◌else◌,
}
use genet.Base.Map.{lookup, insert, remove}
use genet.Kernel.Frame.{Frame, indices}
use genet.Kernel.Store.{Shared, Loop, Event, output_done, emit}

abbrev pub output_block_size : ℕ
output_block_size = 65536

-- `Box<Output>`: a worker state with a fallible write and end.
pub record Output (L E : Type 0) : Type 1 where
  pub Worker : Type 0
  pub write : Worker → List (Frame L) → Worker × Option E
  pub end : Worker → Worker × Option E

module _ {L F : Type 0} (test : F → Frame L → Bool) where
  -- `filter.as_ref().map_or(true, |f| f.test(&ctx))`
  unfoldable pub passes : Option F → Frame L → Bool
  passes none frame = true
  passes (some f) frame = test f frame

module _ {L F E : Type 0} (test : F → Frame L → Bool) (out : Output L E) where
  open out use {Worker, write, end}

  -- The rest of `process_output` at an offset: the worker's last state and the error reported.
  unfoldable pub output_from : ℕ → ℕ → Option F → List (Frame L) → ℕ → Worker → Worker × Option E
  output_from zero block filter frames offset w = end w
  output_from (suc fuel) block filter frames offset w =
      let len = min block (length frames - offset) in
      let (w', error) = write w (select (passes test filter) (take len (drop offset frames))) in
      let more = output_from fuel block filter frames (offset + len) w' in
      let written : Worker × Option E = elim error [ some e ↦ (w', some e) | none ↦ more ] in
      if ltb offset (length frames) then written else end w

  unfoldable pub process_output : Loop L F E → ℕ → Worker → Option F → Worker × Loop L F E
  process_output s id w filter =
      let frames = s.shared.frames in
      let (w', error) = output_from (suc (length frames)) output_block_size filter frames 0 w in
      (w', record s { shared = emit s.shared (output_done id error) })
