-- ===== src/Kernel/Store/Filtering.antt =====
-- `EventLoop::process_filters` of genet-kernel/src/store.rs: each filter looks at the frames that it
-- has not seen, a block at a time, and the indices of those that pass are appended.
pub mod Correct
pub mod Every
use genet.Base.{
  ℕ, zero, suc, ◌+◌, ◌-◌, ◌%◌, ◌^◌, min, Bool, true, false, List, [], ◌∷◌, ◌++◌, map, length, take,
  drop, select, Option, none, some, ltb, leb, if◌then◌else◌,
}
use genet.Base.Map.{lookup, insert, remove}
use genet.Kernel.Frame.{Frame, indices}
use genet.Kernel.Store.{Shared, Loop, FilterContext, Event, filtered_frames_updated, entry_or_empty}

abbrev pub max_filter_size : ℕ
max_filter_size = 16384

module _ {L F : Type 0} (test : F → Frame L → Bool) where
  -- The indices found among the next `block` frames of one filter.
  unfoldable pub matches : ℕ → FilterContext F → List (Frame L) → List ℕ
  matches block fctx frames =
      indices (select (test fctx.filter) (take block (drop fctx.offset frames)))

  unfoldable pub advance : ℕ → FilterContext F → List (Frame L) → FilterContext F
  advance block fctx frames = record fctx { offset = min (length frames) (fctx.offset + block) }

module _ {L E : Type 0} where
  unfoldable pub add_indices : Shared L E → ℕ → List ℕ → Shared L E
  add_indices s id [] = s
  add_indices s id (i ∷ is) =
      let v = entry_or_empty id s.filtered ++ i ∷ is in
      record s {
        filtered = insert id v s.filtered;
        events = s.events ++ filtered_frames_updated id (length v) ∷ [];
      }

module _ {L F E : Type 0} (test : F → Frame L → Bool) where
  -- The inner loop of `process_filters`, for one filter.
  unfoldable pub run_filter :
      ℕ → ℕ → Shared L E → ℕ → FilterContext F → Shared L E × FilterContext F
  unfolding matches advance add_indices
  run_filter zero block s id fctx = (s, fctx)
  run_filter (suc fuel) block s id fctx =
      let fctx' = advance test block fctx s.frames in
      let s' = add_indices s id (matches test block fctx s.frames) in
      let more = run_filter fuel block s' id fctx' in
      if leb (length s.frames) fctx'.offset then (s', fctx') else more

  unfoldable pub run_filters :
      ℕ → Shared L E → List (ℕ × FilterContext F) → Shared L E × List (ℕ × FilterContext F)
  run_filters block s [] = (s, [])
  run_filters block s ((id, fctx) ∷ rest) =
      let (s', fctx') = run_filter (suc (length s.frames)) block s id fctx in
      let (s'', rest') = run_filters block s' rest in (s'', (id, fctx') ∷ rest')

  unfoldable pub process_filters : Loop L F E → Loop L F E
  process_filters s =
      let (shared, filter_map) = run_filters max_filter_size s.shared s.filter_map in
      record s { shared = shared; filter_map = filter_map }
