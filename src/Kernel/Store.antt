-- ===== src/Kernel/Store.antt =====
-- genet-kernel/src/store.rs: the event loop of the store, one function for each of its handlers.
-- A frame is a `Frame L`; a filter is a value of `F`, and `test` is `Filter::test` on the frame's
-- layers; `E` is the type of errors. The shared vector of frames and the shared map of filtered
-- indices are fields of the state, callbacks are events.

pub mod Filtering
pub mod Writing
pub mod EventLoop
pub mod Input
pub mod Consistent
use genet.Base.{
  ℕ, zero, suc, ◌+◌, ◌-◌, ◌%◌, ◌^◌, min, Bool, true, false, List, [], ◌∷◌, ◌++◌, map, length, take,
  drop, select, Option, none, some,
}
use genet.Base.Map.{lookup, insert, remove}
use genet.Kernel.Frame.{Frame, indices}
use genet.Kernel.Frame

-- `trait Callback`
pub data Event (E : Type 0) : Type 0 where
  frames_updated async_frames_updated : ℕ → Event E
  filtered_frames_updated : ℕ → ℕ → Event E
  output_done input_done : ℕ → Option E → Event E

pub record FilterContext (F : Type 0) : Type 0 where
  pub filter : F
  pub offset : ℕ

abbrev pub is_empty {ℓ} : {A : Type ℓ} → List A → Bool
is_empty [] = true
is_empty (_ ∷ _) = false

abbrev pub entry_or_empty : ℕ → List (ℕ × List ℕ) → List ℕ
entry_or_empty id m = elim (lookup id m) [ none ↦ [] | some v ↦ v ]

-- The frames made of new layers. `u32` sums wrap.
unfoldable pub number : {L : Type 0} → ℕ → List L → List (Frame L)
number cnt [] = []
number cnt (root ∷ roots) = Frame.new (cnt % 2 ^ 32) root ∷ number (cnt + 1) roots

-- What the loop owns and shares: the frames, the filtered indices and the callbacks made.
pub record Shared (L E : Type 0) : Type 0 where
  pub frames : List (Frame L)
  pub filtered : List (ℕ × List ℕ)
  pub events : List (Event E)

module _ {L E : Type 0} where
  abbrev pub emit : Shared L E → Event E → Shared L E
  emit s e = record s { events = s.events ++ e ∷ [] }

  -- `Store::frames`, as the frames that the pointers lead to.
  unfoldable pub frames_range : Shared L E → ℕ → ℕ → List (Frame L)
  frames_range s start end = take (end - start) (drop start s.frames)

  -- `Store::filtered_frames`
  unfoldable pub filtered_frames : Shared L E → ℕ → ℕ → ℕ → List ℕ
  filtered_frames s id start end = elim (lookup id s.filtered) [
    | none ↦ []
    | some v ↦ take (end - start) (drop start v)
  ]

  -- `Command::StoreFrames`
  unfoldable pub store_frames : Shared L E → List (Frame L) → Shared L E
  store_frames s vec =
      let frames = s.frames ++ vec in
      record s {
        frames = frames;
        events =
            s.events ++ frames_updated (length frames) ∷ async_frames_updated (length frames) ∷ [];
      }

pub record Loop (L F E : Type 0) : Type 0 where
  pub shared : Shared L E
  pub filter_map : List (ℕ × FilterContext F)
  pub cnt : ℕ
  -- The channels to the two pools, oldest batch first.
  pub to_parallel : List (List (Frame L))
  pub to_serial : List (List (Frame L))

pub data InputResult (L E : Type 0) : Type 0 where
  ok : List L → InputResult L E
  err : E → InputResult L E

module _ {L F E : Type 0} where
  abbrev tell_input : Loop L F E → Option ℕ → Option E → Loop L F E
  tell_input s none e = s
  tell_input s (some id) e = record s { shared = emit s.shared (input_done id e) }

  unfoldable pub process_input : Loop L F E → Option ℕ → InputResult L E → Loop L F E
  unfolding number
  process_input s id (ok []) = tell_input s id none
  process_input s id (ok (root ∷ roots)) =
      let frames = number s.cnt (root ∷ roots) in
      record s {
        cnt = (s.cnt + length frames) % 2 ^ 32;
        to_parallel = s.to_parallel ++ frames ∷ [];
      }
  process_input s id (err e) = tell_input s id (some e)

  unfoldable pub process_push_filter : Loop L F E → ℕ → Option F → Loop L F E
  process_push_filter s id (some filter) = record s {
    shared = record s.shared {
      filtered = remove id s.shared.filtered;
      events = s.shared.events ++ filtered_frames_updated id 0 ∷ [];
    };
    filter_map = insert id (record { filter = filter; offset = 0 }) s.filter_map;
  }
  process_push_filter s id none = record s {
    shared = record s.shared { filtered = remove id s.shared.filtered };
    filter_map = remove id s.filter_map;
  }
