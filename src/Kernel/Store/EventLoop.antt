-- ===== src/Kernel/Store/EventLoop.antt =====
-- The commands of the event loop of genet-kernel/src/store.rs, and one round of it. The constructor
-- `keep_frames` is `Command::StoreFrames`.
use genet.Base.{ℕ, Bool, true, false, List, [], ◌∷◌, ◌++◌, Option, none, some, if◌then◌else◌}
use genet.Kernel.Frame.{Frame}
use genet.Kernel.Store.{
  Loop, InputResult, frames_updated, async_frames_updated, process_input, process_push_filter,
  store_frames,
}
use genet.Kernel.Store.Filtering.{process_filters}
use genet.Kernel.Store.Writing.{Output, process_output}

-- `enum Command`; an output brings its worker and its operations.
pub data Command (L F E : Type 0) : Type 1 where
  push_frames : Option ℕ → InputResult L E → Command L F E
  push_serial_frames : List (Frame L) → Command L F E
  keep_frames : List (Frame L) → Command L F E
  set_filter : ℕ → Option F → Command L F E
  push_output : (out : Output L E) → ℕ → out.Worker → Option F → Command L F E
  close : Command L F E

module _ {L F E : Type 0} where
  unfoldable pub start : Loop L F E
  start = record {
    shared = record {
      frames = [];
      filtered = [];
      events = frames_updated 0 ∷ async_frames_updated 0 ∷ [];
    };
    filter_map = [];
    cnt = 0;
    to_parallel = [];
    to_serial = [];
  }

module _ {L F E : Type 0} (test : F → Frame L → Bool) where
  unfoldable pub handle : Loop L F E → Command L F E → Loop L F E
  handle s (push_frames id result) = process_input s id result
  handle s (push_serial_frames vec) = record s { to_serial = s.to_serial ++ vec ∷ [] }
  handle s (keep_frames vec) = record s { shared = store_frames s.shared vec }
  handle s (set_filter id filter) = process_push_filter s id filter
  handle s (push_output out id w filter) = (process_output test out s id w filter).1
  handle s close = s

  abbrev pub is_close : Command L F E → Bool
  is_close close = true
  is_close _ = false

  -- One round of the loop; `none` when it returns.
  unfoldable pub round : Loop L F E → Command L F E → Option (Loop L F E)
  round s cmd = if is_close cmd then none else some (process_filters test (handle s cmd))

  -- The state after a history of commands; the loop ends at the first `close`.
  unfoldable pub run : Loop L F E → List (Command L F E) → Loop L F E
  run s [] = s
  run s (cmd ∷ cmds) = elim (round s cmd) [ none ↦ s | some t ↦ run t cmds ]
