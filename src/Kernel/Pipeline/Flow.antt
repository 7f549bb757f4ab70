-- ===== src/Kernel/Pipeline/Flow.antt =====
-- What the event loop sends on and stores, command by command.
use genet.Base.{◌≡◌, refl, ◌∙◌, Bool, List, [], ◌∷◌, ◌++◌, none, some, append_assoc}
use genet.Kernel.Frame.{Frame, IsBatch, AreBatches, AreBatches-append}
use genet.Kernel.Serial.{concat}
use genet.Kernel.Store.{Loop, ok, err, process_input, store_frames, process_push_filter}
use genet.Kernel.Store.Writing.{process_output}
use genet.Kernel.Store.EventLoop.{
  Command, push_frames, push_serial_frames, keep_frames, set_filter, push_output, close, handle,
}
use genet.Kernel.Pipeline.{IsExternal, Fits}
use genet.Kernel.Pipeline.Effects.{number-Consecutive, kept}

module _ {L F E : Type 0} where
  abbrev pub ArePassed : List (Command L F E) → Type 0
  ArePassed [] = Unit
  ArePassed (push_serial_frames b ∷ cs) = IsBatch b × ArePassed cs
  ArePassed (_ ∷ cs) = ArePassed cs

  pub ArePassed-append :
      (cs ds : List (Command L F E)) → ArePassed cs → ArePassed ds → ArePassed (cs ++ ds)
  ArePassed-append [] ds p q = q
  ArePassed-append (push_serial_frames b ∷ cs) ds p q = (p.0, ArePassed-append cs ds p.1 q)
  ArePassed-append (_ ∷ cs) ds p q = ArePassed-append cs ds p q

  pub ArePassed-external : (cmd : Command L F E) → IsExternal cmd → ArePassed (cmd ∷ [])
  ArePassed-external (push_serial_frames b) e = absurd e
  ArePassed-external _ e = tt

  pub kept-external : (cmd : Command L F E) → IsExternal cmd → kept (cmd ∷ []) ≡ []
  kept-external (keep_frames b) e = absurd e
  kept-external (push_serial_frames b) e = absurd e
  kept-external _ e = refl

module _ {L F E : Type 0} (test : F → Frame L → Bool) where
  -- What the event loop needs to know of a command, and what it keeps.
  pub record Flow (s : Loop L F E) (cs : List (Command L F E)) (sent : List (Frame L))
      : Type 0 where
    pub to_parallel : AreBatches s.to_parallel
    pub to_serial : AreBatches s.to_serial
    pub passed : ArePassed cs
    pub stored : s.shared.frames ++ concat (kept cs) ≡ sent

  pub keep_Flow :
      {s : Loop L F E} {cs : List (Command L F E)} {sent : List (Frame L)}
      → AreBatches s.to_parallel
      → AreBatches s.to_serial
      → ArePassed cs
      → s.shared.frames ++ concat (kept cs) ≡ sent
      → Flow s cs sent
  keep_Flow a b c d = record { to_parallel = a; to_serial = b; passed = c; stored = d }

  pub handle-Flow :
      (s : Loop L F E) (cmd : Command L F E) (cs : List (Command L F E)) (sent : List (Frame L))
      → Fits s.cnt cmd
      → Flow s (cmd ∷ cs) sent
      → Flow (handle test s cmd) cs sent
  unfolding handle process_input store_frames process_push_filter process_output
  handle-Flow s (push_frames none (ok [])) cs sent f v =
      keep_Flow v.to_parallel v.to_serial v.passed v.stored
  handle-Flow s (push_frames (some id) (ok [])) cs sent f v =
      keep_Flow v.to_parallel v.to_serial v.passed v.stored
  handle-Flow s (push_frames id (ok (root ∷ roots))) cs sent f v = record {
    to_parallel =
        AreBatches-append s.to_parallel _ v.to_parallel
          ((s.cnt, number-Consecutive s.cnt (root ∷ roots) f), tt);
    to_serial = v.to_serial;
    passed = v.passed;
    stored = v.stored;
  }
  handle-Flow s (push_frames none (err e)) cs sent f v =
      keep_Flow v.to_parallel v.to_serial v.passed v.stored
  handle-Flow s (push_frames (some id) (err e)) cs sent f v =
      keep_Flow v.to_parallel v.to_serial v.passed v.stored
  handle-Flow s (push_serial_frames vec) cs sent f v = record {
    to_parallel = v.to_parallel;
    to_serial = AreBatches-append s.to_serial (vec ∷ []) v.to_serial (v.passed.0, tt);
    passed = v.passed.1;
    stored = v.stored;
  }
  handle-Flow s (keep_frames vec) cs sent f v = record {
    to_parallel = v.to_parallel;
    to_serial = v.to_serial;
    passed = v.passed;
    stored = append_assoc s.shared.frames vec (concat (kept cs)) ∙ v.stored;
  }
  handle-Flow s (set_filter id (some filter)) cs sent f v =
      keep_Flow v.to_parallel v.to_serial v.passed v.stored
  handle-Flow s (set_filter id none) cs sent f v =
      keep_Flow v.to_parallel v.to_serial v.passed v.stored
  handle-Flow s (push_output out id w filter) cs sent f v =
      keep_Flow v.to_parallel v.to_serial v.passed v.stored
  handle-Flow s close cs sent f v = keep_Flow v.to_parallel v.to_serial v.passed v.stored
