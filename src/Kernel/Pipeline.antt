-- ===== src/Kernel/Pipeline.antt =====
-- The threads of genet-kernel/src together: store.rs starts an event loop, the workers of
-- decoder/parallel.rs and the thread of decoder/serial.rs, which talk over channels. A step is one
-- turn of one thread; any interleaving is a sequence of steps.

pub mod Effects
pub mod Flow
pub mod Positions
pub mod Decoding
use genet.Base.{ℕ, ◌+◌, ◌^◌, ◌≤◌, ◌≡◌, Bool, List, [], ◌∷◌, ◌++◌, map, length, drop, Option, some}
use genet.Kernel.Frame.{Frame}
use genet.Kernel.Serial
use genet.Kernel.Serial.{Pool}
use genet.Kernel.Store.{Loop, InputResult, ok}
use genet.Kernel.Store.EventLoop.{
  Command, push_frames, push_serial_frames, keep_frames, round, start,
}

pub record System (L F E D W : Type 0) : Type 1 where
  pub loop : Loop L F E
  -- The channel to the event loop, oldest command first.
  pub commands : List (Command L F E)
  -- The batches that the parallel workers have finished and not yet sent.
  pub busy : List (List (Frame L))
  -- The state of each parallel worker, its own dispatcher.
  pub workers : List W
  pub serial : Pool L D
  -- The batches that the serial thread has decoded and not yet sent on, oldest first.
  pub sending : List (List (Frame L))

-- Commands that come from outside: the readers' input, and the calls of `Store`.
module _ {L F E : Type 0} where
  abbrev pub IsExternal : Command L F E → Type 0
  IsExternal (push_serial_frames vec) = ⊥
  IsExternal (keep_frames vec) = ⊥
  IsExternal _ = Unit

  -- The input adds no frame whose number would not fit in a `u32`.
  abbrev pub Fits : ℕ → Command L F E → Type 0
  Fits cnt (push_frames id (ok layers)) = cnt + length layers ≤ 2 ^ 32
  Fits cnt _ = Unit

module _ {L F E D W : Type 0} (test : F → Frame L → Bool) (parallel : W → Frame L → W × Frame L)
    (serial : D → Frame L → D × Frame L) where
  unfoldable pub init : List W → D → System L F E D W
  init ws d = record {
    loop = start;
    commands = [];
    busy = [];
    workers = ws;
    serial = Serial.init serial d;
    sending = [];
  }

  pub data Step : System L F E D W → System L F E D W → Type 1 where
    -- A command is sent from outside.
    send :
        (s : System L F E D W) (cmd : Command L F E)
        → IsExternal cmd
        → Step s (record s { commands = s.commands ++ cmd ∷ [] })
    -- The event loop handles the oldest command.
    turn :
        (s : System L F E D W) (cmd : Command L F E) (rest : List (Command L F E)) (t : Loop L F E)
        → s.commands ≡ cmd ∷ rest
        → Fits s.loop.cnt cmd
        → round test s.loop cmd ≡ some t
        → Step s (record s { loop = t; commands = rest })
    -- One of the parallel workers decodes the oldest batch of their channel.
    decode :
        (s : System L F E D W) (b : List (Frame L)) (rest : List (List (Frame L)))
        (before after : List W) (w : W)
        → s.loop.to_parallel ≡ b ∷ rest
        → s.workers ≡ before ++ w ∷ after
        → Step s (record s {
          loop = record s.loop { to_parallel = rest };
          workers = before ++ (Serial.process_batch parallel w b).0 ∷ after;
          busy = (Serial.process_batch parallel w b).1 ∷ s.busy;
        })
    -- Workers finish in any order: `ParallelCallback::done`.
    finish :
        (s : System L F E D W) (xs ys : List (List (Frame L))) (b : List (Frame L))
        → s.busy ≡ xs ++ b ∷ ys
        → Step s (record s { busy = xs ++ ys; commands = s.commands ++ push_serial_frames b ∷ [] })
    -- The serial thread, which has sent all that it decoded, receives the oldest batch and decodes
    -- the batches whose turn it is.
    order :
        (s : System L F E D W) (b : List (Frame L)) (rest : List (List (Frame L))) (pool : Pool L D)
        → s.loop.to_serial ≡ b ∷ rest
        → Serial.receive serial s.serial b ≡ pool
        → s.sending ≡ []
        → Step s (record s {
          loop = record s.loop { to_serial = rest };
          serial = pool;
          sending = drop (length s.serial.done) pool.done;
        })
    -- It sends one of them: `SerialCallback::done`.
    hand_on :
        (s : System L F E D W) (b : List (Frame L)) (rest : List (List (Frame L)))
        → s.sending ≡ b ∷ rest
        → Step s (record s { sending = rest; commands = s.commands ++ keep_frames b ∷ [] })

  pub data Reach (s : System L F E D W) : System L F E D W → Type 1 where
    here : Reach s s
    next : {t u : System L F E D W} → Reach s t → Step t u → Reach s u
