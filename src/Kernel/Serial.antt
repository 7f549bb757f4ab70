-- ===== src/Kernel/Serial.antt =====
-- genet-kernel/src/decoder/serial.rs: the thread of the serial pool. Batches of frames come in any
-- order; it keeps those that are early in a map and hands them on in the order of their indices.
-- `process_frame` is the dispatcher's, and `D` the dispatcher with the state of its decoders.
-- A stored batch is never empty, so it is a first frame with the rest.
pub mod Order
pub mod Complete
use genet.Base.{ℕ, zero, suc, ◌+◌, ◌≡◌, List, [], ◌∷◌, ◌++◌, length, Option, none, some}
use genet.Base.Map.{lookup, insert, remove}
use genet.Kernel.Frame.{Frame}

pub record Pool (L D : Type 0) : Type 0 where
  pub map : List (ℕ × (Frame L × List (Frame L)))
  pub next : ℕ
  pub disp : D
  -- The batches passed to `callback.done`, in order.
  pub done : List (List (Frame L))

module _ {L : Type 0} where
  -- `frames.last().unwrap().index()`
  unfoldable pub last_index : Frame L → List (Frame L) → ℕ
  last_index f [] = f.index
  last_index f (g ∷ gs) = last_index g gs

  abbrev pub concat : List (List (Frame L)) → List (Frame L)
  concat [] = []
  concat (b ∷ bs) = b ++ concat bs

module _ {L D : Type 0} (process_frame : D → Frame L → D × Frame L) where
  unfoldable pub init : D → Pool L D
  init disp = record { map = []; next = 0; disp = disp; done = [] }

  unfoldable pub process_batch : D → List (Frame L) → D × List (Frame L)
  process_batch d [] = (d, [])
  process_batch d (f ∷ fs) =
      let (d', f') = process_frame d f in let (d'', fs') = process_batch d' fs in (d'', f' ∷ fs')

  -- The body of `while let Some(mut frames) = map.remove(&next)`.
  unfoldable pub serve : Pool L D → Frame L → List (Frame L) → Pool L D
  unfolding process_batch
  serve s f fs =
      let (d, out) = process_batch s.disp (f ∷ fs) in
      record s {
        map = remove s.next s.map;
        next = last_index f fs + 1;
        disp = d;
        done = s.done ++ out ∷ [];
      }

  unfoldable pub drain : ℕ → Pool L D → Pool L D
  drain zero s = s
  drain (suc fuel) s = elim (lookup s.next s.map) [
    | none ↦ s
    | some (f, fs) ↦ drain fuel (serve s f fs)
  ]

  unfoldable pub keep : Pool L D → List (Frame L) → Pool L D
  keep s [] = s
  keep s (f ∷ fs) = record s { map = insert f.index (f, fs) s.map }

  -- One message. Each round of the loop takes an entry out of the map.
  unfoldable pub receive : Pool L D → List (Frame L) → Pool L D
  unfolding keep drain
  receive s frames = let t = keep s frames in drain (suc (length t.map)) t

  unfoldable pub receive_all : Pool L D → List (List (Frame L)) → Pool L D
  receive_all s [] = s
  receive_all s (b ∷ bs) = receive_all (receive s b) bs
