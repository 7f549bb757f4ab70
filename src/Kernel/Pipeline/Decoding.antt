-- ===== src/Kernel/Pipeline/Decoding.antt =====
-- The threads with the dispatchers that they run: decoder/parallel.rs and decoder/serial.rs of
-- genet-kernel/src/decoder, with a dispatcher for each worker and one for the serial thread.
use genet.Base.{◌≡◌, refl, Bool, List, Option, some, none}
use genet.Kernel.Frame.{Frame, Consecutive}
use genet.Kernel.Dispatcher.{Outcome, process_frame}
use genet.Kernel.Dispatcher.Rounds.{OnlyDoneAdds}
use genet.Kernel.Dispatcher.Always.{process_frame-ends}
use genet.Kernel.Pipeline.{System, init, Reach}
use genet.Kernel.Pipeline.Positions.{reachable_positions}

module _ {W L : Type 0} (decode : W → List L → L → Outcome W L) where
  -- `process_frame` as a total function; `dispatch-process_frame` says that it never falls back.
  unfoldable pub dispatch : List (Option W) → Frame L → List (Option W) × Frame L
  dispatch runners frame = elim (process_frame decode runners frame) [
    | some result ↦ result
    | none ↦ (runners, frame)
  ]

  pub dispatch-process_frame :
      OnlyDoneAdds decode
      → (runners : List (Option W)) (frame : Frame L)
      → process_frame decode runners frame ≡ some (dispatch runners frame)
  unfolding dispatch
  dispatch-process_frame only runners frame =
      let (left, result, e, _, _) = process_frame-ends decode only runners frame in
      rw (e, dispatch) refl

  dispatch-index :
      OnlyDoneAdds decode
      → (runners : List (Option W)) (frame : Frame L)
      → (dispatch runners frame).1.index ≡ frame.index
  unfolding dispatch
  dispatch-index only runners frame =
      let (left, result, e, same, _) = process_frame-ends decode only runners frame in
      rw (e, dispatch) same

module _ {W L F E : Type 0} (test : F → Frame L → Bool) (decode : W → List L → L → Outcome W L)
    (only : OnlyDoneAdds decode) where
  -- When the workers and the serial thread run dispatchers over decoders that add no child to a
  -- layer that they skip, and the input never runs past the numbers of a `u32`, then in every
  -- state that the threads can reach the frames of the store are numbered 0, 1, 2, … in the order
  -- of their positions.
  pub decoded_positions :
      (workers : List (List (Option W))) (serial : List (Option W))
      (s : System L F E (List (Option W)) (List (Option W)))
      → Reach test
          (dispatch decode)
          (dispatch decode)
          (init test (dispatch decode) (dispatch decode) workers serial)
          s
      → Consecutive 0 s.loop.shared.frames
  decoded_positions workers serial s r =
      reachable_positions test (dispatch decode) (dispatch-index decode only) (dispatch decode)
        (dispatch-index decode only) workers serial s r
