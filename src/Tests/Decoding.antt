-- ===== src/Tests/Decoding.antt =====
-- A run of the threads with a dispatcher for each: one layer of input becomes a decoded frame.
use genet.Base.{ℕ, refl, arith, true, Bool, List, [], ◌∷◌, ◌++◌, Option, none, some}
use genet.Base.Map.{lookup, insert, remove}
use genet.Kernel.Frame
use genet.Kernel.Frame.{
  Frame, Consecutive, fetch_layers, fetch_tree_indices, set_layers, set_tree_indices,
}
use genet.Kernel.Dispatcher.{
  process_frame, passes, visit, rounds, round as runners_round, execute_once, execute,
}
use genet.Kernel.Serial
use genet.Kernel.Store.{
  frames_updated, async_frames_updated, number, process_input, store_frames, ok,
}
use genet.Kernel.Store.Filtering.{process_filters, run_filters}
use genet.Kernel.Store.EventLoop.{
  Command, push_frames, push_serial_frames, keep_frames, round, start, handle,
}
use genet.Kernel.Pipeline.{
  System, Reach, init, send, turn, decode, finish, order, hand_on, here, next,
}
use genet.Kernel.Pipeline.Decoding.{dispatch, decoded_positions}
use genet.Tests.Dispatcher.{add_next, add_next-OnlyDoneAdds}

abbrev every : ℕ → Frame ℕ → Bool
every n frame = true

abbrev Run : Type 1
Run = System ℕ ℕ ℕ (List (Option ℕ)) (List (Option ℕ))

abbrev fresh : List (Frame ℕ)
fresh = record { index = 0; layers = 0 ∷ []; tree_indices = [] } ∷ []

abbrev once_decoded : List (Frame ℕ)
once_decoded = record { index = 0; layers = 0 ∷ 1 ∷ []; tree_indices = 1 ∷ 0 ∷ [] } ∷ []

abbrev twice_decoded : List (Frame ℕ)
twice_decoded = record { index = 0; layers = 0 ∷ 1 ∷ []; tree_indices = 1 ∷ 0 ∷ 0 ∷ [] } ∷ []

abbrev r0 : Run
r0 = init every (dispatch add_next) (dispatch add_next) ((some 0 ∷ []) ∷ []) (some 9 ∷ [])

abbrev input : Command ℕ ℕ ℕ
input = push_frames none (ok (0 ∷ []))

abbrev r1 : Run
r1 = record r0 { commands = input ∷ [] }

abbrev r2 : Run
r2 = record r1 { loop = record r0.loop { cnt = 1; to_parallel = fresh ∷ [] }; commands = [] }

abbrev r3 : Run
r3 = record r2 { loop = record r2.loop { to_parallel = [] }; busy = once_decoded ∷ [] }

abbrev r4 : Run
r4 = record r3 { busy = []; commands = push_serial_frames once_decoded ∷ [] }

abbrev r5 : Run
r5 = record r4 { loop = record r4.loop { to_serial = once_decoded ∷ [] }; commands = [] }

abbrev r6 : Run
r6 = record r5 {
  loop = record r5.loop { to_serial = [] };
  serial = record { map = []; next = 1; disp = some 9 ∷ []; done = twice_decoded ∷ [] };
  sending = twice_decoded ∷ [];
}

abbrev r_sent : Run
r_sent = record r6 { sending = []; commands = keep_frames twice_decoded ∷ [] }

abbrev r7 : Run
r7 = record r_sent {
  loop = record r6.loop {
    shared = record r6.loop.shared {
      frames = twice_decoded;
      events = r6.loop.shared.events ++ frames_updated 1 ∷ async_frames_updated 1 ∷ [];
    };
  };
  commands = [];
}

frame_arrives : Reach every (dispatch add_next) (dispatch add_next) r0 r7
unfolding init start round handle process_input number store_frames process_filters run_filters
    lookup insert remove Serial.receive Serial.init Serial.keep Serial.drain Serial.serve
    Serial.process_batch Serial.last_index Frame.new dispatch process_frame passes visit rounds
    runners_round execute_once execute fetch_layers fetch_tree_indices set_layers set_tree_indices
frame_arrives =
    next
      (next
        (next
          (next
            (next
              (next
                (next (next here (send r0 input tt))
                  (turn r1 input [] r2.loop refl (omega arith) refl))
                (decode r2 fresh [] [] [] (some 0 ∷ []) refl refl))
              (finish r3 [] [] once_decoded refl))
            (turn r4 (push_serial_frames once_decoded) [] r5.loop refl tt refl))
          (order r5 once_decoded [] r6.serial refl refl refl))
        (hand_on r6 twice_decoded [] refl))
      (turn r_sent (keep_frames twice_decoded) [] r7.loop refl tt refl)

decoded_positions_example : Consecutive 0 r7.loop.shared.frames
decoded_positions_example =
    decoded_positions every add_next add_next-OnlyDoneAdds ((some 0 ∷ []) ∷ []) (some 9 ∷ []) r7
      frame_arrives
