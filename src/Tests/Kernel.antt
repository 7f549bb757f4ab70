-- ===== src/Tests/Kernel.antt =====
-- Runs of the store, of the serial pool and of the threads together.
use genet.Base.{
  if◌then◌else◌, ℕ, ◌+◌, ◌≡◌, refl, Bool, List, [], ◌∷◌, ◌++◌, none, some, leb, arith, get_elem?,
  length, take, drop, select, false, map,
}
use genet.Kernel.Frame.{Frame, Consecutive, AreBatches}
use genet.Kernel.Frame
use genet.Kernel.Serial
use genet.Kernel.Serial.{Pool, concat}
use genet.Kernel.Serial.Order.{receive_all_ordered}
use genet.Kernel.Serial.Complete.{receive_all_complete, NoneBeginsAt}
use genet.Base.Map.{lookup, insert, remove}
use genet.Kernel.Store.Filtering.{
  process_filters, run_filters, run_filter, matches, advance, add_indices,
}
use genet.Kernel.Store.{
  frames_updated, async_frames_updated, number, process_input, process_push_filter, store_frames,
  emit, output_done, Loop, ok, filtered_frames,
}
use genet.Kernel.Store.Writing.{Output, passes, process_output}
use genet.Kernel.Store.Writing.Blocks.{process_output_blocks, feed}
use genet.Kernel.Store.EventLoop.{
  Command, push_frames, push_serial_frames, keep_frames, set_filter, round, run, start, handle,
}
use genet.Kernel.Store.Consistent.{run-filtered_frames, expected}
use genet.Kernel.Pipeline.{
  System, Reach, init, send, turn, decode, finish, order, hand_on, here, next,
}
use genet.Kernel.Pipeline.Positions.{reachable_positions}
use genet.Kernel.ArrayVec
use genet.Kernel.ArrayVec.{ArrayVec, found, absent}
use genet.Kernel.ArrayVec.Refines.{get-extend}

-- A layer is a number, and a filter `n` passes the frames whose first layer is at least `n`.
abbrev test : ℕ → Frame ℕ → Bool
test n frame = elim frame.layers [ [] ↦ false | root ∷ _ ↦ leb n root ]

abbrev unchanged : ℕ → Frame ℕ → ℕ × Frame ℕ
unchanged w frame = (w + 1, frame)

same_index : (w : ℕ) (f : Frame ℕ) → (unchanged w f).1.index ≡ f.index
same_index w f = refl

abbrev frame : ℕ → ℕ → Frame ℕ
frame index root = record { index = index; layers = root ∷ []; tree_indices = [] }

-- The second batch comes first.
abbrev batches : List (List (Frame ℕ))
batches = (frame 2 9 ∷ frame 3 4 ∷ []) ∷ (frame 0 5 ∷ frame 1 7 ∷ []) ∷ []

batches-AreBatches : AreBatches batches
batches-AreBatches = ((2, (refl, (refl, tt))), ((0, (refl, (refl, tt))), tt))

receive_all_ordered_example :
    let s = Serial.receive_all unchanged (Serial.init unchanged 0) batches in
    Consecutive 0 (concat s.done) × (length (concat s.done) ≡ s.next)
receive_all_ordered_example = receive_all_ordered unchanged same_index 0 batches batches-AreBatches

receive_all_complete_example :
    NoneBeginsAt (Serial.receive_all unchanged (Serial.init unchanged 0) batches).next batches
receive_all_complete_example =
    receive_all_complete unchanged same_index 0 batches batches-AreBatches

handed_on :
    concat (Serial.receive_all unchanged (Serial.init unchanged 0) batches).done
    ≡ frame 0 5 ∷ frame 1 7 ∷ frame 2 9 ∷ frame 3 4 ∷ []
unfolding Serial.receive_all Serial.receive Serial.init Serial.keep Serial.drain Serial.serve
    Serial.process_batch Serial.last_index lookup insert remove
handed_on = refl

-- A filter is set, frames are stored before and after, and the filter is set again.
abbrev history : List (Command ℕ ℕ ℕ)
history =
    keep_frames (frame 0 5 ∷ frame 1 7 ∷ [])
    ∷ set_filter 1 (some 6)
    ∷ keep_frames (frame 2 9 ∷ frame 3 4 ∷ [])
    ∷ []

run-filtered_frames_example :
    let s = run test start history in
    filtered_frames s.shared 1 0 9 ≡ take 9 (drop 0 (expected test s 1))
run-filtered_frames_example = run-filtered_frames test history 1 0 9

filtered_of_history : filtered_frames (run test start history).shared 1 0 9 ≡ 1 ∷ 2 ∷ []
unfolding filtered_frames run start round handle process_push_filter store_frames process_filters
    run_filters run_filter matches advance add_indices lookup insert remove
filtered_of_history = refl

-- An output that fails when it is given a frame numbered 2 or more.
abbrev picky : Output ℕ ℕ
picky = record {
  Worker = List ℕ;
  write =
      λ w frames. (w ++ map (λ f. f.index) frames, if leb 3 (length frames) then some 7 else none);
  end = λ w. (w ++ 99 ∷ [], none);
}

abbrev empty : Loop ℕ ℕ ℕ
empty = start

abbrev stored : Loop ℕ ℕ ℕ
stored = record empty { shared = record empty.shared { frames = frame 0 5 ∷ frame 1 7 ∷ [] } }

process_output_blocks_example :
    (bs : List (List (Frame ℕ))) × (concat bs ≡ select (passes test (some 6)) stored.shared.frames)
    × (process_output test picky stored 3 [] (some 6) ≡ (
      (feed picky [] bs).0,
      record stored { shared = emit stored.shared (output_done 3 (feed picky [] bs).1) },
    ))
process_output_blocks_example = process_output_blocks test picky stored 3 [] (some 6)

abbrev two_items : List ℕ
two_items = 5 ∷ 6 ∷ []

get-extend_example :
    (ArrayVec.get (ArrayVec.extend ArrayVec.new two_items) 1
      ≡ (elim (get_elem? two_items 1) [ some x ↦ found x | none ↦ absent ]))
    × ((ArrayVec.extend ArrayVec.new two_items).len ≡ 2)
get-extend_example = get-extend two_items 1

-- The threads, from one input of two layers to the two frames in the store.
abbrev Sys : Type 1
Sys = System ℕ ℕ ℕ ℕ ℕ

abbrev pair : List (Frame ℕ)
pair = frame 0 5 ∷ frame 1 7 ∷ []

abbrev s0 : Sys
s0 = init test unchanged unchanged (0 ∷ 0 ∷ []) 0

abbrev input : Command ℕ ℕ ℕ
input = push_frames none (ok (5 ∷ 7 ∷ []))

abbrev s1 : Sys
s1 = record s0 { commands = input ∷ [] }

abbrev s2 : Sys
s2 = record s1 { loop = record s0.loop { cnt = 2; to_parallel = pair ∷ [] }; commands = [] }

abbrev s3 : Sys
s3 = record s2 {
  loop = record s2.loop { to_parallel = [] };
  workers = 0 ∷ 2 ∷ [];
  busy = pair ∷ [];
}

abbrev s4 : Sys
s4 = record s3 { busy = []; commands = push_serial_frames pair ∷ [] }

abbrev s5 : Sys
s5 = record s4 { loop = record s4.loop { to_serial = pair ∷ [] }; commands = [] }

abbrev s6 : Sys
s6 = record s5 {
  loop = record s5.loop { to_serial = [] };
  serial = record { map = []; next = 2; disp = 2; done = pair ∷ [] };
  sending = pair ∷ [];
}

abbrev s_sent : Sys
s_sent = record s6 { sending = []; commands = keep_frames pair ∷ [] }

abbrev s7 : Sys
s7 = record s_sent {
  loop = record s6.loop {
    shared = record s6.loop.shared {
      frames = pair;
      events = s6.loop.shared.events ++ frames_updated 2 ∷ async_frames_updated 2 ∷ [];
    };
  };
  commands = [];
}

pair_arrives : Reach test unchanged unchanged s0 s7
unfolding init start round handle process_input number store_frames process_filters run_filters
    lookup insert remove Serial.receive Serial.init Serial.keep Serial.drain Serial.serve
    Serial.process_batch Serial.last_index Frame.new
pair_arrives =
    next
      (next
        (next
          (next
            (next
              (next
                (next (next here (send s0 input tt))
                  (turn s1 input [] s2.loop refl (omega arith) refl))
                (decode s2 pair [] (0 ∷ []) [] 0 refl refl))
              (finish s3 [] [] pair refl))
            (turn s4 (push_serial_frames pair) [] s5.loop refl tt refl))
          (order s5 pair [] s6.serial refl refl refl))
        (hand_on s6 pair [] refl))
      (turn s_sent (keep_frames pair) [] s7.loop refl tt refl)

reachable_positions_example : Consecutive 0 s7.loop.shared.frames
reachable_positions_example =
    reachable_positions test unchanged same_index unchanged same_index (0 ∷ 0 ∷ []) 0 s7
      pair_arrives
