-- ===== src/Kernel/Pipeline/Positions.antt =====
-- The numbers of the stored frames in the interleavings of the threads of genet-kernel/src.
use genet.Base.{
  ◌≡◌, refl, sym, ap, ◌∙◌, subst, Bool, List, [], ◌∷◌, ◌++◌, length, drop, some, append_assoc,
  append-nil, drop-append,
}
use genet.Kernel.Frame.{Frame, Consecutive, AreBatches, AreBatches-split, Consecutive-prefix}
use genet.Kernel.Serial
use genet.Kernel.Serial.{Pool, concat}
use genet.Kernel.Serial.Order.{
  IsOrdered, init-IsOrdered, receive-IsOrdered, process_batch-Consecutive,
}
use genet.Kernel.Store.{Loop}
use genet.Kernel.Store.EventLoop.{Command, push_serial_frames, keep_frames, round, start}
use genet.Kernel.Pipeline.{
  System, init, Fits, Step, send, turn, decode, finish, order, hand_on, Reach, here, next,
}
use genet.Kernel.Pipeline.Flow.{
  ArePassed-append, ArePassed-external, kept-external, Flow, keep_Flow, handle-Flow,
}
use genet.Kernel.Pipeline.Effects.{
  concat-append, round-SameChannels, receive-done, kept, kept-append,
}

module _ {L F E D W : Type 0} (test : F → Frame L → Bool) (parallel : W → Frame L → W × Frame L)
    (parallel_index : (w : W) (f : Frame L) → (parallel w f).1.index ≡ f.index)
    (serial : D → Frame L → D × Frame L)
    (serial_index : (d : D) (f : Frame L) → (serial d f).1.index ≡ f.index) where
  -- All batches on the way are numbered without a gap. The stored frames with those that are on
  -- the way to the store are what the serial thread has sent on, and with those that it has still
  -- to send they are what it has decoded.
  record IsSafe (s : System L F E D W) : Type 0 where
    sent : List (Frame L)
    flow : Flow test s.loop s.commands sent
    decoded : sent ++ concat s.sending ≡ concat s.serial.done
    busy : AreBatches s.busy
    ordered : IsOrdered serial serial_index s.serial

  init-IsSafe : (ws : List W) (d : D) → IsSafe (init test parallel serial ws d)
  unfolding init start Serial.init
  init-IsSafe ws d = record {
    sent = [];
    flow = keep_Flow test tt tt tt refl;
    decoded = refl;
    busy = tt;
    ordered = init-IsOrdered serial serial_index d;
  }

  turn-IsSafe :
      (s : System L F E D W) (cmd : Command L F E) (rest : List (Command L F E)) (t : Loop L F E)
      → s.commands ≡ cmd ∷ rest
      → Fits s.loop.cnt cmd
      → round test s.loop cmd ≡ some t
      → IsSafe s
      → IsSafe (record s { loop = t; commands = rest })
  turn-IsSafe s cmd rest t e f r v =
      let before = subst (λ cs. Flow test s.loop cs v.sent) e v.flow in
      let h = handle-Flow test s.loop cmd rest v.sent f before in
      let same = round-SameChannels test s.loop t cmd r in
      record {
        sent = v.sent;
        decoded = v.decoded;
        busy = v.busy;
        ordered = v.ordered;
        flow =
            keep_Flow test (rw same.to_parallel h.to_parallel) (rw same.to_serial h.to_serial)
              h.passed (rw same.frames h.stored);
      }

  order-IsSafe :
      (s : System L F E D W) (b : List (Frame L)) (rest : List (List (Frame L))) (pool : Pool L D)
      → s.loop.to_serial ≡ b ∷ rest
      → Serial.receive serial s.serial b ≡ pool
      → s.sending ≡ []
      → IsSafe s
      → IsSafe (record s {
        loop = record s.loop { to_serial = rest };
        serial = pool;
        sending = drop (length s.serial.done) pool.done;
      })
  order-IsSafe s b rest pool e r none_left v =
      let batches = subst AreBatches e v.flow.to_serial in
      let (new, grown) = receive-done serial s.serial b in
      let done : pool.done ≡ s.serial.done ++ new = ap (λ q. q.done) (sym r) ∙ grown in
      let fresh : drop (length s.serial.done) pool.done ≡ new =
        ap (drop (length s.serial.done)) done ∙ drop-append s.serial.done new in
      let all_sent : v.sent ≡ concat s.serial.done =
        sym (append-nil v.sent) ∙ ap (λ bs. v.sent ++ concat bs) (sym none_left) ∙ v.decoded in
      record {
        sent = v.sent;
        flow = keep_Flow test v.flow.to_parallel batches.1 v.flow.passed v.flow.stored;
        decoded =
            rw (fresh, done, concat-append s.serial.done new) (ap (λ l. l ++ concat new) all_sent);
        busy = v.busy;
        ordered =
            subst (IsOrdered serial serial_index) r
              (receive-IsOrdered serial serial_index s.serial b batches.0 v.ordered);
      }

  hand_on-IsSafe :
      (s : System L F E D W) (b : List (Frame L)) (rest : List (List (Frame L)))
      → s.sending ≡ b ∷ rest
      → IsSafe s
      → IsSafe (record s { sending = rest; commands = s.commands ++ keep_frames b ∷ [] })
  hand_on-IsSafe s b rest e v = record {
    sent = v.sent ++ b;
    flow =
        keep_Flow test v.flow.to_parallel v.flow.to_serial
          (ArePassed-append s.commands (keep_frames b ∷ []) v.flow.passed tt)
          (rw
            (
              kept-append s.commands (keep_frames b ∷ []),
              concat-append (kept s.commands) (b ∷ []),
              append-nil b,
            )
            (sym (append_assoc s.loop.shared.frames (concat (kept s.commands)) b)
              ∙ ap (λ l. l ++ b) v.flow.stored));
    decoded =
        append_assoc v.sent b (concat rest) ∙ ap (λ bs. v.sent ++ concat bs) (sym e) ∙ v.decoded;
    busy = v.busy;
    ordered = v.ordered;
  }

  Step-IsSafe : {s t : System L F E D W} → Step test parallel serial s t → IsSafe s → IsSafe t
  Step-IsSafe (send s cmd e) v = record {
    sent = v.sent;
    decoded = v.decoded;
    busy = v.busy;
    ordered = v.ordered;
    flow =
        keep_Flow test v.flow.to_parallel v.flow.to_serial
          (ArePassed-append s.commands (cmd ∷ []) v.flow.passed (ArePassed-external cmd e))
          (rw (kept-append s.commands (cmd ∷ []), kept-external cmd e, append-nil (kept s.commands))
            v.flow.stored);
  }
  Step-IsSafe (turn s cmd rest t e f r) v = turn-IsSafe s cmd rest t e f r v
  Step-IsSafe (decode s b rest before after w e _) v =
      let batches = subst AreBatches e v.flow.to_parallel in
      record {
        sent = v.sent;
        decoded = v.decoded;
        ordered = v.ordered;
        flow = keep_Flow test batches.1 v.flow.to_serial v.flow.passed v.flow.stored;
        busy = (
          (
            batches.0.0,
            process_batch-Consecutive parallel parallel_index batches.0.0 w b batches.0.1,
          ),
          v.busy,
        );
      }
  Step-IsSafe (finish s xs ys b e) v =
      let (own, others) = AreBatches-split xs ys b (subst AreBatches e v.busy) in
      record {
        sent = v.sent;
        decoded = v.decoded;
        ordered = v.ordered;
        flow =
            keep_Flow test v.flow.to_parallel v.flow.to_serial
              (ArePassed-append s.commands _ v.flow.passed (own, tt))
              (rw (kept-append s.commands (push_serial_frames b ∷ []), append-nil (kept s.commands))
                v.flow.stored);
        busy = others;
      }
  Step-IsSafe (order s b rest pool e r n) v = order-IsSafe s b rest pool e r n v
  Step-IsSafe (hand_on s b rest e) v = hand_on-IsSafe s b rest e v

  Reach-IsSafe : {s t : System L F E D W} → IsSafe s → Reach test parallel serial s t → IsSafe t
  Reach-IsSafe v here = v
  Reach-IsSafe v (next r st) = Step-IsSafe st (Reach-IsSafe v r)

  -- When neither pool renumbers a frame and the input never runs past the numbers of a `u32`: in
  -- every state that the threads can reach, whatever their interleaving, the frames of the store
  -- are numbered 0, 1, 2, … in the order of their positions.
  pub reachable_positions :
      (ws : List W) (d : D) (s : System L F E D W)
      → Reach test parallel serial (init test parallel serial ws d) s
      → Consecutive 0 s.loop.shared.frames
  reachable_positions ws d s r =
      let v = Reach-IsSafe (init-IsSafe ws d) r in
      let sent : Consecutive 0 v.sent =
        Consecutive-prefix 0 v.sent (concat s.sending) (rw v.decoded v.ordered.sent) in
      Consecutive-prefix 0 s.loop.shared.frames (concat (kept s.commands)) (rw v.flow.stored sent)
