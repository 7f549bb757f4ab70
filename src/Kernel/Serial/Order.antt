-- ===== src/Kernel/Serial/Order.antt =====
-- Safety of the serial pool of genet-kernel/src/decoder/serial.rs: the order of what it hands on.
use genet.Base.{
  ℕ, zero, suc, ◌+◌, ◌≡◌, refl, sym, ◌∙◌, ap, subst, List, [], ◌∷◌, ◌++◌, length, some, arith,
  length-append, append-nil, append_assoc, Option-cases, inl, inr,
}
use genet.Base.Map.{lookup, lookup-insert-some, lookup-remove-some}
use genet.Kernel.Frame.{Frame, Consecutive, Consecutive-append, IsBatch, AreBatches}
use genet.Kernel.Serial.{
  Pool, last_index, concat, init, process_batch, serve, drain, keep, receive, receive_all,
}

module _ {L : Type 0} where
  pub concat-snoc :
      (bs : List (List (Frame L))) (b : List (Frame L)) → concat (bs ++ b ∷ []) ≡ concat bs ++ b
  concat-snoc [] b = append-nil b
  concat-snoc (c ∷ bs) b = rw (concat-snoc bs b, append_assoc c (concat bs) b)

  pub last_index-Consecutive :
      (k : ℕ) (f : Frame L) (fs : List (Frame L))
      → Consecutive k (f ∷ fs)
      → last_index f fs + 1 ≡ k + length (f ∷ fs)
  unfolding last_index
  last_index-Consecutive k f [] c = omega arith
  last_index-Consecutive k f (g ∷ gs) c = omega (arith, last_index-Consecutive (suc k) g gs c.1)

module _ {L D : Type 0} (process_frame : D → Frame L → D × Frame L) where
  pub length-process_batch :
      (d : D) (fs : List (Frame L)) → length (process_batch process_frame d fs).1 ≡ length fs
  unfolding process_batch
  length-process_batch d [] = refl
  length-process_batch d (f ∷ fs) = ap suc (length-process_batch (process_frame d f).0 fs)

-- The dispatcher does not renumber a frame.
module _ {L D : Type 0} (process_frame : D → Frame L → D × Frame L)
    (same_index : (d : D) (f : Frame L) → (process_frame d f).1.index ≡ f.index) where
  pub process_batch-Consecutive :
      (k : ℕ) (d : D) (fs : List (Frame L))
      → Consecutive k fs
      → Consecutive k (process_batch process_frame d fs).1
  unfolding process_batch
  process_batch-Consecutive k d [] c = tt
  process_batch-Consecutive k d (f ∷ fs) c =
      (rw (same_index d f) c.0, process_batch-Consecutive (suc k) (process_frame d f).0 fs c.1)

  pub record IsOrdered (s : Pool L D) : Type 0 where
    pub sent : Consecutive 0 (concat s.done)
    pub count : length (concat s.done) ≡ s.next
    pub stored :
        (k : ℕ) (f : Frame L) (fs : List (Frame L))
        → lookup k s.map ≡ some (f, fs)
        → Consecutive k (f ∷ fs)

  pub init-IsOrdered : (d : D) → IsOrdered (init process_frame d)
  unfolding init lookup
  init-IsOrdered d = record { sent = tt; count = refl; stored = λ k f fs h. cc }

  pub serve-IsOrdered :
      (s : Pool L D) (f : Frame L) (fs : List (Frame L))
      → lookup s.next s.map ≡ some (f, fs)
      → IsOrdered s
      → IsOrdered (serve process_frame s f fs)
  unfolding serve
  serve-IsOrdered s f fs h v =
      let out = (process_batch process_frame s.disp (f ∷ fs)).1 in
      let c = v.stored s.next f fs h in
      let same = length-process_batch process_frame s.disp (f ∷ fs) in
      let next : s.next ≡ 0 + length (concat s.done) = omega (arith, v.count) in
      record {
        sent = rw (concat-snoc s.done out) (
            Consecutive-append 0 (concat s.done) out v.sent (
              subst (λ n. Consecutive n out) next
                (process_batch-Consecutive s.next s.disp (f ∷ fs) c)));
        count = rw (concat-snoc s.done out) (
            omega (
              arith,
              length-append (concat s.done) out,
              same,
              v.count,
              last_index-Consecutive s.next f fs c,
            ));
        stored = λ k g gs e. v.stored k g gs (lookup-remove-some s.next k (g, gs) s.map e);
      }

  drain-IsOrdered : (fuel : ℕ) (s : Pool L D) → IsOrdered s → IsOrdered (drain process_frame fuel s)
  unfolding drain
  drain-IsOrdered zero s v = v
  drain-IsOrdered (suc fuel) s v = elim (Option-cases (lookup s.next s.map)) [
    | inl e ↦ rw (e, drain) v
    | inr ((f, fs), e) ↦ rw (e, drain) (drain-IsOrdered fuel _ (serve-IsOrdered s f fs e v))
  ]

  pub keep-IsOrdered :
      (s : Pool L D) (frames : List (Frame L))
      → IsBatch frames
      → IsOrdered s
      → IsOrdered (keep process_frame s frames)
  unfolding keep
  keep-IsOrdered s [] b v = v
  keep-IsOrdered s (f ∷ fs) b v = record {
    sent = v.sent;
    count = v.count;
    stored = λ k g gs e. elim (lookup-insert-some f.index k (f, fs) (g, gs) s.map e) [
      | inl (i, same) ↦
          subst (λ p. Consecutive k (p.0 ∷ p.1)) same
            (i, subst (λ n. Consecutive (suc n) fs) (sym b.1.0 ∙ i) b.1.1)
      | inr old ↦ v.stored k g gs old
    ];
  }

  -- Each message keeps the order, whatever batch it brings.
  pub receive-IsOrdered :
      (s : Pool L D) (frames : List (Frame L))
      → IsBatch frames
      → IsOrdered s
      → IsOrdered (receive process_frame s frames)
  unfolding receive
  receive-IsOrdered s frames b v =
      drain-IsOrdered (suc (length (keep process_frame s frames).map)) _
        (keep-IsOrdered s frames b v)

  pub receive_all-IsOrdered :
      (s : Pool L D) (bs : List (List (Frame L)))
      → AreBatches bs
      → IsOrdered s
      → IsOrdered (receive_all process_frame s bs)
  unfolding receive_all
  receive_all-IsOrdered s [] b v = v
  receive_all-IsOrdered s (frames ∷ bs) b v =
      receive_all-IsOrdered (receive process_frame s frames) bs b.1
        (receive-IsOrdered s frames b.0 v)

  -- When the dispatcher does not renumber frames: whatever batches of consecutive frames the pool
  -- receives, and in whatever order, the frames that it passes to the callback are numbered 0, 1,
  -- 2, … with no gap and none twice, and `next` is their number.
  pub receive_all_ordered :
      (d : D) (bs : List (List (Frame L)))
      → AreBatches bs
      → let s = receive_all process_frame (init process_frame d) bs in
        Consecutive 0 (concat s.done) × (length (concat s.done) ≡ s.next)
  receive_all_ordered d bs b =
      let v = receive_all-IsOrdered (init process_frame d) bs b (init-IsOrdered d) in
      (v.sent, v.count)
