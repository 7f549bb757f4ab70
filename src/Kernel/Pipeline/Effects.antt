-- ===== src/Kernel/Pipeline/Effects.antt =====
-- What one turn of a thread does to the channels and to the stored frames.
use genet.Base.{
  ℕ, zero, suc, ◌+◌, ◌^◌, ◌≤◌, ◌≡◌, refl, sym, ap, ◌∙◌, subst, Bool, List, [], ◌∷◌, ◌++◌, length,
  some, arith, Bool-cases, Option-cases, inl, inr, leb, append_assoc, append-nil,
}
use genet.Base.Map.{lookup}
use genet.Kernel.Frame
use genet.Kernel.Frame.{Frame, Consecutive}
use genet.Kernel.Serial.{Pool, concat, serve, drain, keep, receive}
use genet.Kernel.Store.{Shared, Loop, FilterContext, number}
use genet.Kernel.Store.Filtering.{
  matches, advance, add_indices, run_filter, run_filters, process_filters,
}
use genet.Kernel.Store.Filtering.Correct.{add_indices-frames}
use genet.Kernel.Store.EventLoop.{Command, keep_frames, handle, round}

module _ {L : Type 0} where
  pub number-Consecutive :
      (k : ℕ) (roots : List L) → k + length roots ≤ 2 ^ 32 → Consecutive k (number k roots)
  unfolding number Frame.new
  number-Consecutive k [] h = tt
  number-Consecutive k (root ∷ roots) h =
      let e : suc k ≡ k + 1 = omega arith in
      (omega arith, rw e (number-Consecutive (k + 1) roots (omega arith)))

  pub concat-append : (bs cs : List (List (Frame L))) → concat (bs ++ cs) ≡ concat bs ++ concat cs
  concat-append [] cs = refl
  concat-append (b ∷ bs) cs = rw (concat-append bs cs, append_assoc b (concat bs) (concat cs))

module _ {L F E : Type 0} (test : F → Frame L → Bool) where
  run_filter-frames :
      (fuel block : ℕ) (s : Shared L E) (id : ℕ) (c : FilterContext F)
      → (run_filter test fuel block s id c).0.frames ≡ s.frames
  unfolding run_filter
  run_filter-frames zero block s id c = refl
  run_filter-frames (suc fuel) block s id c =
      let c' = advance test block c s.frames in
      let found = matches test block c s.frames in
      let same = add_indices-frames s id found in
      elim (Bool-cases (leb (length s.frames) c'.offset)) [
        | inl done ↦ rw done same
        | inr more ↦ rw more (run_filter-frames fuel block (add_indices s id found) id c' ∙ same)
      ]

  run_filters-frames :
      (block : ℕ) (s : Shared L E) (m : List (ℕ × FilterContext F))
      → (run_filters test block s m).0.frames ≡ s.frames
  unfolding run_filters
  run_filters-frames block s [] = refl
  run_filters-frames block s ((id, c) ∷ m) =
      run_filters-frames block (run_filter test (suc (length s.frames)) block s id c).0 m
      ∙ run_filter-frames (suc (length s.frames)) block s id c

  pub record SameChannels (s t : Loop L F E) : Type 0 where
    pub frames : t.shared.frames ≡ s.shared.frames
    pub to_parallel : t.to_parallel ≡ s.to_parallel
    pub to_serial : t.to_serial ≡ s.to_serial

  -- After the command is handled a round touches neither the frames nor the channels.
  pub round-SameChannels :
      (s t : Loop L F E) (cmd : Command L F E)
      → round test s cmd ≡ some t
      → SameChannels (handle test s cmd) t
  unfolding round process_filters
  round-SameChannels s t cmd e =
      let eq : process_filters test (handle test s cmd) ≡ t = ground (arith, e) in
      subst (SameChannels (handle test s cmd)) eq
        (record { frames = run_filters-frames _ _ _; to_parallel = refl; to_serial = refl })

module _ {L D : Type 0} (process_frame : D → Frame L → D × Frame L) where
  drain-done :
      (fuel : ℕ) (s : Pool L D)
      → (new : List (List (Frame L))) × ((drain process_frame fuel s).done ≡ s.done ++ new)
  unfolding drain serve
  drain-done zero s = ([], sym (append-nil s.done))
  drain-done (suc fuel) s = elim (Option-cases (lookup s.next s.map)) [
    | inl e ↦ rw (e, drain) ([], sym (append-nil s.done))
    | inr ((f, fs), e) ↦
        let t = serve process_frame s f fs in
        let (new, more) = drain-done fuel t in
        rw (e, drain) ((_ ∷ []) ++ new, more ∙ append_assoc s.done (_ ∷ []) new)
  ]

  pub receive-done :
      (s : Pool L D) (b : List (Frame L))
      → (new : List (List (Frame L))) × ((receive process_frame s b).done ≡ s.done ++ new)
  unfolding receive keep
  receive-done s [] = drain-done (suc (length s.map)) s
  receive-done s (f ∷ fs) =
      let t = keep process_frame s (f ∷ fs) in drain-done (suc (length t.map)) t

-- The batches on their way from the serial thread to the store.
module _ {L F E : Type 0} where
  abbrev pub kept : List (Command L F E) → List (List (Frame L))
  kept [] = []
  kept (keep_frames b ∷ cs) = b ∷ kept cs
  kept (_ ∷ cs) = kept cs

  pub kept-append : (cs ds : List (Command L F E)) → kept (cs ++ ds) ≡ kept cs ++ kept ds
  kept-append [] ds = refl
  kept-append (keep_frames b ∷ cs) ds = ap (◌∷◌ b) (kept-append cs ds)
  kept-append (_ ∷ cs) ds = kept-append cs ds
