-- ===== src/Kernel/Store/Filtering/Correct.antt =====
-- The inner loop of `process_filters` of genet-kernel/src/store.rs, for one filter.
use genet.Base.{
  ℕ, zero, suc, ◌-◌, ◌≤◌, ◌<◌, ◌≡◌, ◌≢◌, refl, sym, ap, ◌∙◌, Bool, List, [], ◌∷◌, ◌++◌, length,
  take, drop, select, leb, arith, append-nil, ==_ne, Bool-cases, inl, inr, map-append, take-add,
  take-min, take-all, select-append,
}
use genet.Base.Map.{lookup, lookup-insert}
use genet.Kernel.Frame.{Frame, indices}
use genet.Kernel.Store.{Shared, FilterContext, entry_or_empty}
use genet.Kernel.Store.Filtering.{matches, advance, add_indices, run_filter}

module _ {L E : Type 0} where
  pub add_indices-frames :
      (s : Shared L E) (id : ℕ) (v : List ℕ) → (add_indices s id v).frames ≡ s.frames
  unfolding add_indices
  add_indices-frames s id [] = refl
  add_indices-frames s id (_ ∷ _) = refl

  pub add_indices-entry :
      (s : Shared L E) (id : ℕ) (v : List ℕ)
      → entry_or_empty id (add_indices s id v).filtered ≡ entry_or_empty id s.filtered ++ v
  unfolding add_indices
  add_indices-entry s id [] = sym (append-nil (entry_or_empty id s.filtered))
  add_indices-entry s id (i ∷ is) =
      ground (arith, lookup-insert id id (entry_or_empty id s.filtered ++ i ∷ is) s.filtered)

  pub add_indices-other :
      (s : Shared L E) (id j : ℕ) (v : List ℕ)
      → id ≢ j
      → lookup j (add_indices s id v).filtered ≡ lookup j s.filtered
  unfolding add_indices
  add_indices-other s id j [] h = refl
  add_indices-other s id j (i ∷ is) h =
      rw (lookup-insert id j (entry_or_empty id s.filtered ++ i ∷ is) s.filtered, ==_ne id j h)

module _ {L F E : Type 0} (test : F → Frame L → Bool) where
  -- The entry of `id` holds what the filter finds among the frames before its offset.
  abbrev pub Seen : Shared L E → ℕ → FilterContext F → Type 0
  Seen s id c =
      (c.offset ≤ length s.frames)
      × (entry_or_empty id s.filtered ≡ indices (select (test c.filter) (take c.offset s.frames)))

  -- It holds what the filter finds among all frames.
  abbrev pub UpToDate : Shared L E → ℕ → FilterContext F → Type 0
  UpToDate s id c =
      (c.offset ≡ length s.frames)
      × (entry_or_empty id s.filtered ≡ indices (select (test c.filter) s.frames))

  matches-Seen :
      (block : ℕ) (s : Shared L E) (id : ℕ) (c : FilterContext F)
      → Seen s id c
      → Seen (add_indices s id (matches test block c s.frames)) id (advance test block c s.frames)
  unfolding matches advance
  matches-Seen block s id c h =
      let p = test c.filter in
      let rest = take block (drop c.offset s.frames) in
      let v = indices (select p rest) in
      let join : indices (select p (take c.offset s.frames)) ++ v
          ≡ indices (select p (take c.offset s.frames ++ rest)) =
        sym (
          ap indices (select-append p (take c.offset s.frames) rest)
          ∙ map-append _ (select p (take c.offset s.frames)) (select p rest)) in
      rw add_indices-frames
        (omega arith, rw (add_indices-entry, h.1, take-min, take-add c.offset block s.frames) join)

  -- With more fuel than frames are left, the loop ends with all frames seen; the entries of other
  -- filters and the frames stay as they are.
  abbrev pub Ran : Shared L E → ℕ → FilterContext F → Shared L E × FilterContext F → Type 0
  Ran s id c (s', c') =
      (s'.frames ≡ s.frames)
      × (c'.filter ≡ c.filter)
      × UpToDate s' id c'
      × ((j : ℕ) → id ≢ j → lookup j s'.filtered ≡ lookup j s.filtered)

  pub run_filter-Ran :
      (fuel block : ℕ) (s : Shared L E) (id : ℕ) (c : FilterContext F)
      → 0 < block
      → length s.frames - c.offset < fuel
      → Seen s id c
      → Ran s id c (run_filter test fuel block s id c)
  unfolding run_filter
  run_filter-Ran zero block s id c b f h = absurd (omega arith)
  run_filter-Ran (suc fuel) block s id c b f h =
      let c' = advance test block c s.frames in
      let s' = add_indices s id (matches test block c s.frames) in
      let h' = matches-Seen block s id c h in
      let same = add_indices-frames s id (matches test block c s.frames) in
      let other =
        λ (j : ℕ) (ne : id ≢ j). add_indices-other s id j (matches test block c s.frames) ne in
      elim (Bool-cases (leb (length s.frames) c'.offset)) [
        | inl done ↦ rw done (
          same,
          refl,
          (
            ground (arith, ap length same, h'.0),
            h'.1
                ∙ ap (λ fs. indices (select (test c.filter) fs))
                    (take-all c'.offset s'.frames (ground (arith, ap length same))),
          ),
          other,
        )
        | inr more ↦ rw more (
            let r = run_filter-Ran fuel block s' id c' b (ground (arith, ap length same)) h' in
            (r.0 ∙ same, r.1, r.2, λ j ne. r.3 j ne ∙ other j ne))
      ]
