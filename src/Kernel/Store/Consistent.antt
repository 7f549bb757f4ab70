-- ===== src/Kernel/Store/Consistent.antt =====
-- The event loop of genet-kernel/src/store.rs: its filtered indices against the stored frames.
use genet.Base.{
  ℕ, ◌-◌, ◌≡◌, refl, sym, ap, ◌∙◌, subst, Bool, false, List, [], ◌∷◌, take, drop, select, Option,
  none, some, arith, ◌==◌, Bool-cases, Option-cases, inl, inr, length-append, take-append_left,
  take-all, take-drop-nil,
}
use genet.Base.Map.{
  lookup, Distinct, lookup-insert, lookup-remove, insert-Distinct, remove-Distinct,
}
use genet.Kernel.Frame.{Frame, indices}
use genet.Kernel.Store.{
  Shared, Loop, FilterContext, InputResult, ok, err, store_frames, process_input,
  process_push_filter, entry_or_empty, filtered_frames,
}
use genet.Kernel.Store.Filtering.{process_filters, max_filter_size}
use genet.Kernel.Store.Filtering.Correct.{Seen, UpToDate}
use genet.Kernel.Store.Filtering.Every.{AllSeen, run_filters-Refreshed, Refreshed}
use genet.Kernel.Store.Writing.{process_output}
use genet.Kernel.Store.EventLoop.{
  Command, push_frames, push_serial_frames, keep_frames, set_filter, push_output, close, handle,
  round, run, start,
}

module _ {L F E : Type 0} (test : F → Frame L → Bool) where
  -- What a filter in use should have found, and nothing where there is none.
  unfoldable pub expected : Loop L F E → ℕ → List ℕ
  expected s id = elim (lookup id s.filter_map) [
    | none ↦ []
    | some c ↦ indices (select (test c.filter) s.shared.frames)
  ]

  pub record IsConsistent (s : Loop L F E) : Type 0 where
    pub distinct : Distinct s.filter_map
    pub seen : AllSeen test s.shared s.filter_map
    pub unfiltered : (id : ℕ) → lookup id s.filter_map ≡ none → lookup id s.shared.filtered ≡ none

  start-IsConsistent : IsConsistent start
  unfolding start lookup
  start-IsConsistent = record { distinct = tt; seen = λ id c e. cc; unfiltered = λ id e. refl }

  store_frames-IsConsistent :
      (s : Loop L F E) (vec : List (Frame L))
      → IsConsistent s
      → IsConsistent (record s { shared = store_frames s.shared vec })
  unfolding store_frames
  store_frames-IsConsistent s vec v = record {
    distinct = v.distinct;
    seen = λ id c e.
        let (bound, found) = v.seen id c e in
        (
          omega (arith, length-append s.shared.frames vec),
          rw (take-append_left c.offset s.shared.frames vec bound) found,
        );
    unfiltered = v.unfiltered;
  }

  process_input-IsConsistent :
      (s : Loop L F E) (id : Option ℕ) (result : InputResult L E)
      → IsConsistent s
      → IsConsistent (process_input s id result)
  unfolding process_input
  process_input-IsConsistent s none (ok []) v = v
  process_input-IsConsistent s (some id) (ok []) v = record {
    distinct = v.distinct;
    seen = v.seen;
    unfiltered = v.unfiltered;
  }
  process_input-IsConsistent s id (ok (root ∷ roots)) v = record {
    distinct = v.distinct;
    seen = v.seen;
    unfiltered = v.unfiltered;
  }
  process_input-IsConsistent s none (err e) v = v
  process_input-IsConsistent s (some id) (err e) v = record {
    distinct = v.distinct;
    seen = v.seen;
    unfiltered = v.unfiltered;
  }

  push_filter-IsConsistent :
      (s : Loop L F E) (id : ℕ) (filter : Option F)
      → IsConsistent s
      → IsConsistent (process_push_filter s id filter)
  unfolding process_push_filter
  push_filter-IsConsistent s id (some filter) v = record {
    distinct = insert-Distinct id _ s.filter_map v.distinct;
    seen = λ j c e. elim (Bool-cases (id == j)) [
      | inl same ↦
          let new : FilterContext F = record { filter = filter; offset = 0 } in
          let fresh : c ≡ new = ground (arith, lookup-insert id j new s.filter_map) in
          let gone = lookup-remove id j s.shared.filtered in
          subst (λ a. Seen test (process_push_filter s id (some filter)).shared j a) (sym fresh)
            (omega arith, ground (arith, gone))
      | inr other ↦
          let new : FilterContext F = record { filter = filter; offset = 0 } in
          let e' : lookup j s.filter_map ≡ some c =
            ground (arith, lookup-insert id j new s.filter_map) in
          let (bound, found) = v.seen j c e' in
          (bound, ground (arith, found, lookup-remove id j s.shared.filtered))
    ];
    unfiltered = λ j e.
        let new : FilterContext F = record { filter = filter; offset = 0 } in
        ground (
          arith,
          lookup-insert id j new s.filter_map,
          lookup-remove id j s.shared.filtered,
          v.unfiltered j,
        );
  }
  push_filter-IsConsistent s id none v = record {
    distinct = remove-Distinct id s.filter_map v.distinct;
    seen = λ j c e.
        let e' : lookup j s.filter_map ≡ some c = ground (arith, lookup-remove id j s.filter_map) in
        let ne : (id == j) ≡ false = ground (arith, lookup-remove id j s.filter_map) in
        let (bound, found) = v.seen j c e' in
        (bound, ground (arith, found, lookup-remove id j s.shared.filtered));
    unfiltered = λ j e. ground (
      arith,
      lookup-remove id j s.filter_map,
      lookup-remove id j s.shared.filtered,
      v.unfiltered j,
    );
  }

  handle-IsConsistent :
      (s : Loop L F E) (cmd : Command L F E) → IsConsistent s → IsConsistent (handle test s cmd)
  unfolding handle process_output
  handle-IsConsistent s (push_frames id result) v = process_input-IsConsistent s id result v
  handle-IsConsistent s (push_serial_frames vec) v = record {
    distinct = v.distinct;
    seen = v.seen;
    unfiltered = v.unfiltered;
  }
  handle-IsConsistent s (keep_frames vec) v = store_frames-IsConsistent s vec v
  handle-IsConsistent s (set_filter id filter) v = push_filter-IsConsistent s id filter v
  handle-IsConsistent s (push_output out id w filter) v = record {
    distinct = v.distinct;
    seen = v.seen;
    unfiltered = v.unfiltered;
  }
  handle-IsConsistent s close v = v

  process_filters-Refreshed :
      (s : Loop L F E)
      → IsConsistent s
      → let t = process_filters test s in
        Refreshed test s.shared s.filter_map (t.shared, t.filter_map)
  unfolding process_filters
  process_filters-Refreshed s v =
      run_filters-Refreshed test max_filter_size s.shared s.filter_map (omega arith) v.distinct
        v.seen

  -- Every filter in use has seen every frame.
  abbrev pub IsComplete : Loop L F E → Type 0
  IsComplete s =
      (id : ℕ) (c : FilterContext F)
      → lookup id s.filter_map ≡ some c
      → entry_or_empty id s.shared.filtered ≡ indices (select (test c.filter) s.shared.frames)

  -- A filter that is in the map afterwards was there before, and is up to date.
  current :
      (s : Loop L F E) (v : IsConsistent s) (id : ℕ) (c' : FilterContext F)
      → let t = process_filters test s in
        lookup id t.filter_map ≡ some c'
        → (c : FilterContext F) × (lookup id s.filter_map ≡ some c)
          × (c'.filter ≡ c.filter)
          × UpToDate test t.shared id c'
  current s v id c' e =
      let t = process_filters test s in
      let r = process_filters-Refreshed s v in
      elim (Option-cases (lookup id s.filter_map)) [
        | inl gone ↦ let missing = (r.absent id gone).0 in cc
        | inr (c, there) ↦
            let (d, found, same, done) = r.present id c there in
            let eq : d ≡ c' = ground (arith, found, e) in
            (
              c,
              there,
              ap (λ a. a.filter) (sym eq) ∙ same,
              subst (UpToDate test t.shared id) eq done,
            )
      ]

  process_filters-IsConsistent :
      (s : Loop L F E) → IsConsistent s → IsConsistent (process_filters test s)
  process_filters-IsConsistent s v =
      let t = process_filters test s in
      let r = process_filters-Refreshed s v in
      record {
        distinct = r.distinct;
        seen = λ id c e.
            let (a, b, same, done) = current s v id c e in
            (
              omega (arith, done.0),
              done.1
                  ∙ ap (λ fs. indices (select (test c.filter) fs))
                      (sym (take-all c.offset t.shared.frames (omega (arith, done.0)))),
            );
        unfiltered = λ id e. elim (Option-cases (lookup id s.filter_map)) [
          | inl gone ↦ (r.absent id gone).1 ∙ v.unfiltered id gone
          | inr (c, there) ↦ let (d, found, same, done) = r.present id c there in cc
        ];
      }

  -- Each round that does not end the loop keeps the invariant and brings every filter up to date.
  pub round-IsConsistent :
      (s t : Loop L F E) (cmd : Command L F E)
      → round test s cmd ≡ some t
      → IsConsistent s
      → IsConsistent t × IsComplete t
  unfolding round
  round-IsConsistent s t cmd e v =
      let v' = handle-IsConsistent s cmd v in
      let eq : process_filters test (handle test s cmd) ≡ t = ground (arith, e) in
      subst (λ u. IsConsistent u × IsComplete u) eq
        (
          process_filters-IsConsistent (handle test s cmd) v',
          λ id c f. (current (handle test s cmd) v' id c f).3.1,
        )

  run-IsConsistent :
      (s : Loop L F E) (cmds : List (Command L F E))
      → IsConsistent s × IsComplete s
      → IsConsistent (run test s cmds) × IsComplete (run test s cmds)
  unfolding run
  run-IsConsistent s [] v = v
  run-IsConsistent s (cmd ∷ cmds) v = elim (Option-cases (round test s cmd)) [
    | inl e ↦ rw (e, run) v
    | inr (t, e) ↦ rw (e, run) (run-IsConsistent t cmds (round-IsConsistent s t cmd e v.0))
  ]

  entry-expected :
      (s : Loop L F E) (id : ℕ)
      → IsConsistent s
      → IsComplete s
      → entry_or_empty id s.shared.filtered ≡ expected s id
  unfolding expected
  entry-expected s id v w = elim (Option-cases (lookup id s.filter_map)) [
    | inl e ↦ ground (arith, v.unfiltered id e)
    | inr (c, e) ↦ w id c e ∙ (rw (e, expected))
  ]

  range_of_entry :
      (s : Shared L E) (id first last : ℕ)
      → filtered_frames s id first last
        ≡ take (last - first) (drop first (entry_or_empty id s.filtered))
  unfolding filtered_frames
  range_of_entry s id first last = elim (Option-cases (lookup id s.filtered)) [
    | inl e ↦ ground (arith, take-drop-nil {A = ℕ} (last - first) first)
    | inr (v, e) ↦ ground arith
  ]

  start_holds : IsConsistent start × IsComplete start
  unfolding start lookup
  start_holds = (start-IsConsistent, λ id c e. cc)

  -- After any history of commands, the indices that the store gives out for a filter in use are
  -- those of the stored frames that pass it, in order and cut to the range asked for; without a
  -- filter in use there are none.
  pub run-filtered_frames :
      (cmds : List (Command L F E)) (id first last : ℕ)
      → let s = run test start cmds in
        filtered_frames s.shared id first last ≡ take (last - first) (drop first (expected s id))
  run-filtered_frames cmds id first last =
      let s = run test start cmds in
      let (v, w) = run-IsConsistent start cmds start_holds in
      range_of_entry s.shared id first last
      ∙ ap (λ l. take (last - first) (drop first l)) (entry-expected s id v w)
