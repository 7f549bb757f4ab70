-- ===== src/Kernel/Dispatcher/Ends.antt =====
-- The loops of genet-kernel/src/decoder/dispatcher.rs on a frame without counts.
use genet.Base.{
  ℕ, zero, suc, ◌+◌, ◌-◌, ◌%◌, leb, ◌≤◌, ◌<◌, ◌≡◌, refl, arith, inl, inr, Bool-cases, false, List,
  [], ◌∷◌, ◌++◌, map, length, get_elem?-none, Option, some, length-append, length-map,
}
use genet.Kernel.Frame.{Frame, fetch_layers, fetch_tree_indices, set_layers, set_tree_indices}
use genet.Kernel.Dispatcher.{Outcome, OnceRunner, Pass, visit, passes, once, process_frame}
use genet.Kernel.Dispatcher.Rounds.{OnlyDoneAdds, unused, unused-le-length, rounds-Ran}

module _ {W L : Type 0} (decode : W → List L → L → Outcome W L) where
  abbrev pub sum : List ℕ → ℕ
  sum [] = 0
  sum (n ∷ ns) = n + sum ns

  sum-append : (ms ns : List ℕ) → sum (ms ++ ns) ≡ sum ms + sum ns
  sum-append [] ns = omega arith
  sum-append (m ∷ ms) ns = omega (arith, sum-append ms ns)

  -- What the visits of `n` layers do, from the first that has no count on.
  record Visited (n : ℕ) (s t : Pass W L) : Type 0 where
    grown : length s.layers ≤ length t.layers
    used : unused t.runners ≤ unused s.runners
    idle : unused t.runners ≡ unused s.runners → length t.layers ≡ length s.layers
    counts : length t.indices ≡ length s.indices + n
    total :
        1 ≤ length s.layers
        → length t.layers ≤ 256
        → sum t.indices + length s.layers ≡ sum s.indices + length t.layers

  visit-Visited :
      OnlyDoneAdds decode
      → (fuel n : ℕ) (s : Pass W L) → unused s.runners < fuel
      → (t : Pass W L) × (visit decode fuel (length s.indices) n s ≡ some t) × Visited n s t
  unfolding visit
  visit-Visited only fuel zero s h = (
    s,
    refl,
    record {
      grown = omega arith;
      used = omega arith;
      idle = λ e. refl;
      counts = omega arith;
      total = λ a b. refl;
    },
  )
  visit-Visited only fuel (suc n) s h =
      let (t, e, r) = rounds-Ran decode only fuel (length s.indices) s.runners s.layers h in
      let s' : Pass W L = record {
        runners = t.runners;
        layers = t.layers;
        indices = s.indices ++ t.children % 256 ∷ [];
      } in
      let fresh = get_elem?-none s.indices (length s.indices) (omega arith) in
      let next : length s'.indices ≡ suc (length s.indices) =
        omega (arith, length-append s.indices (t.children % 256 ∷ [])) in
      let added = sum-append s.indices (t.children % 256 ∷ []) in
      let (u, f, v) = visit-Visited only fuel n s' (omega (arith, r.used)) in
      (
        u,
        rw (fresh, visit, e) (rw next at f),
        record {
          grown = omega (arith, v.grown, r.grown);
          used = omega (arith, v.used, r.used);
          idle = λ same.
              let none_here = r.idle (omega (arith, same, v.used, r.used)) in
              let none_after = v.idle (omega (arith, same, v.used, r.used)) in
              omega (arith, none_here, none_after, r.grown);
          counts = omega (arith, v.counts, next);
          total = λ some_layer few.
              omega (arith, v.total (omega (arith, r.grown)) few, added, r.grown, v.grown);
        },
      )

  -- What the passes leave: a count for each layer, whose sum is the number of layers below others.
  record Complete (s t : Pass W L) : Type 0 where
    counts : length t.indices ≡ length t.layers
    grown : length s.layers ≤ length t.layers
    total :
        1 ≤ length s.layers
        → length t.layers ≤ 256
        → sum t.indices + length s.layers ≡ sum s.indices + length t.layers

  passes-Complete :
      OnlyDoneAdds decode
      → (fuel inner : ℕ) (s : Pass W L) → unused s.runners < fuel
      → unused s.runners < inner
      → length s.indices ≤ length s.layers
      → (t : Pass W L) × (passes decode fuel inner (length s.indices) s ≡ some t) × Complete s t
  unfolding passes
  passes-Complete only zero inner s h k b = absurd (omega arith)
  passes-Complete only (suc fuel) inner s h k b =
      let len = length s.layers - length s.indices in
      let (t, e, v) = visit-Visited only inner len s k in
      let at : length t.indices ≡ length s.indices + len = v.counts in
      elim (Bool-cases (leb (length t.layers) (length s.indices + len))) [
        | inl over ↦ (
          t,
          rw (e, passes, over) refl,
          record { counts = ground (arith, over, v.grown, at); grown = v.grown; total = v.total },
        )
        | inr more ↦
            let fewer : unused t.runners < unused s.runners =
              ground (arith, more, v.idle, v.used) in
            let (u, f, c) =
              passes-Complete only fuel inner t (omega (arith, fewer)) (omega (arith, fewer))
                (omega (arith, at, v.grown)) in
            (
              u,
              rw (e, passes, more) (rw at at f),
              record {
                counts = c.counts;
                grown = omega (arith, c.grown, v.grown);
                total = λ some_layer few. omega (
                  arith,
                  c.total (omega (arith, v.grown)) few,
                  v.total some_layer (omega (arith, c.grown)),
                );
              },
            )
      ]

  -- When no decoder adds a child to a layer that it skips, the dispatcher ends on every frame that
  -- has no counts yet. It keeps the frame's index and its layers' number or more, counts the
  -- children of every layer, and, for at most 256 layers, the counts add up to the layers added.
  pub process_frame-counts :
      OnlyDoneAdds decode
      → (runners : List (Option W)) (frame : Frame L) → frame.tree_indices ≡ []
      → 1 ≤ length frame.layers
      → (left : List (Option W)) × (result : Frame L) × (process_frame decode runners frame
          ≡ some (left, result))
        × (result.index ≡ frame.index)
        × (length result.tree_indices ≡ length result.layers)
        × (length frame.layers ≤ length result.layers)
        × (length result.layers ≤ 256
            → sum result.tree_indices + length frame.layers ≡ length result.layers)
  unfolding process_frame fetch_layers fetch_tree_indices set_layers set_tree_indices
  process_frame-counts only runners frame fresh some_layer =
      let s : Pass W L = record {
        runners = once decode runners;
        layers = frame.layers;
        indices = [];
      } in
      let bound : unused s.runners < suc (length runners) = omega (
        arith,
        unused-le-length s.runners,
        length-map {B = OnceRunner W} (λ (r : Option W). record { runner = r; used = false })
            runners,
      ) in
      let (t, e, c) =
        passes-Complete only (suc (length runners)) (suc (length runners)) s bound bound
          (omega arith) in
      (
        map (λ r. r.runner) t.runners,
        set_tree_indices (set_layers frame t.layers) t.indices,
        rw (fresh, process_frame, e) refl,
        refl,
        c.counts,
        c.grown,
        λ few. omega (arith, c.total some_layer few),
      )
