-- ===== src/Kernel/Dispatcher/Always.antt =====
-- The loops of genet-kernel/src/decoder/dispatcher.rs on frames that may have counts already.
use genet.Base.{
  ℕ, zero, suc, ◌+◌, ◌-◌, ◌%◌, leb, ◌≤◌, ◌<◌, ◌≡◌, refl, arith, inl, inr, Bool-cases, false, List,
  [], ◌∷◌, ◌++◌, map, length, Option, some, length-map,
}
use genet.Kernel.Frame.{Frame, fetch_layers, fetch_tree_indices, set_layers, set_tree_indices}
use genet.Kernel.Dispatcher.{
  Outcome, OnceRunner, Pass, is_counted, visit, passes, once, process_frame,
}
use genet.Kernel.Dispatcher.Rounds.{OnlyDoneAdds, unused, unused-le-length, rounds-Ran}

module _ {W L : Type 0} (decode : W → List L → L → Outcome W L) where
  record Visited (s t : Pass W L) : Type 0 where
    grown : length s.layers ≤ length t.layers
    used : unused t.runners ≤ unused s.runners
    idle : unused t.runners ≡ unused s.runners → length t.layers ≡ length s.layers

  visit-Visited :
      OnlyDoneAdds decode
      → (fuel index n : ℕ) (s : Pass W L) → unused s.runners < fuel
      → (t : Pass W L) × (visit decode fuel index n s ≡ some t) × Visited s t
  unfolding visit
  visit-Visited only fuel index zero s h =
      (s, refl, record { grown = omega arith; used = omega arith; idle = λ e. refl })
  visit-Visited only fuel index (suc n) s h =
      elim (Bool-cases (is_counted decode s.indices index)) [
        | inl counted ↦
            let (t, e, v) = visit-Visited only fuel (suc index) n s h in
            (t, rw (counted, visit) e, v)
        | inr open_layer ↦
            let (t, e, r) = rounds-Ran decode only fuel index s.runners s.layers h in
            let s' : Pass W L = record {
              runners = t.runners;
              layers = t.layers;
              indices = s.indices ++ t.children % 256 ∷ [];
            } in
            let (u, f, v) = visit-Visited only fuel (suc index) n s' (omega (arith, r.used)) in
            (
              u,
              rw (open_layer, visit, e) f,
              record {
                grown = omega (arith, v.grown, r.grown);
                used = omega (arith, v.used, r.used);
                idle = λ same.
                    let none_here = r.idle (omega (arith, same, v.used, r.used)) in
                    let none_after = v.idle (omega (arith, same, v.used, r.used)) in
                    omega (arith, none_here, none_after, r.grown);
              },
            )
      ]

  passes-ends :
      OnlyDoneAdds decode
      → (fuel inner offset : ℕ) (s : Pass W L) → unused s.runners < fuel
      → unused s.runners < inner
      → (t : Pass W L) × (passes decode fuel inner offset s ≡ some t)
        × (length s.layers ≤ length t.layers)
  unfolding passes
  passes-ends only zero inner offset s h k = absurd (omega arith)
  passes-ends only (suc fuel) inner offset s h k =
      let len = length s.layers - offset in
      let (t, e, v) = visit-Visited only inner offset len s k in
      elim (Bool-cases (leb (length t.layers) (offset + len))) [
        | inl over ↦ (t, rw (e, passes, over) refl, v.grown)
        | inr more ↦
            let fewer : unused t.runners < unused s.runners =
              ground (arith, more, v.idle, v.used) in
            let (u, f, grown) =
              passes-ends only fuel inner (offset + len) t (omega (arith, fewer))
                (omega (arith, fewer)) in
            (u, rw (e, passes, more) f, omega (arith, grown, v.grown))
      ]

  -- When no decoder adds a child to a layer that it skips, the dispatcher ends on every frame, keeps
  -- the frame's index and loses no layer.
  pub process_frame-ends :
      OnlyDoneAdds decode
      → (runners : List (Option W)) (frame : Frame L)
      → (left : List (Option W)) × (result : Frame L) × (process_frame decode runners frame
          ≡ some (left, result))
        × (result.index ≡ frame.index)
        × (length frame.layers ≤ length result.layers)
  unfolding process_frame fetch_layers fetch_tree_indices set_layers set_tree_indices
  process_frame-ends only runners frame =
      let s : Pass W L = record {
        runners = once decode runners;
        layers = frame.layers;
        indices = frame.tree_indices;
      } in
      let bound : unused s.runners < suc (length runners) = omega (
        arith,
        unused-le-length s.runners,
        length-map {B = OnceRunner W} (λ (r : Option W). record { runner = r; used = false })
            runners,
      ) in
      let (t, e, grown) =
        passes-ends only (suc (length runners)) (suc (length runners)) 0 s bound bound in
      (
        map (λ r. r.runner) t.runners,
        set_tree_indices (set_layers frame t.layers) t.indices,
        rw (process_frame, e) refl,
        refl,
        grown,
      )
