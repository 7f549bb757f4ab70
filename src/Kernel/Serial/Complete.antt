-- ===== src/Kernel/Serial/Complete.antt =====
-- Liveness of the serial pool of genet-kernel/src/decoder/serial.rs: what stays in its map.
use genet.Base.{
  ℕ, zero, suc, ◌<◌, ◌≡◌, ◌≢◌, refl, ◌⊎◌, List, [], ◌∷◌, length, none, some, arith, ◌==◌, ==_refl,
  Bool-cases, Option-cases, inl, inr,
}
use genet.Base.Map.{lookup, lookup-insert, lookup-remove, length-remove-lt}
use genet.Kernel.Frame.{Frame, IsBatch, AreBatches}
use genet.Kernel.Serial.{Pool, init, serve, drain, keep, receive, receive_all}
use genet.Kernel.Serial.Order.{
  IsOrdered, serve-IsOrdered, keep-IsOrdered, init-IsOrdered, receive-IsOrdered,
  last_index-Consecutive,
}

module _ {L D : Type 0} where
  -- A batch that began at `k` was handed on, or is in the map.
  abbrev pub IsHeld : ℕ → Pool L D → Type 0
  IsHeld k s = (k < s.next) ⊎ ((b : Frame L × List (Frame L)) × (lookup k s.map ≡ some b))

  pub held-ne-next : (s : Pool L D) (k : ℕ) → lookup s.next s.map ≡ none → IsHeld k s → k ≢ s.next
  held-ne-next s k e (inl h) = omega arith
  held-ne-next s k e (inr (b, g)) = λ same. let missing : lookup k s.map ≡ none = rw same e in cc

module _ {L : Type 0} where
  -- No batch of the list begins at frame `n`.
  abbrev pub NoneBeginsAt : ℕ → List (List (Frame L)) → Type 0
  NoneBeginsAt n [] = Unit {0}
  NoneBeginsAt n ([] ∷ bs) = NoneBeginsAt n bs
  NoneBeginsAt n ((f ∷ fs) ∷ bs) = (f.index ≢ n) × NoneBeginsAt n bs

module _ {L D : Type 0} (process_frame : D → Frame L → D × Frame L) where
  -- With a unit of fuel for each entry and one more, the loop stops by its own test.
  drain_stops :
      (fuel : ℕ) (s : Pool L D)
      → length s.map < fuel
      → let t = drain process_frame fuel s in lookup t.next t.map ≡ none
  unfolding drain serve
  drain_stops zero s h = absurd (omega arith)
  drain_stops (suc fuel) s h = elim (Option-cases (lookup s.next s.map)) [
    | inl e ↦ rw (e, drain) e
    | inr ((f, fs), e) ↦
        rw (e, drain)
          (drain_stops fuel (serve process_frame s f fs)
            (omega (arith, length-remove-lt s.next (f, fs) s.map e)))
  ]

  -- After a message the pool has nothing left that it could hand on.
  pub receive_drained :
      (s : Pool L D) (frames : List (Frame L))
      → let t = receive process_frame s frames in lookup t.next t.map ≡ none
  unfolding receive
  receive_drained s frames =
      drain_stops (suc (length (keep process_frame s frames).map)) (keep process_frame s frames)
        (omega arith)

module _ {L D : Type 0} (process_frame : D → Frame L → D × Frame L)
    (same_index : (d : D) (f : Frame L) → (process_frame d f).1.index ≡ f.index) where
  serve-IsHeld :
      (s : Pool L D) (f : Frame L) (fs : List (Frame L)) (k : ℕ)
      → lookup s.next s.map ≡ some (f, fs)
      → IsOrdered process_frame same_index s
      → IsHeld k s
      → IsHeld k (serve process_frame s f fs)
  unfolding serve
  serve-IsHeld s f fs k e v h = ground (
    arith,
    last_index-Consecutive s.next f fs (v.stored s.next f fs e),
    lookup-remove s.next k s.map,
  )

  drain-IsHeld :
      (fuel : ℕ) (s : Pool L D) (k : ℕ)
      → IsOrdered process_frame same_index s
      → IsHeld k s
      → IsHeld k (drain process_frame fuel s)
  unfolding drain
  drain-IsHeld zero s k v h = h
  drain-IsHeld (suc fuel) s k v h = elim (Option-cases (lookup s.next s.map)) [
    | inl e ↦ rw (e, drain) h
    | inr ((f, fs), e) ↦
        rw (e, drain)
          (drain-IsHeld fuel (serve process_frame s f fs) k
            (serve-IsOrdered process_frame same_index s f fs e v) (serve-IsHeld s f fs k e v h))
  ]

  keep-IsHeld :
      (s : Pool L D) (frames : List (Frame L)) (k : ℕ)
      → IsHeld k s
      → IsHeld k (keep process_frame s frames)
  unfolding keep
  keep-IsHeld s [] k h = h
  keep-IsHeld s (f ∷ fs) k (inl h) = inl h
  keep-IsHeld s (f ∷ fs) k (inr (b, e)) = elim (Bool-cases (f.index == k)) [
    | inl same ↦ inr ((f, fs), rw (lookup-insert f.index k (f, fs) s.map, same))
    | inr other ↦ inr (b, rw (lookup-insert f.index k (f, fs) s.map, other) e)
  ]

  pub receive-IsHeld :
      (s : Pool L D) (frames : List (Frame L)) (k : ℕ)
      → IsBatch frames
      → IsOrdered process_frame same_index s
      → IsHeld k s
      → IsHeld k (receive process_frame s frames)
  unfolding receive
  receive-IsHeld s frames k b v h =
      drain-IsHeld (suc (length (keep process_frame s frames).map)) _ k
        (keep-IsOrdered process_frame same_index s frames b v) (keep-IsHeld s frames k h)

  pub receive-IsHeld_new :
      (s : Pool L D) (f : Frame L) (fs : List (Frame L))
      → IsBatch (f ∷ fs)
      → IsOrdered process_frame same_index s
      → IsHeld f.index (receive process_frame s (f ∷ fs))
  unfolding receive keep
  receive-IsHeld_new s f fs b v =
      drain-IsHeld (suc (length (keep process_frame s (f ∷ fs)).map)) _ f.index
        (keep-IsOrdered process_frame same_index s (f ∷ fs) b v)
        (inr ((f, fs), rw (lookup-insert f.index f.index (f, fs) s.map, ==_refl f.index)))

  receive_all-IsHeld :
      (s : Pool L D) (bs : List (List (Frame L))) (k : ℕ)
      → AreBatches bs
      → IsOrdered process_frame same_index s
      → IsHeld k s
      → IsHeld k (receive_all process_frame s bs)
  unfolding receive_all
  receive_all-IsHeld s [] k b v h = h
  receive_all-IsHeld s (c ∷ bs) k b v h =
      receive_all-IsHeld (receive process_frame s c) bs k b.1
        (receive-IsOrdered process_frame same_index s c b.0 v) (receive-IsHeld s c k b.0 v h)

  receive_all_drained :
      (s : Pool L D) (bs : List (List (Frame L)))
      → lookup s.next s.map ≡ none
      → let t = receive_all process_frame s bs in lookup t.next t.map ≡ none
  unfolding receive_all
  receive_all_drained s [] h = h
  receive_all_drained s (c ∷ bs) h =
      receive_all_drained (receive process_frame s c) bs (receive_drained process_frame s c)

  NoneBeginsAt-next :
      (s : Pool L D) (bs : List (List (Frame L)))
      → AreBatches bs
      → IsOrdered process_frame same_index s
      → lookup s.next s.map ≡ none
      → NoneBeginsAt (receive_all process_frame s bs).next bs
  unfolding receive_all
  NoneBeginsAt-next s [] b v e = tt
  NoneBeginsAt-next s ([] ∷ bs) b v e =
      NoneBeginsAt-next (receive process_frame s []) bs b.1
        (receive-IsOrdered process_frame same_index s [] b.0 v) (receive_drained process_frame s [])
  NoneBeginsAt-next s ((f ∷ fs) ∷ bs) b v e =
      let s' = receive process_frame s (f ∷ fs) in
      let v' = receive-IsOrdered process_frame same_index s (f ∷ fs) b.0 v in
      let e' = receive_drained process_frame s (f ∷ fs) in
      (
        held-ne-next (receive_all process_frame s' bs) f.index (receive_all_drained s' bs e')
            (receive_all-IsHeld s' bs f.index b.1 v' (receive-IsHeld_new s f fs b.0 v)),
        NoneBeginsAt-next s' bs b.1 v' e',
      )

  -- When the dispatcher does not renumber frames, the pool withholds nothing: once it has received
  -- batches of consecutive frames, in any order, none of them begins at the number `next`, the one
  -- that is due.
  pub receive_all_complete :
      (d : D) (bs : List (List (Frame L)))
      → AreBatches bs
      → NoneBeginsAt (receive_all process_frame (init process_frame d) bs).next bs
  unfolding init lookup
  receive_all_complete d bs b =
      NoneBeginsAt-next (init process_frame d) bs b (init-IsOrdered process_frame same_index d) refl
