-- ===== src/Kernel/Session/Handles.antt =====
-- genet-kernel/src/session.rs: the handles that `create_reader` and `create_writer` return, and the
-- table of inputs.
use Prim.Native.String.{String}
use genet.Base.{
  ℕ, ◌+◌, ◌^◌, ◌≡◌, ◌<◌, ◌≤◌, ◌⊎◌, refl, inl, inr, List, [], ◌∷◌, Option, none, some, length,
  if◌then◌else◌, ◌==◌, arith,
}
use genet.Base.Map.{lookup, insert, lookup-insert, lookup-remove}
use genet.Kernel.Session.{
  Plugin, Created, created, refused, Session, Request, create_reader, create_writer, close_reader,
  create, next_handle, set_input, unset_input, request, run,
}

-- Each handle that is not 0 is greater than `last` and than all handles before it.
abbrev pub IsAscending : ℕ → List ℕ → Type 0
IsAscending last [] = Unit {0}
IsAscending last (h ∷ hs) = ((h ≡ 0) × IsAscending last hs) ⊎ ((last < h) × IsAscending h hs)

IsAscending-le : (l m : ℕ) (hs : List ℕ) → l ≤ m → IsAscending m hs → IsAscending l hs
IsAscending-le l m [] h a = tt
IsAscending-le l m (h0 ∷ hs) h (inl (z, a)) = inl (z, IsAscending-le l m hs h a)
IsAscending-le l m (h0 ∷ hs) h (inr (k, a)) = inr (omega arith, a)

created_cases :
    {W : Type 0} (x : Option (Created W))
    → (x ≡ none) ⊎ ((e : String) × (x ≡ some (refused e))) ⊎ ((w : W) × (x ≡ some (created w)))
created_cases none = inl refl
created_cases (some (refused e)) = inr (inl (e, refl))
created_cases (some (created w)) = inr (inr (w, refl))

module _ {I O F : Type 0} (readers : List (Plugin I)) (writers : List (Plugin O))
    (config : List (String × String)) where
  -- A request returns 0 or the next handle, and the counter does not go back.
  abbrev Steps : Session I O F → ℕ × Session I O F → Type 0
  Steps s (h, s') =
      ((h ≡ 0) × (s.io_cnt ≤ s'.io_cnt) × (s'.io_cnt ≤ s.io_cnt + 1))
      ⊎ ((h ≡ s.io_cnt + 1) × (s'.io_cnt ≡ h))

  request-Steps :
      (s : Session I O F) (r : Request F)
      → s.io_cnt + 1 < 2 ^ 32
      → Steps s (request readers writers config s r)
  unfolding request
  request-Steps s (create_reader id arg) h = elim (created_cases (create config readers id arg)) [
    | inl e ↦ rw (request, e) (inl (refl, omega arith, omega arith))
    | inr (inl (text, e)) ↦ rw (request, e) (inl (refl, omega arith, omega arith))
    | inr (inr (worker, e)) ↦ rw (request, e) (inr (omega arith, refl))
  ]
  request-Steps s (create_writer id arg filter) h =
      elim (created_cases (create config writers id arg)) [
        | inl e ↦ rw (request, e) (inl (refl, omega arith, omega arith))
        | inr (inl (text, e)) ↦ rw (request, e) (inl (refl, omega arith, omega arith))
        | inr (inr (worker, e)) ↦ rw (request, e) (inr (omega arith, refl))
      ]
  request-Steps s (close_reader handle) h = inl (refl, omega arith, omega arith)

  -- As long as the counter stays below 2 ^ 32, every handle that is not 0 is greater than all handles
  -- returned before it, whatever readers and writers are refused or closed in between.
  pub run-IsAscending :
      (s : Session I O F) (rs : List (Request F))
      → s.io_cnt + length rs < 2 ^ 32
      → IsAscending s.io_cnt (run readers writers config s rs).0
  unfolding run
  run-IsAscending s [] h = tt
  run-IsAscending s (r ∷ rs) h =
      let s' : Session I O F = (request readers writers config s r).1 in
      let steps : Steps s (request readers writers config s r) = request-Steps s r (omega arith) in
      let bound : s'.io_cnt ≤ s.io_cnt + 1 = elim steps [
        | inl (z, lo, hi) ↦ hi
        | inr (n, c) ↦ omega (arith, n, c)
      ] in
      let rest : IsAscending s'.io_cnt (run readers writers config s' rs).0 =
        run-IsAscending s' rs (omega arith) in
      elim steps [
        | inl (z, lo, hi) ↦ inl (z, IsAscending-le s.io_cnt s'.io_cnt _ lo rest)
        | inr (n, c) ↦ inr (omega (arith, n), rw c at rest)
      ]

  -- Where a plug-in's worker is created for a reader, it is held under the next handle, and the
  -- other inputs stay; closing that handle takes it out and leaves the others.
  pub create_reader-lookup :
      (s : Session I O F) (id arg : String) (worker : I) (j : ℕ)
      → create config readers id arg ≡ some (created worker)
      → let opened = (request readers writers config s (create_reader id arg)).1 in
        let closed = (request readers writers config opened (close_reader (next_handle s))).1 in
        (lookup j opened.store.inputs
          ≡ (if next_handle s == j then some worker else lookup j s.store.inputs))
        × (lookup j closed.store.inputs
            ≡ (if next_handle s == j then none else lookup j s.store.inputs))
  unfolding request set_input unset_input
  create_reader-lookup s id arg worker j e =
      let h = next_handle s in
      let held = lookup-insert h j worker s.store.inputs in
      let own = lookup-insert h h worker s.store.inputs in
      let gone = lookup-remove h j (insert h worker s.store.inputs) in
      ground (arith, e, held, own, gone)
