-- ===== src/Kernel/Dispatcher/Rounds.antt =====
-- The rounds of genet-kernel/src/decoder/dispatcher.rs on one layer, and the runners they use up.
use genet.Base.{
  ℕ, zero, suc, ◌+◌, ◌==◌, ◌≤◌, ◌<◌, ◌≡◌, refl, arith, inl, inr, Bool-cases, Option-cases,
  if◌then◌else◌, true, false, List, [], ◌∷◌, ◌++◌, length, get_elem?, set, Option, none, some,
  length-append, length-set,
}
use genet.Kernel.Dispatcher.{
  Outcome, OnceRunner, Round, execute, execute_once, count, round, rounds,
}

module _ {W L : Type 0} (decode : W → List L → L → Outcome W L) where
  -- A decoder that skips a layer adds no child to it.
  abbrev pub OnlyDoneAdds : Type 0
  OnlyDoneAdds =
      (w : W) (layers : List L) (layer : L)
      → (decode w layers layer).result ≡ some false
      → (decode w layers layer).children ≡ []

module _ {W : Type 0} where
  abbrev pub unused : List (OnceRunner W) → ℕ
  unused [] = 0
  unused (r ∷ rs) = (if r.used then 0 else 1) + unused rs

  pub unused-le-length : (rs : List (OnceRunner W)) → unused rs ≤ length rs
  unused-le-length [] = omega arith
  unused-le-length (r ∷ rs) = ground (arith, unused-le-length rs)

module _ {W L : Type 0} (decode : W → List L → L → Outcome W L) where
  execute-idle :
      OnlyDoneAdds decode
      → (r : Option W) (layers : List L) (layer : L) → (execute decode r layers layer).done ≡ false
      → (execute decode r layers layer).children ≡ []
  unfolding execute
  execute-idle only none layers layer h = refl
  execute-idle only (some w) layers layer h = elim (Option-cases (decode w layers layer).result) [
    | inl e ↦ let bad : true ≡ false = rw e at h in cc
    | inr (done, e) ↦ only w layers layer (let d : done ≡ false = rw e at h in rw d at e)
  ]

  -- One runner: it is used up exactly when it is done.
  execute_once-used :
      (r : OnceRunner W) (layers : List L) (layer : L)
      → let e = execute_once decode r layers layer in
        unused (e.runner ∷ []) + count decode e.done ≡ unused (r ∷ [])
  unfolding execute_once
  execute_once-used r layers layer = elim (Bool-cases r.used) [
    | inl e ↦ rw e refl
    | inr e ↦ elim (Bool-cases (execute decode r.runner layers layer).done) [
      | inl d ↦ rw (e, d) refl
      | inr d ↦ rw (e, d) refl
    ]
  ]

  -- A runner that is not done has added nothing.
  execute_once-idle :
      OnlyDoneAdds decode
      → (r : OnceRunner W) (layers : List L) (layer : L)
      → (execute_once decode r layers layer).done ≡ false
      → (execute_once decode r layers layer).children ≡ []
  unfolding execute_once
  execute_once-idle only r layers layer h = elim (Bool-cases r.used) [
    | inl e ↦ rw e refl
    | inr e ↦ rw e (execute-idle only r.runner layers layer (rw e at h))
  ]

  round-unused :
      (index : ℕ) (rs : List (OnceRunner W)) (layers : List L)
      → let t = round decode index rs layers in unused t.runners + t.executed ≡ unused rs
  unfolding round
  round-unused index [] layers = refl
  round-unused index (r ∷ rs) layers = elim (Option-cases (get_elem? layers index)) [
    | inl e ↦ rw (e, round) (omega arith)
    | inr (layer, e) ↦
        let x = execute_once decode r layers layer in
        let ih = round-unused index rs (set layers index x.layer ++ x.children) in
        rw (e, round) (omega (arith, ih, execute_once-used r layers layer))
  ]

  round-layers :
      (index : ℕ) (rs : List (OnceRunner W)) (layers : List L)
      → let t = round decode index rs layers in length t.layers ≡ length layers + t.children
  unfolding round
  round-layers index [] layers = omega arith
  round-layers index (r ∷ rs) layers = elim (Option-cases (get_elem? layers index)) [
    | inl e ↦ rw (e, round) (omega arith)
    | inr (layer, e) ↦
        let x = execute_once decode r layers layer in
        let ih = round-layers index rs (set layers index x.layer ++ x.children) in
        rw (e, round)
          (omega (
            arith,
            ih,
            length-append (set layers index x.layer) x.children,
            length-set layers index x.layer,
          ))
  ]

  round-idle :
      OnlyDoneAdds decode
      → (index : ℕ) (rs : List (OnceRunner W)) (layers : List L)
      → (round decode index rs layers).executed ≡ 0
      → (round decode index rs layers).children ≡ 0
  unfolding round
  round-idle only index [] layers h = refl
  round-idle only index (r ∷ rs) layers h = elim (Option-cases (get_elem? layers index)) [
    | inl e ↦ rw (e, round) refl
    | inr (layer, e) ↦
        let x = execute_once decode r layers layer in
        let after = set layers index x.layer ++ x.children in
        let sum : count decode x.done + (round decode index rs after).executed ≡ 0 =
          rw (e, round) at h in
        let ih = round-idle only index rs after (omega arith) in
        let none_done : x.done ≡ false = elim (Bool-cases x.done) [
          | inl d ↦ absurd (
              let one : 1 + (round decode index rs after).executed ≡ 0 = rw d at sum in omega arith)
          | inr d ↦ d
        ] in
        let no_child : length x.children ≡ 0 =
          rw (execute_once-idle only r layers layer none_done) refl in
        rw (e, round) (omega (arith, ih, no_child))
  ]

  -- What all the rounds on one layer do together.
  pub record Ran (rs : List (OnceRunner W)) (layers : List L) (t : Round W L) : Type 0 where
    pub grown : length t.layers ≡ length layers + t.children
    pub used : unused t.runners ≤ unused rs
    pub idle : unused t.runners ≡ unused rs → t.children ≡ 0

  -- With a unit of fuel for each unused runner and one more, the rounds end.
  pub rounds-Ran :
      OnlyDoneAdds decode
      → (fuel index : ℕ) (rs : List (OnceRunner W)) (layers : List L) → unused rs < fuel
      → (t : Round W L) × (rounds decode fuel index rs layers ≡ some t) × Ran rs layers t
  unfolding rounds round
  rounds-Ran only zero index rs layers h = absurd (omega arith)
  rounds-Ran only (suc fuel) index rs layers h =
      let t = round decode index rs layers in
      let grown = round-layers index rs layers in
      let spent = round-unused index rs layers in
      elim (Bool-cases (t.executed == 0)) [
        | inl stop ↦
            let zero_executed : t.executed ≡ 0 = ground (arith, stop) in
            (
              t,
              rw (stop, rounds) refl,
              record {
                grown = grown;
                used = omega (arith, spent);
                idle = λ e. round-idle only index rs layers zero_executed;
              },
            )
        | inr more ↦
            let some_executed : 1 ≤ t.executed = ground (arith, more) in
            let (u, e, r) = rounds-Ran only fuel index t.runners t.layers (omega (arith, spent)) in
            (
              record u { children = t.children + u.children },
              rw (more, rounds, e) refl,
              record {
                grown = omega (arith, grown, r.grown);
                used = omega (arith, spent, r.used);
                idle = λ same. absurd (omega (arith, same, spent, r.used, some_executed));
              },
            )
      ]
