-- ===== src/Kernel/Dispatcher.antt =====
-- genet-kernel/src/decoder/dispatcher.rs: the decoders run over the layers of a frame, breadth
-- first. A decoder's worker is a state `W`; `decode` is its call through the C interface, which may
-- change the layer and adds children; `none` as its result is an error. The loops run on fuel.
pub mod Rounds
pub mod Ends
pub mod Always
use genet.Base.{
  ℕ, zero, suc, ◌+◌, ◌-◌, ◌%◌, ◌==◌, ltb, leb, if◌then◌else◌, Bool, true, false, List, [], ◌∷◌,
  ◌++◌, map, length, get_elem?, set, Option, none, some,
}
use genet.Kernel.Frame.{Frame, fetch_layers, fetch_tree_indices, set_layers, set_tree_indices}

pub record Outcome (W L : Type 0) : Type 0 where
  pub worker : W
  pub layer : L
  pub children : List L
  pub result : Option Bool

-- What is left after a runner of kind `R` was executed.
pub record Executed (R L : Type 0) : Type 0 where
  pub runner : R
  pub layer : L
  pub children : List L
  pub done : Bool

-- A `Runner` is its worker, if it has one.
pub record OnceRunner (W : Type 0) : Type 0 where
  pub runner : Option W
  pub used : Bool

-- The variables of one turn of the inner loop.
pub record Round (W L : Type 0) : Type 0 where
  pub runners : List (OnceRunner W)
  pub layers : List L
  pub executed : ℕ
  pub children : ℕ

-- The variables of the outer loops.
pub record Pass (W L : Type 0) : Type 0 where
  pub runners : List (OnceRunner W)
  pub layers : List L
  pub indices : List ℕ

module _ {W L : Type 0} (decode : W → List L → L → Outcome W L) where
  -- `Runner::execute`
  unfoldable pub execute : Option W → List L → L → Executed (Option W) L
  execute none layers layer = record { runner = none; layer = layer; children = []; done = true }
  execute (some w) layers layer =
      let o = decode w layers layer in
      record {
        runner = some o.worker;
        layer = o.layer;
        children = o.children;
        done = elim o.result [ some done ↦ done | none ↦ true ];
      }

  -- `OnceRunner::execute`
  unfoldable pub execute_once : OnceRunner W → List L → L → Executed (OnceRunner W) L
  unfolding execute
  execute_once r layers layer =
      let e = execute r.runner layers layer in
      if r.used then record { runner = r; layer = layer; children = []; done = false } else record {
        runner = record { runner = e.runner; used = e.done };
        layer = e.layer;
        children = e.children;
        done = e.done;
      }

  abbrev pub count : Bool → ℕ
  count true = 1
  count false = 0

  -- The `for` loop over the runners, on the layer at `index`. There is always a layer.
  unfoldable pub round : ℕ → List (OnceRunner W) → List L → Round W L
  round index [] layers = record { runners = []; layers = layers; executed = 0; children = 0 }
  round index (r ∷ rs) layers = elim (get_elem? layers index) [
    | none ↦ record { runners = r ∷ rs; layers = layers; executed = 0; children = 0 }
    | some layer ↦
        let e = execute_once r layers layer in
        let rest = round index rs (set layers index e.layer ++ e.children) in
        record rest {
          runners = e.runner ∷ rest.runners;
          executed = count e.done + rest.executed;
          children = length e.children + rest.children;
        }
  ]

  -- The inner `loop`: rounds until none of the runners was executed.
  unfoldable pub rounds : ℕ → ℕ → List (OnceRunner W) → List L → Option (Round W L)
  rounds zero index rs layers = none
  rounds (suc fuel) index rs layers =
      let t = round index rs layers in
      let more : Option (Round W L) = elim (rounds fuel index t.runners t.layers) [
        | none ↦ none
        | some u ↦ some (record u { children = t.children + u.children })
      ] in
      if t.executed == 0 then some t else more

  abbrev pub is_counted : List ℕ → ℕ → Bool
  is_counted indices index = elim (get_elem? indices index) [ none ↦ false | some n ↦ ltb 0 n ]

  -- `for index in index..index + n`
  unfoldable pub visit : ℕ → ℕ → ℕ → Pass W L → Option (Pass W L)
  visit fuel index zero s = some s
  visit fuel index (suc n) s = elim (is_counted s.indices index) [
    | true ↦ visit fuel (suc index) n s
    | false ↦ elim (rounds fuel index s.runners s.layers) [
      | none ↦ none
      | some t ↦ visit fuel (suc index) n (record {
        runners = t.runners;
        layers = t.layers;
        indices = s.indices ++ t.children % 256 ∷ [];
      })
    ]
  ]

  -- The outer `loop`
  unfoldable pub passes : ℕ → ℕ → ℕ → Pass W L → Option (Pass W L)
  passes zero inner offset s = none
  passes (suc fuel) inner offset s =
      let len = length s.layers - offset in
      elim (visit inner offset len s) [
        | none ↦ none
        | some t ↦ elim (leb (length t.layers) (offset + len)) [
          | true ↦ some t
          | false ↦ passes fuel inner (offset + len) t
        ]
      ]

  -- `Dispatcher::runners`
  abbrev pub once : List (Option W) → List (OnceRunner W)
  once = map λ r. record { runner = r; used = false }

  -- `Dispatcher::process_frame`, with the runners that it leaves.
  unfoldable pub process_frame : List (Option W) → Frame L → Option (List (Option W) × Frame L)
  process_frame runners frame =
      let (indices, frame') = fetch_tree_indices frame in
      let (layers, frame'') = fetch_layers frame' in
      let fuel = suc (length runners) in
      elim (passes fuel fuel 0
        (record { runners = once runners; layers = layers; indices = indices })) [
          | none ↦ none
          | some t ↦ some (
            map (λ r. r.runner) t.runners,
            set_tree_indices (set_layers frame'' t.layers) t.indices,
          )
        ]
