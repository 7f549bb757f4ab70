-- ===== src/Filter/Stored.antt =====
-- genet-filter/src/ast.rs with genet-kernel/src/store.rs: a store whose filters are the expressions
-- of the filter language.
use Prim.Native.String.{String}
use genet.Base.{ℕ, ◌-◌, ◌≡◌, refl, ap, ◌∙◌, List, [], ◌∷◌, some, take, drop, select}
use genet.Base.Map.{lookup}
use genet.Kernel.Frame.{Frame, indices}
use genet.Kernel.Store.{FilterContext, Loop, filtered_frames}
use genet.Kernel.Store.EventLoop.{Command, start, run}
use genet.Kernel.Store.Consistent.{expected, run-filtered_frames}
use genet.Abi.Layer.{Layer}
use genet.Filter.Value.{Numbers}
use genet.Filter.Expr.{Expr, token, test}
use genet.Filter.Expr.Meaning.{has_layer, LacksAttr, test-token}

-- No layer of these frames has a header or an attribute of that id.
abbrev pub AllLackAttr : String → List (Frame Layer) → Type 0
AllLackAttr t [] = Unit {0}
AllLackAttr t (f ∷ fs) = LacksAttr t f.layers × AllLackAttr t fs

abbrev pub with_layer : String → List (Frame Layer) → List (Frame Layer)
with_layer t = select λ f. has_layer t f.layers

module _ (nums : Numbers) where
  select-with_layer :
      (t : String) (frames : List (Frame Layer))
      → AllLackAttr t frames
      → select (test nums (token t)) frames ≡ with_layer t frames
  select-with_layer t [] h = refl
  select-with_layer t (f ∷ fs) h = rw (test-token nums t f h.0, select-with_layer t fs h.1) refl

  expected-token :
      {E : Type 0} (s : Loop Layer Expr E) (c : FilterContext Expr) (id : ℕ) (t : String)
      → lookup id s.filter_map ≡ some c
      → c.filter ≡ token t
      → AllLackAttr t s.shared.frames
      → expected (test nums) s id ≡ indices (with_layer t s.shared.frames)
  unfolding expected
  expected-token s c id t p f h =
      rw (p, expected, f) (ap indices (select-with_layer t s.shared.frames h))

  -- After any history of commands, where a filter in use is a token and no layer of the stored
  -- frames has a header or an attribute of that id: the indices that the store gives out for the
  -- filter are those of the frames with a layer of that id, in order and cut to the range asked for.
  pub run-token :
      {E : Type 0} (cmds : List (Command Layer Expr E)) (s : Loop Layer Expr E)
      (c : FilterContext Expr) (id first last : ℕ) (t : String)
      → run (test nums) start cmds ≡ s
      → lookup id s.filter_map ≡ some c
      → c.filter ≡ token t
      → AllLackAttr t s.shared.frames
      → filtered_frames s.shared id first last
        ≡ take (last - first) (drop first (indices (with_layer t s.shared.frames)))
  run-token {E = E} cmds s c id first last t r p f h =
      let found : expected (test nums) s id ≡ indices (with_layer t s.shared.frames) =
        expected-token s c id t p f h in
      let here : Loop Layer Expr E = run (test nums) start cmds in
      let given : filtered_frames here.shared id first last
          ≡ take (last - first) (drop first (expected (test nums) here id)) =
        run-filtered_frames (test nums) cmds id first last in
      (rw r at given) ∙ ap (λ l. take (last - first) (drop first l)) found
