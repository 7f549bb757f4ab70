-- ===== src/Kernel/Store/Input.antt =====
-- The thread of an input, `Store::set_input` of genet-kernel/src/store.rs: what it sends to the event
-- loop. A turn is a time that `upgrade` finds the input still held.
use genet.Base.{ℕ, zero, suc, List, [], ◌∷◌, some}
use genet.Kernel.Store.{InputResult, ok, err}
use genet.Kernel.Store.EventLoop.{Command, push_frames}

module _ {L F E W : Type 0} (read : W → InputResult L E × W) (id : ℕ) where
  unfoldable pub read_input : ℕ → W → List (Command L F E)
  read_input zero input = []
  read_input (suc turns) input =
      let (result, input') = read input in
      elim result [
        | ok layers ↦ elim layers [
          | [] ↦ read_input turns input'
          | first ∷ more ↦ push_frames (some id) (ok (first ∷ more)) ∷ read_input turns input'
        ]
        | err e ↦ push_frames (some id) (err e) ∷ []
      ]
