-- ===== src/Kernel/Session.antt =====
-- genet-kernel/src/session.rs, with the inputs of `Store` (genet-kernel/src/store.rs): handles of
-- readers and writers. A plug-in's `new_worker` is an argument; a text of an error is its
-- description. The profile is that of the session's beginning.
pub mod Handles
use Prim.Native.String.{String}
use text.Mathlib.Text.{◌==◌ as str_eq}
use genet.Base.{ℕ, ◌+◌, ◌%◌, ◌^◌, List, [], ◌∷◌, ◌++◌, Option, none, some, find}
use genet.Base.Map.{lookup, insert, remove}
use genet.Kernel.Store

pub data Created (W : Type 0) : Type 0 where
  created : W → Created W
  refused : String → Created W

-- A reader or a writer: `metadata().id` and `new_worker`.
pub record Plugin (W : Type 0) : Type 0 where
  pub id : String
  pub new_worker : List (String × String) → String → Created W

-- `enum Event`
pub data Event (E : Type 0) : Type 0 where
  frames async_frames : ℕ → Event E
  filtered_frames : ℕ → ℕ → Event E
  input output : ℕ → Option E → Event E
  error : E → Event E

-- `StoreCallback`
unfoldable pub on_store_event : {E : Type 0} → Store.Event E → Event E
on_store_event (Store.Event.frames_updated n) = frames n
on_store_event (Store.Event.async_frames_updated n) = async_frames n
on_store_event (Store.Event.filtered_frames_updated id n) = filtered_frames id n
on_store_event (Store.Event.output_done id e) = output id e
on_store_event (Store.Event.input_done id e) = input id e

-- The inputs of a store, and those that were taken out and not yet joined.
pub record Inputs (I : Type 0) : Type 0 where
  pub inputs : List (ℕ × I)
  pub inputs_trash : List I

pub record Session (I O F : Type 0) : Type 0 where
  pub io_cnt : ℕ
  pub store : Inputs I
  -- The outputs sent to the event loop, with their filters.
  pub outputs : List (ℕ × O × Option F)
  pub events : List (Event String)

pub data Request (F : Type 0) : Type 0 where
  create_reader : String → String → Request F
  create_writer : String → String → Option F → Request F
  close_reader : ℕ → Request F

module _ {I : Type 0} where
  unfoldable pub set_input : ℕ → I → Inputs I → Inputs I
  set_input id worker s = record s { inputs = insert id worker s.inputs }

  unfoldable pub unset_input : ℕ → Inputs I → Inputs I
  unset_input id s = elim (lookup id s.inputs) [
    | none ↦ s
    | some worker ↦ record {
      inputs = remove id s.inputs;
      inputs_trash = s.inputs_trash ++ worker ∷ [];
    }
  ]

-- A worker of the plug-in of that id.
abbrev pub create :
    {W : Type 0} → List (String × String) → List (Plugin W) → String → String → Option (Created W)
create config plugins id arg = elim (find (λ p. str_eq p.id id) plugins) [
  | none ↦ none
  | some p ↦ some (p.new_worker config arg)
]

module _ {I O F : Type 0} where
  abbrev pub next_handle : Session I O F → ℕ
  next_handle s = (s.io_cnt + 1) % 2 ^ 32

  abbrev refuse : Session I O F → String → Session I O F
  refuse s e = record s { io_cnt = next_handle s; events = s.events ++ error e ∷ [] }

module _ {I O F : Type 0} (readers : List (Plugin I)) (writers : List (Plugin O))
    (config : List (String × String)) where
  unfoldable pub request : Session I O F → Request F → ℕ × Session I O F
  request s (create_reader id arg) = elim (create config readers id arg) [
    | none ↦ (0, s)
    | some (refused e) ↦ (0, refuse s e)
    | some (created worker) ↦ (
      next_handle s,
      record s { io_cnt = next_handle s; store = set_input (next_handle s) worker s.store },
    )
  ]
  request s (create_writer id arg filter) = elim (create config writers id arg) [
    | none ↦ (0, s)
    | some (refused e) ↦ (0, refuse s e)
    | some (created worker) ↦ (
      next_handle s,
      record s {
        io_cnt = next_handle s;
        outputs = s.outputs ++ (next_handle s, worker, filter) ∷ [];
      },
    )
  ]
  request s (close_reader handle) = (0, record s { store = unset_input handle s.store })

  -- The handles that a history of requests returns, and the session after it.
  unfoldable pub run : Session I O F → List (Request F) → List ℕ × Session I O F
  run s [] = ([], s)
  run s (r ∷ rs) =
      let (handle, s') = request s r in let (handles, s'') = run s' rs in (handle ∷ handles, s'')
