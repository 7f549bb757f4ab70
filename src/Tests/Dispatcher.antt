-- ===== src/Tests/Dispatcher.antt =====
-- Runs of the dispatcher.
use genet.Base.{
  ℕ, suc, ◌+◌, ◌≤◌, ◌≡◌, ◌==◌, refl, arith, Bool-cases, inl, inr, true, false, List, [], ◌∷◌,
  length, Option, none, some,
}
use genet.Kernel.Frame.{Frame, fetch_layers, fetch_tree_indices, set_layers, set_tree_indices}
use genet.Kernel.Dispatcher.{
  Outcome, process_frame, passes, visit, rounds, round, execute_once, execute,
}
use genet.Kernel.Dispatcher.Always.{process_frame-ends}
use genet.Kernel.Dispatcher.Rounds.{OnlyDoneAdds}
use genet.Kernel.Dispatcher.Ends.{sum, process_frame-counts}

-- A decoder that is done on the layer numbered as its worker and adds the next number to it.
abbrev pub add_next : ℕ → List ℕ → ℕ → Outcome ℕ ℕ
add_next w layers layer = elim (layer == w) [
  | true ↦ record { worker = w; layer = layer; children = suc layer ∷ []; result = some true }
  | false ↦ record { worker = w; layer = layer; children = []; result = some false }
]

pub add_next-OnlyDoneAdds : OnlyDoneAdds add_next
add_next-OnlyDoneAdds w layers layer e = elim (Bool-cases (layer == w)) [
  | inl same ↦ let bad : some true ≡ some false = rw (same, add_next) at e in cc
  | inr other ↦ rw (other, add_next) refl
]

abbrev captured : Frame ℕ
captured = record { index = 4; layers = 0 ∷ []; tree_indices = [] }

process_frame-counts_example :
    (left : List (Option ℕ)) × (result : Frame ℕ) × (process_frame add_next
        (some 1 ∷ none ∷ some 0 ∷ [])
        captured
      ≡ some (left, result))
    × (result.index ≡ 4)
    × (length result.tree_indices ≡ length result.layers)
    × (1 ≤ length result.layers)
    × (length result.layers ≤ 256 → sum add_next result.tree_indices + 1 ≡ length result.layers)
process_frame-counts_example =
    process_frame-counts add_next add_next-OnlyDoneAdds (some 1 ∷ none ∷ some 0 ∷ []) captured refl
      (omega arith)

decoded :
    process_frame add_next (some 1 ∷ none ∷ some 0 ∷ []) captured
    ≡ some (
      some 1 ∷ none ∷ some 0 ∷ [],
      record { index = 4; layers = 0 ∷ 1 ∷ 2 ∷ []; tree_indices = 1 ∷ 1 ∷ 0 ∷ [] },
    )
unfolding process_frame passes visit rounds round execute_once execute fetch_layers
    fetch_tree_indices set_layers set_tree_indices
decoded = refl

abbrev counted : Frame ℕ
counted = record { index = 4; layers = 0 ∷ 1 ∷ []; tree_indices = 1 ∷ 0 ∷ [] }

-- A second dispatcher on a frame that has its counts puts the new count behind the others, and
-- does not visit the layer that it added.
decoded_twice :
    process_frame add_next (some 1 ∷ some 2 ∷ []) counted
    ≡ some (
      some 1 ∷ some 2 ∷ [],
      record { index = 4; layers = 0 ∷ 1 ∷ 2 ∷ []; tree_indices = 1 ∷ 0 ∷ 1 ∷ [] },
    )
unfolding process_frame passes visit rounds round execute_once execute fetch_layers
    fetch_tree_indices set_layers set_tree_indices
decoded_twice = refl

process_frame-ends_example :
    (left : List (Option ℕ)) × (result : Frame ℕ) × (process_frame add_next
        (some 1 ∷ some 2 ∷ [])
        counted
      ≡ some (left, result))
    × (result.index ≡ 4)
    × (2 ≤ length result.layers)
process_frame-ends_example =
    process_frame-ends add_next add_next-OnlyDoneAdds (some 1 ∷ some 2 ∷ []) counted
