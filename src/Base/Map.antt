-- ===== src/Base/Map.antt =====
-- A map with numbers for keys, as an association list: `HashMap<u32, V>` and `BTreeMap<usize, V>`
-- where the program reads them by key only.
use Prim.Native.Nat.{ℕ, ◌≤◌, ◌<◌}
use mathlib.Core.Path.{◌≡◌}
use mathlib.Core.Logic.{◌⊎◌}
use mathlib.Core.List.{List, [], ◌∷◌}
use mathlib.Core.Option.{Option, none, some}
use native.Mathlib.Omega.{arith}
use genet.Base.Tests.{◌==◌, if◌then◌else◌}
use genet.Base.Lists.{length}

module _ {ℓ} {V : Type ℓ} where
  unfoldable pub lookup : ℕ → List (ℕ × V) → Option V
  lookup k [] = none
  lookup k ((j, v) ∷ m) = if j == k then some v else lookup k m

  unfoldable pub remove : ℕ → List (ℕ × V) → List (ℕ × V)
  remove k [] = []
  remove k ((j, v) ∷ m) = if j == k then remove k m else (j, v) ∷ remove k m

  unfoldable pub insert : ℕ → V → List (ℕ × V) → List (ℕ × V)
  unfolding remove
  insert k v m = (k, v) ∷ remove k m

  pub lookup-remove :
      (k j : ℕ) (m : List (ℕ × V)) → lookup j (remove k m) ≡ (if k == j then none else lookup j m)
  unfolding lookup remove
  lookup-remove k j [] = ground arith
  lookup-remove k j ((i, w) ∷ m) = ground (arith, lookup-remove k j m)

  pub lookup-insert :
      (k j : ℕ) (v : V) (m : List (ℕ × V))
      → lookup j (insert k v m) ≡ (if k == j then some v else lookup j m)
  unfolding lookup insert
  lookup-insert k j v m = ground (arith, lookup-remove k j m)

  pub length-remove-le : (k : ℕ) (m : List (ℕ × V)) → length (remove k m) ≤ length m
  unfolding remove
  length-remove-le k [] = omega arith
  length-remove-le k ((i, w) ∷ m) = ground (arith, length-remove-le k m)

  -- Taking out an entry that is there makes the map smaller.
  pub length-remove-lt :
      (k : ℕ) (v : V) (m : List (ℕ × V)) → lookup k m ≡ some v → length (remove k m) < length m
  unfolding lookup remove
  length-remove-lt k v [] h = ground arith
  length-remove-lt k v ((i, w) ∷ m) h = ground (arith, length-remove-le k m, length-remove-lt k v m)

  -- What is found after a removal or an insertion was there before, or is the new entry.
  pub lookup-remove-some :
      (k j : ℕ) (v : V) (m : List (ℕ × V)) → lookup j (remove k m) ≡ some v → lookup j m ≡ some v
  lookup-remove-some k j v m h = ground (arith, lookup-remove k j m)

  pub lookup-insert-some :
      (k j : ℕ) (v w : V) (m : List (ℕ × V))
      → lookup j (insert k v m) ≡ some w
      → ((k ≡ j) × (v ≡ w)) ⊎ (lookup j m ≡ some w)
  lookup-insert-some k j v w m h = ground (arith, lookup-insert k j v m)

  -- No key stands twice.
  abbrev pub Distinct : List (ℕ × V) → Type ℓ
  Distinct [] = Unit
  Distinct ((k, v) ∷ m) = (lookup k m ≡ none) × Distinct m

  pub lookup-remove_self : (k : ℕ) (m : List (ℕ × V)) → lookup k (remove k m) ≡ none
  lookup-remove_self k m = ground (arith, lookup-remove k k m)

  remove-none : (k j : ℕ) (m : List (ℕ × V)) → lookup j m ≡ none → lookup j (remove k m) ≡ none
  remove-none k j m h = ground (arith, lookup-remove k j m)

  pub remove-Distinct : (k : ℕ) (m : List (ℕ × V)) → Distinct m → Distinct (remove k m)
  unfolding remove
  remove-Distinct k [] d = tt
  remove-Distinct k ((j, v) ∷ m) d = ground (arith, remove-Distinct k m d.1, remove-none k j m d.0)

  pub insert-Distinct : (k : ℕ) (v : V) (m : List (ℕ × V)) → Distinct m → Distinct (insert k v m)
  unfolding insert
  insert-Distinct k v m d = (lookup-remove_self k m, remove-Distinct k m d)
