-- ===== src/Kernel/Frame.antt =====
-- genet-kernel/src/frame.rs: a frame is its index, its layers and the number of children that the
-- decoders made of each layer. `L` stands for a layer.
use genet.Base.{ℕ, suc, ◌+◌, ◌≡◌, List, [], ◌∷◌, ◌++◌, map, length, arith}

pub record Frame (L : Type 0) : Type 0 where
  pub index : ℕ
  pub layers : List L
  pub tree_indices : List ℕ

module _ {L : Type 0} where
  unfoldable pub new : ℕ → L → Frame L
  new index root = record { index = index; layers = root ∷ []; tree_indices = [] }

  -- `fetch_layers` and `fetch_tree_indices` swap an empty vector in.
  unfoldable pub fetch_layers : Frame L → List L × Frame L
  fetch_layers f = (f.layers, record f { layers = [] })

  unfoldable pub fetch_tree_indices : Frame L → List ℕ × Frame L
  fetch_tree_indices f = (f.tree_indices, record f { tree_indices = [] })

  unfoldable pub set_layers : Frame L → List L → Frame L
  set_layers f layers = record f { layers = layers }

  unfoldable pub set_tree_indices : Frame L → List ℕ → Frame L
  set_tree_indices f tree_indices = record f { tree_indices = tree_indices }

  abbrev pub indices : List (Frame L) → List ℕ
  indices = map λ f. f.index

  -- The frames carry the numbers k, k + 1, … in this order.
  abbrev pub Consecutive : ℕ → List (Frame L) → Type 0
  Consecutive k [] = Unit {0}
  Consecutive k (f ∷ fs) = (f.index ≡ k) × Consecutive (suc k) fs

  pub Consecutive-append :
      (k : ℕ) (fs gs : List (Frame L))
      → Consecutive k fs
      → Consecutive (k + length fs) gs
      → Consecutive k (fs ++ gs)
  Consecutive-append k [] gs c d = let e : k + 0 ≡ k = omega arith in rw e at d
  Consecutive-append k (f ∷ fs) gs c d =
      let e : k + suc (length fs) ≡ suc k + length fs = omega arith in
      (c.0, Consecutive-append (suc k) fs gs c.1 (rw e at d))

  -- A batch is numbered without a gap, from some number on.
  abbrev pub IsBatch : List (Frame L) → Type 0
  IsBatch frames = (k : ℕ) × Consecutive k frames

  abbrev pub AreBatches : List (List (Frame L)) → Type 0
  AreBatches [] = Unit {0}
  AreBatches (b ∷ bs) = IsBatch b × AreBatches bs

  pub AreBatches-append :
      (bs cs : List (List (Frame L))) → AreBatches bs → AreBatches cs → AreBatches (bs ++ cs)
  AreBatches-append [] cs b c = c
  AreBatches-append (x ∷ bs) cs b c = (b.0, AreBatches-append bs cs b.1 c)

  -- One batch taken out of the list.
  pub AreBatches-split :
      (bs cs : List (List (Frame L))) (x : List (Frame L))
      → AreBatches (bs ++ x ∷ cs)
      → IsBatch x × AreBatches (bs ++ cs)
  AreBatches-split [] cs x b = b
  AreBatches-split (y ∷ bs) cs x b =
      let (own, rest) = AreBatches-split bs cs x b.1 in (own, (b.0, rest))

  pub Consecutive-prefix :
      (k : ℕ) (fs gs : List (Frame L)) → Consecutive k (fs ++ gs) → Consecutive k fs
  Consecutive-prefix k [] gs c = tt
  Consecutive-prefix k (f ∷ fs) gs c = (c.0, Consecutive-prefix (suc k) fs gs c.1)
