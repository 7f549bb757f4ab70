-- ===== src/Kernel/Store/Filtering/Every.antt =====
-- `process_filters` of genet-kernel/src/store.rs over the whole map of filters.
use mathlib.Core.Path.{subst}
use genet.Base.{
  ℕ, suc, ◌<◌, ◌≡◌, ◌≢◌, refl, sym, ap, ◌∙◌, Bool, List, [], ◌∷◌, length, none, some, arith, ◌==◌,
  ==_ne, Bool-cases, inl, inr,
}
use genet.Base.Map.{lookup, Distinct}
use genet.Kernel.Frame.{Frame}
use genet.Kernel.Store.{Shared, FilterContext}
use genet.Kernel.Store.Filtering.{run_filter, run_filters}
use genet.Kernel.Store.Filtering.Correct.{Seen, UpToDate, Ran, run_filter-Ran}

module _ {L F E : Type 0} (test : F → Frame L → Bool) where
  UpToDate-same :
      (s t : Shared L E) (id : ℕ) (c : FilterContext F)
      → t.frames ≡ s.frames
      → lookup id t.filtered ≡ lookup id s.filtered
      → UpToDate test s id c
      → UpToDate test t id c
  UpToDate-same s t id c p q (a, b) = (a ∙ ap length (sym p), ground (arith, b, p, q))

  Seen-same :
      (s t : Shared L E) (id : ℕ) (c : FilterContext F)
      → t.frames ≡ s.frames
      → lookup id t.filtered ≡ lookup id s.filtered
      → Seen test s id c
      → Seen test t id c
  Seen-same s t id c p q (a, b) = (omega (arith, ap length p), ground (arith, b, p, q))

  abbrev pub AllSeen : Shared L E → List (ℕ × FilterContext F) → Type 0
  AllSeen s m = (id : ℕ) (c : FilterContext F) → lookup id m ≡ some c → Seen test s id c

  abbrev pub Absent :
      Shared L E → List (ℕ × FilterContext F) → Shared L E × List (ℕ × FilterContext F) → Type 0
  Absent s m (s', m') =
      (id : ℕ)
      → lookup id m ≡ none
      → (lookup id m' ≡ none) × (lookup id s'.filtered ≡ lookup id s.filtered)

  abbrev pub Present : List (ℕ × FilterContext F) → Shared L E × List (ℕ × FilterContext F) → Type 0
  Present m (s', m') =
      (id : ℕ) (c : FilterContext F)
      → lookup id m ≡ some c
      → (c' : FilterContext F) × (lookup id m' ≡ some c')
        × (c'.filter ≡ c.filter)
        × UpToDate test s' id c'

  pub record Refreshed (s : Shared L E) (m : List (ℕ × FilterContext F))
      (r : Shared L E × List (ℕ × FilterContext F)) : Type 0 where
    pub same_frames : r.0.frames ≡ s.frames
    pub distinct : Distinct r.1
    pub absent : Absent s m r
    pub present : Present m r

  -- One filter, then the rest of the map.
  cons-Refreshed :
      (s : Shared L E) (id : ℕ) (c : FilterContext F) (m : List (ℕ × FilterContext F))
      (q : Shared L E × FilterContext F) (r : Shared L E × List (ℕ × FilterContext F))
      → lookup id m ≡ none
      → Ran test s id c q
      → Refreshed q.0 m r
      → Refreshed s ((id, c) ∷ m) (r.0, (id, q.1) ∷ r.1)
  unfolding lookup
  cons-Refreshed s id c m q r new ran v = record {
    same_frames = v.same_frames ∙ ran.0;
    distinct = ((v.absent id new).0, v.distinct);
    absent = λ j e. elim (Bool-cases (id == j)) [
      | inl same ↦ ground arith
      | inr other ↦
          let e' : lookup j m ≡ none = ground arith in
          let ne : id ≢ j = ground arith in
          let (gone, kept) = v.absent j e' in (rw other gone, kept ∙ ran.3 j ne)
    ];
    present = λ j a e. elim (Bool-cases (id == j)) [
      | inl same ↦
          let eq : id ≡ j = ground arith in
          let e' : a ≡ c = ground arith in
          (
            q.1,
            ground arith,
            ran.1 ∙ ap (λ b. b.filter) (sym e'),
            subst (λ k. UpToDate test r.0 k q.1) eq
                (UpToDate-same q.0 r.0 id q.1 v.same_frames (v.absent id new).1 ran.2),
          )
      | inr other ↦
          let e' : lookup j m ≡ some a = ground arith in
          let (a', f, same, u) = v.present j a e' in (a', rw other f, same, u)
    ];
  }

  pub run_filters-Refreshed :
      (block : ℕ) (s : Shared L E) (m : List (ℕ × FilterContext F))
      → 0 < block
      → Distinct m
      → AllSeen s m
      → Refreshed s m (run_filters test block s m)
  unfolding run_filters lookup
  run_filters-Refreshed block s [] b d h = record {
    same_frames = refl;
    distinct = tt;
    absent = λ id e. (refl, refl);
    present = λ id c e. cc;
  }
  run_filters-Refreshed block s ((id, c) ∷ m) b d h =
      let q = run_filter test (suc (length s.frames)) block s id c in
      let own : Seen test s id c = h id c (ground arith) in
      let ran = run_filter-Ran test (suc (length s.frames)) block s id c b (omega arith) own in
      let seen : AllSeen q.0 m = λ j a e.
        let ne : id ≢ j = λ same. let gone : lookup j m ≡ none = rw (← same) d.0 in cc in
        let e' : lookup j ((id, c) ∷ m) ≡ some a = ground (arith, ==_ne id j ne) in
        Seen-same s q.0 j a ran.0 (ran.3 j ne) (h j a e') in
      cons-Refreshed s id c m q _ d.0 ran (run_filters-Refreshed block q.0 m b d.1 seen)
