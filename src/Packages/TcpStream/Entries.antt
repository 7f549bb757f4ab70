-- ===== src/Packages/TcpStream/Entries.antt =====
-- The map of streams of package/tcp/tcp-stream/src/lib.rs: what is found after an entry or a change.
use genet.Base.{
  ◌≡◌, refl, sym, ap, ◌∙◌, [], ◌∷◌, ◌++◌, true, false, none, some, length, arith, Option-cases, inl,
  inr, Bool-cases, if◌then◌else◌,
}
use genet.Abi.Slice.{ByteSlice}
use genet.Packages.TcpStream.{Stream, new}
use genet.Packages.TcpStream.Worker.{
  StreamId, Worker, same_bytes, same_id, find_stream, assign, entry,
}

same_bytes_refl : (a : ByteSlice) → same_bytes a a ≡ true
same_bytes_refl [] = refl
same_bytes_refl (x ∷ xs) = ground (arith, same_bytes_refl xs)

same_bytes_eq : (a b : ByteSlice) → same_bytes a b ≡ true → a ≡ b
same_bytes_eq [] [] h = refl
same_bytes_eq [] (y ∷ ys) h = cc
same_bytes_eq (x ∷ xs) [] h = cc
same_bytes_eq (x ∷ xs) (y ∷ ys) h = ground (arith, same_bytes_eq xs ys)

same_id_refl : (a : StreamId) → same_id a a ≡ true
unfolding same_id
same_id_refl a = ground (arith, same_bytes_refl a.parent_src, same_bytes_refl a.parent_dst)

pub same_id_eq : (a b : StreamId) → same_id a b ≡ true → a ≡ b
unfolding same_id
same_id_eq a b h =
    ground (arith, same_bytes_eq a.parent_src b.parent_src, same_bytes_eq a.parent_dst b.parent_dst)

pub entry-new :
    (key : StreamId) (w : Worker)
    → find_stream key w ≡ none
    → entry key w ≡ (new (length w), w ++ (key, new (length w)) ∷ [])
unfolding entry
entry-new key w e = rw (entry, e) refl

pub entry-found :
    (key : StreamId) (w : Worker) (s : Stream) → find_stream key w ≡ some s → entry key w ≡ (s, w)
unfolding entry
entry-found key w s e = rw (entry, e) refl

find_stream-append :
    (key other : StreamId) (t : Stream) (w : Worker)
    → find_stream other w ≡ none
    → find_stream other (w ++ (key, t) ∷ []) ≡ (if same_id key other then some t else none)
unfolding find_stream
find_stream-append key other t [] e = refl
find_stream-append key other t ((k, s) ∷ w) e = ground (arith, find_stream-append key other t w)

find_stream-append_some :
    (key other : StreamId) (t s : Stream) (w : Worker)
    → find_stream other w ≡ some s
    → find_stream other (w ++ (key, t) ∷ []) ≡ some s
unfolding find_stream
find_stream-append_some key other t s [] e = ground (arith, e)
find_stream-append_some key other t s ((k, s') ∷ w) e =
    ground (arith, find_stream-append_some key other t s w)

pub find_stream-entry_self :
    (key : StreamId) (w : Worker) → find_stream key (entry key w).1 ≡ some (entry key w).0
find_stream-entry_self key w = elim (Option-cases (find_stream key w)) [
  | inl e ↦
      rw (entry-new key w e)
        (find_stream-append key key (new (length w)) w e ∙ rw (same_id_refl key) refl)
  | inr (s, e) ↦ rw (entry-found key w s e) e
]

pub find_stream-entry_other :
    (key other : StreamId) (w : Worker)
    → same_id key other ≡ false
    → find_stream other (entry key w).1 ≡ find_stream other w
find_stream-entry_other key other w ne = elim (Option-cases (find_stream key w)) [
  | inl e ↦ rw (entry-new key w e) (elim (Option-cases (find_stream other w)) [
    | inl o ↦ find_stream-append key other (new (length w)) w o ∙ rw (ne, o) refl
    | inr (t, o) ↦ find_stream-append_some key other (new (length w)) t w o ∙ sym o
  ])
  | inr (s, e) ↦ rw (entry-found key w s e) refl
]

pub find_stream-assign_self :
    (key : StreamId) (t s : Stream) (w : Worker)
    → find_stream key w ≡ some s
    → find_stream key (assign key t w) ≡ some t
unfolding find_stream assign
find_stream-assign_self key t s [] e = ground (arith, e)
find_stream-assign_self key t s ((k, s') ∷ w) e = ground (arith, find_stream-assign_self key t s w)

pub find_stream-assign_other :
    (key other : StreamId) (t : Stream) (w : Worker)
    → same_id key other ≡ false
    → find_stream other (assign key t w) ≡ find_stream other w
unfolding find_stream assign
find_stream-assign_other key other t [] ne = refl
find_stream-assign_other key other t ((k, s) ∷ w) ne = elim (Bool-cases (same_id k key)) [
  | inl y ↦
      let e = same_id_eq k key y in
      let miss : same_id k other ≡ false = ap (λ x. same_id x other) e ∙ ne in rw (y, miss) refl
  | inr y ↦ ground (arith, find_stream-assign_other key other t w ne)
]
