-- ===== src/Packages/TcpStream/Numbering.antt =====
-- The streams of package/tcp/tcp-stream/src/lib.rs and their numbers.
use genet.Base.{
  ℕ, ◌+◌, ◌-◌, ◌≡◌, refl, sym, ap, ◌∙◌, subst, List, [], ◌∷◌, ◌++◌, none, some, length, arith,
  Bool-cases, Option-cases, inl, inr,
}
use genet.Abi.Result.{Result, ok, err}
use genet.Abi.Layer.{Layer, Parent, find_payload}
use genet.Abi.Slice.{ByteSlice}
use text.Mathlib.Text.{◌==◌ as str_eq}
use genet.Packages.{Status}
use genet.Sdk.Cast.{ByteOrder}
use genet.Packages.TcpStream.{
  add_usize, last_seq, u32_limit, Stream, Segment, new, put, fetch, store, follow, receive, step,
}
use genet.Packages.TcpStream.Worker.{
  Outcome, stream_id, StreamId, Worker, same_id, find_stream, assign, entry, deliver,
  decode_segment, decode_payload, decode,
}
use genet.Packages.TcpStream.Entries.{entry-new, entry-found, find_stream-entry_self}

-- The streams are numbered in the order in which they stand in the map, from `n` on.
abbrev pub AreNumbered : ℕ → Worker → Type 0
AreNumbered n [] = Unit
AreNumbered n ((k, s) ∷ w) = (s.id ≡ n) × AreNumbered (n + 1) w

id-store : (seg : Segment) (key : ℕ) (s : Stream) → (store seg key s).id ≡ s.id
unfolding store put
id-store seg key s = ground arith

id-follow : (seg : Segment) (n : ℕ) (s : Stream) → (follow seg n s).id ≡ s.id
unfolding follow
id-follow seg n s = ground (
  arith,
  id-store seg (add_usize s.len (seg.seq - last_seq s)) s,
  id-store seg (add_usize s.len (u32_limit - 1 - last_seq s + seg.seq)) s,
)

id-step : (seg : Segment) (s : Stream) → (step seg s).1.id ≡ s.id
unfolding step fetch receive
id-step seg s = grind (arith, id-store, id-follow)

AreNumbered-append :
    (key : StreamId) (t : Stream) (n : ℕ) (w : Worker)
    → AreNumbered n w
    → t.id ≡ n + length w
    → AreNumbered n (w ++ (key, t) ∷ [])
AreNumbered-append key t n [] a e = (e ∙ omega arith, tt)
AreNumbered-append key t n ((k, s) ∷ w) a e =
    (a.0, AreNumbered-append key t (n + 1) w a.1 (e ∙ omega arith))

-- A stream that keeps its number takes the place of the one that is found.
AreNumbered-assign :
    (key : StreamId) (t : Stream) (n : ℕ) (w : Worker)
    → AreNumbered n w
    → ((s : Stream) → find_stream key w ≡ some s → t.id ≡ s.id)
    → AreNumbered n (assign key t w)
unfolding assign find_stream
AreNumbered-assign key t n [] a h = tt
AreNumbered-assign key t n ((k, s) ∷ w) a h = elim (Bool-cases (same_id k key)) [
  | inl y ↦ rw (assign, y) (h s (rw y refl) ∙ a.0, a.1)
  | inr y ↦ rw (assign, y) (a.0, AreNumbered-assign key t (n + 1) w a.1 (λ s' e. h s' (rw y e)))
]

entry-AreNumbered : (key : StreamId) (w : Worker) → AreNumbered 0 w → AreNumbered 0 (entry key w).1
unfolding new
entry-AreNumbered key w a = elim (Option-cases (find_stream key w)) [
  | inl e ↦
      subst (λ (r : _ × _). AreNumbered 0 r.1) (sym (entry-new key w e))
        (AreNumbered-append key (new (length w)) 0 w a (omega arith))
  | inr (s, e) ↦ subst (λ (r : _ × _). AreNumbered 0 r.1) (sym (entry-found key w s e)) a
]

deliver-AreNumbered :
    (key : StreamId) (seg : Segment) (w : Worker)
    → AreNumbered 0 w
    → AreNumbered 0 (deliver key seg w).1
unfolding deliver
deliver-AreNumbered key seg w a =
    AreNumbered-assign key _ 0 (entry key w).1 (entry-AreNumbered key w a) λ s e.
      let same : (entry key w).0 ≡ s = let found = find_stream-entry_self key w in cc in
      id-step seg (entry key w).0 ∙ ap (λ t. t.id) same

-- What a call of `decode` makes of the map.
data Change (w : Worker) (w' : Worker) : Type 0 where
  unchanged : w' ≡ w → Change w w'
  entered : (key : StreamId) → w' ≡ (entry key w).1 → Change w w'
  delivered : (key : StreamId) (seg : Segment) → w' ≡ (deliver key seg w).1 → Change w w'

module _ (io : ByteOrder) (f64_as_u64 : ℕ → ℕ) (parent : Parent) (w : Worker) (w' : Worker)
    (parent' : Parent) (r : Result Status) where
  decode_segment-Change :
      (key : StreamId) (seg : Outcome Segment)
      → decode_segment f64_as_u64 io key seg parent w ≡ some (w', parent', r)
      → Change w w'
  unfolding decode_segment
  decode_segment-Change key none e = absurd (cc)
  decode_segment-Change key (some (err x)) e = entered key (cc)
  decode_segment-Change key (some (ok seg)) e = delivered key seg (cc)

  decode_payload-Change :
      (bytes : ByteSlice) (key : Outcome StreamId)
      → decode_payload f64_as_u64 io bytes key parent w ≡ some (w', parent', r)
      → Change w w'
  unfolding decode_payload
  decode_payload-Change bytes none e = absurd (cc)
  decode_payload-Change bytes (some (err x)) e = unchanged (cc)
  decode_payload-Change bytes (some (ok key)) e = decode_segment-Change key _ e

  decode-Change :
      (stack : List Layer)
      → decode f64_as_u64 io stack parent w ≡ some (w', parent', r)
      → Change w w'
  unfolding decode
  decode-Change stack e = elim (Bool-cases (str_eq parent.layer.class.id "tcp")) [
    | inr y ↦ unchanged (ground (arith, y))
    | inl y ↦ elim (Option-cases (find_payload "@data:tcp" parent)) [
      | inl n ↦ absurd (ground (arith, y, n))
      | inr (p, f) ↦
          decode_payload-Change p.bytes (stream_id f64_as_u64 stack parent) (ground (arith, y, f))
    ]
  ]

-- `decode` keeps the streams numbered from 0 on in the order in which they were entered, whatever
-- its result.
pub decode-AreNumbered :
    (io : ByteOrder) (f64_as_u64 : ℕ → ℕ) (stack : List Layer) (parent parent' : Parent)
    (w w' : Worker) (r : Result Status)
    → decode f64_as_u64 io stack parent w ≡ some (w', parent', r)
    → AreNumbered 0 w
    → AreNumbered 0 w'
decode-AreNumbered io f64_as_u64 stack parent parent' w w' r e a =
    elim (decode-Change io f64_as_u64 parent w w' parent' r stack e) [
      | unchanged e' ↦ subst (AreNumbered 0) (sym e') a
      | entered key e' ↦ subst (AreNumbered 0) (sym e') (entry-AreNumbered key w a)
      | delivered key seg e' ↦ subst (AreNumbered 0) (sym e') (deliver-AreNumbered key seg w a)
    ]
