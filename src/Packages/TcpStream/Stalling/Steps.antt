-- ===== src/Packages/TcpStream/Stalling/Steps.antt =====
-- One segment of a stream of package/tcp/tcp-stream/src/lib.rs, in each phase.
use genet.Base.{ℕ, ◌+◌, ◌≤◌, ◌<◌, ◌≡◌, refl, ap, ◌∙◌, List, [], ◌∷◌, arith, length, lt→ltb, ==_refl}
use genet.Base.Int.{ℤ, pos}
use genet.Abi.Slice.{ByteSlice}
use genet.Packages.TcpStream.{
  Stream, Segment, u32_limit, usize_limit, add_usize, insert, put, fetch_from, fetch, store,
}
use genet.Packages.TcpStream.Fetching.{add_usize-small}
use genet.Packages.TcpStream.Stalling.{
  Phase, live, stalled, deliver, Above, IsLive, IsStalled, IsPhase,
}

insert-Above :
    (offset k : ℕ) (v : ByteSlice) (m : List (ℕ × ByteSlice))
    → offset < k
    → Above offset m
    → Above offset (insert k v m)
unfolding insert
insert-Above offset k v [] h a = (h, tt)
insert-Above offset k v ((j, w) ∷ m) h a = ground (arith, insert-Above offset k v m h a.1)

fetch_from-Above :
    (offset : ℕ) (m : List (ℕ × ByteSlice)) → Above offset m → fetch_from offset m ≡ (offset, [], m)
unfolding fetch_from
fetch_from-Above offset [] a = refl
fetch_from-Above offset ((k, v) ∷ m) a = ground (arith, a.0)

-- A step that has handed on `values`, reached a phase, and counted the bytes.
pub record Reaches (values : List ByteSlice) (p : Phase) (before : ℕ) (r : List ByteSlice × Stream)
    : Type 0 where
  pub delivered : r.0 ≡ values
  pub phase : IsPhase p r.1
  pub len : r.1.len ≤ before

abbrev segment : ℕ → ℕ → ℕ → ByteSlice → Segment
segment seq window flags bytes = record { seq = seq; window = window; flags = flags; bytes = bytes }

-- A stream that has handed on all of its `n` bytes.
abbrev caught_up : ℕ → ℤ → ℕ → Stream
caught_up id seq n = record { id = id; seq = seq; len = n; offset = n; slices = [] }

IsLive-caught_up : (s : Stream) → IsLive s → s ≡ caught_up s.id s.seq s.len
IsLive-caught_up s l = λ i. record s { offset = l.caught_up i; slices = l.empty i }

-- A slice at the end of a live stream is handed on at once.
fetch_from-single :
    (n : ℕ) (v : ByteSlice) → fetch_from n ((n, v) ∷ []) ≡ (add_usize n (length v), v ∷ [], [])
unfolding fetch_from
fetch_from-single n v = rw (==_refl n) refl

fetch-store_caught_up :
    (seq window flags : ℕ) (bytes : ByteSlice) (id : ℕ) (z : ℤ) (n : ℕ)
    → n + length bytes < usize_limit
    → fetch (store (segment seq window flags bytes) n (caught_up id z n))
      ≡ (deliver bytes, caught_up id (pos seq) (n + length bytes))
unfolding fetch store put insert
fetch-store_caught_up seq window flags [] id z n h =
    let same : n + 0 ≡ n = omega arith in
    rw (add_usize-small n 0 h, same) (unfold fetch_from in refl)
fetch-store_caught_up seq window flags (b ∷ bs) id z n h =
    rw
      (
        add_usize-small n (length (b ∷ bs)) h,
        lt→ltb 0 (length (b ∷ bs)) (omega arith),
        fetch_from-single n (b ∷ bs),
        add_usize-small n (length (b ∷ bs)) h,
      )
      refl

pub store_live :
    (seg : Segment) (s : Stream)
    → IsLive s
    → seg.seq < u32_limit
    → s.len + length seg.bytes < usize_limit
    → Reaches
        (deliver seg.bytes)
        (live seg.seq)
        (s.len + length seg.bytes)
        (fetch (store seg s.len s))
store_live seg s l u h =
    let e =
      ap (λ t. fetch (store seg s.len t)) (IsLive-caught_up s l)
      ∙ fetch-store_caught_up seg.seq seg.window seg.flags seg.bytes s.id s.seq s.len h in
    rw e (record {
      delivered = refl;
      phase = (refl, u, record { empty = refl; caught_up = refl });
      len = omega arith;
    })

-- A slice beyond the offset stays where it is.
pub store_gap :
    (seg : Segment) (key : ℕ) (s : Stream)
    → Above s.offset s.slices
    → s.offset ≤ s.len
    → s.offset < key
    → 0 < length seg.bytes
    → s.len + length seg.bytes < usize_limit
    → Reaches [] stalled (s.len + length seg.bytes) (fetch (store seg key s))
unfolding fetch store put
store_gap seg key s a le lt ne h =
    let above = insert-Above s.offset key seg.bytes s.slices lt a in
    rw
      (
        lt→ltb 0 (length seg.bytes) ne,
        fetch_from-Above s.offset _ above,
        add_usize-small s.len (length seg.bytes) h,
      )
      (record {
        delivered = refl;
        phase = record { above = above; behind = omega arith; last = seg.seq; started = refl };
        len = omega arith;
      })

-- Nothing is handed on where the map does not change.
pub fetch_live : (s : Stream) → IsLive s → fetch s ≡ ([], s)
unfolding fetch fetch_from
fetch_live s l = rw (l.empty) refl

pub fetch_stalled : (s : Stream) → IsStalled s → fetch s ≡ ([], s)
unfolding fetch
fetch_stalled s st = rw (fetch_from-Above s.offset s.slices st.above) refl
