-- ===== src/Packages/TcpStream/Stalling/Machine.antt =====
-- Every stream of package/tcp/tcp-stream/src/lib.rs behaves as the machine without a buffer.
use native.Mathlib.Decide.{dec_lt}
use genet.Base.{
  ℕ, ◌+◌, ◌-◌, ◌%◌, ◌<◌, ◌≡◌, refl, ap, ◌∙◌, List, [], ◌∷◌, ◌++◌, arith, length, Bool-cases, inl,
  inr, ◌==◌, lt→ltb,
}
use genet.Base.Int.{pos}
use genet.Abi.Slice.{ByteSlice}
use genet.Packages.TcpStream.{
  Stream, Segment, new, u32_limit, usize_limit, add_usize, fetch, store, last_seq, follow, syn,
  receive, step,
}
use genet.Packages.TcpStream.Fetching.{add_usize-small}
use genet.Packages.TcpStream.Stalling.{
  Phase, fresh, live, stalled, next, IsStalled, IsPhase, run, run_phase, AreSegments, bytes_in,
}
use genet.Packages.TcpStream.Stalling.Steps.{Reaches, store_live, store_gap, fetch_stalled}
use genet.Packages.TcpStream.Stalling.Branches.{receive-fresh, receive-live}
use genet.Packages.TcpStream.Stalling.Live.{by_outcome, stays, follow_live}

-- A stalled stream that no slice comes to.
stays_stalled : (s : Stream) (n : ℕ) → IsStalled s → Reaches [] stalled (s.len + n) (fetch s)
stays_stalled s n st =
    rw (fetch_stalled s st) (record { delivered = refl; phase = st; len = omega arith })

-- What a segment that is no SYN makes of a stream.
data Effect (seg : Segment) (s : Stream) (t : Stream) : Type 0 where
  none : t ≡ s → Effect seg s t
  noted : t ≡ record s { seq = pos seg.seq } → Effect seg s t
  kept :
      (gap : ℕ)
      → 0 < length seg.bytes
      → gap < u32_limit
      → t ≡ store seg (add_usize s.len gap) s
      → Effect seg s t

follow-Effect :
    (seg : Segment) (n : ℕ) (s : Stream) → seg.seq < u32_limit → Effect seg s (follow seg n s)
unfolding follow
follow-Effect seg n s u = elim (dec_lt 0 (length seg.bytes)) [
  | yes l ↦ rw (lt→ltb 0 (length seg.bytes) l) (elim (dec_lt seg.seq (last_seq s)) [
    | no q ↦ kept (seg.seq - last_seq s) l (omega arith) (ground arith)
    | yes q ↦ elim (dec_lt (seg.seq + seg.window) n) [
      | yes w ↦ kept (u32_limit - 1 - last_seq s + seg.seq) l (omega arith) (ground arith)
      | no w ↦ none (ground arith)
    ]
  ])
  | no l ↦ elim (Bool-cases ((n + 1) % (u32_limit - 1) == seg.seq)) [
    | inl y ↦ noted (ground arith)
    | inr y ↦ none (ground arith)
  ]
]

step_stalled :
    (seg : Segment) (s : Stream)
    → IsStalled s
    → seg.seq < u32_limit
    → s.len + length seg.bytes + u32_limit < usize_limit
    → Reaches [] stalled (s.len + length seg.bytes) (step seg s)
unfolding step
step_stalled seg s st u h = elim (Bool-cases (syn seg)) [
  | inl y ↦
      by_outcome {o' = ([], stalled)} refl (receive-live seg s st.last st.started ∙ rw y refl)
        (stays_stalled s (length seg.bytes) st)
  | inr y ↦
      let open_call : receive seg s ≡ follow seg st.last s =
        receive-live seg s st.last st.started ∙ rw y refl in
      elim (follow-Effect seg st.last s u) [
        | none e ↦
            by_outcome {o' = ([], stalled)} refl (open_call ∙ e)
              (stays_stalled s (length seg.bytes) st)
        | noted e ↦ by_outcome {o' = ([], stalled)} refl (open_call ∙ e) (
            stays_stalled (record s { seq = pos seg.seq }) (length seg.bytes)
              (record { above = st.above; behind = st.behind; last = seg.seq; started = refl }))
        | kept gap l g e ↦
            let fits = add_usize-small s.len gap (omega arith) in
            by_outcome {o' = ([], stalled)} refl (open_call ∙ e) (
              store_gap seg (add_usize s.len gap) s st.above (omega (arith, st.behind))
                (omega (arith, fits, st.behind)) l (omega arith))
      ]
]

fetch_phase :
    (seg : Segment) (s : Stream) (p : Phase)
    → IsPhase p s
    → seg.seq < u32_limit
    → s.len + length seg.bytes + u32_limit < usize_limit
    → Reaches (next seg p).0 (next seg p).1 (s.len + length seg.bytes) (step seg s)
unfolding step
fetch_phase seg s fresh ph u h = elim (Bool-cases (syn seg)) [
  | inl y ↦
      by_outcome (rw y refl) (receive-fresh seg s ph.0 ∙ rw y refl)
        (store_live seg s ph.1 u (omega arith))
  | inr y ↦
      by_outcome (rw y refl) (receive-fresh seg s ph.0 ∙ rw y refl)
        (stays s (length seg.bytes) fresh ph.1 ph)
]
fetch_phase seg s (live n) ph u h = elim (Bool-cases (syn seg)) [
  | inl y ↦
      by_outcome (rw y refl) (receive-live seg s n ph.0 ∙ rw y refl)
        (stays s (length seg.bytes) (live n) ph.2 ph)
  | inr y ↦
      by_outcome (rw y refl) (receive-live seg s n ph.0 ∙ rw y refl) (follow_live seg s n ph u h)
]
fetch_phase seg s stalled ph u h = step_stalled seg s ph u h

run_phase_from :
    (segs : List Segment) (s : Stream) (p : Phase)
    → IsPhase p s
    → AreSegments segs
    → s.len + bytes_in segs + u32_limit < usize_limit
    → run segs s ≡ run_phase segs p
run_phase_from [] s p ph a h = refl
run_phase_from (seg ∷ segs) s p ph a h =
    let r = fetch_phase seg s p ph a.0 (omega arith) in
    ap (λ (v : List ByteSlice). v ++ run segs (step seg s).1) r.delivered
    ∙ ap (λ (v : List ByteSlice). (next seg p).0 ++ v)
        (run_phase_from segs (step seg s).1 (next seg p).1 r.phase a.1 (omega (arith, r.len)))

-- A new stream hands on exactly what the machine without a buffer does, whatever segments come:
-- the map never holds a slice that is handed on later. The sequence numbers are those of a `u32`,
-- and the bytes stay 2 ^ 32 below the range of a `usize`.
pub run-run_phase :
    (id : ℕ) (segs : List Segment)
    → AreSegments segs
    → bytes_in segs + u32_limit < usize_limit
    → run segs (new id) ≡ run_phase segs fresh
unfolding new
run-run_phase id segs a h =
    run_phase_from segs (new id) fresh (refl, record { empty = refl; caught_up = refl }) a
      (omega arith)
