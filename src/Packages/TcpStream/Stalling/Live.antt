-- ===== src/Packages/TcpStream/Stalling/Live.antt =====
-- A segment of a live stream of package/tcp/tcp-stream/src/lib.rs.
use native.Mathlib.Decide.{ℕ_discrete, dec_lt}
use genet.Base.{
  ℕ, ◌+◌, ◌-◌, ◌%◌, ◌<◌, ◌≡◌, refl, sym, ap, ◌∙◌, List, [], arith, length, Bool-cases, inl, inr,
  ◌==◌, ==_ne, subst,
}
use genet.Base.Int.{pos}
use genet.Abi.Slice.{ByteSlice}
use genet.Packages.TcpStream.{
  Stream, Segment, u32_limit, usize_limit, add_usize, fetch, store, follow,
}
use genet.Packages.TcpStream.Fetching.{add_usize-small}
use genet.Packages.TcpStream.Stalling.{
  Phase, live, stalled, deliver, next_live, Above, IsLive, IsPhase,
}
use genet.Packages.TcpStream.Stalling.Steps.{Reaches, store_live, store_gap, fetch_live}
use genet.Packages.TcpStream.Stalling.Branches.{
  last_seq-pos, follow_same, follow_gap, follow_wrap, follow_old, follow_empty, next_same, next_gap,
  next_wrap, next_old, next_empty,
}

-- A step whose outcome and whose stream are known.
pub by_outcome :
    {o o' : List ByteSlice × Phase} {t t' : Stream} {m : ℕ}
    → o ≡ o'
    → t ≡ t'
    → Reaches o'.0 o'.1 m (fetch t')
    → Reaches o.0 o.1 m (fetch t)
by_outcome {o} {o'} {t} {t'} {m} e f h =
    let by_stream = subst (λ (x : Stream). Reaches o'.0 o'.1 m (fetch x)) (sym f) h in
    subst (λ (x : List ByteSlice × Phase). Reaches x.0 x.1 m (fetch t)) (sym e) by_stream

pub stays :
    (s : Stream) (n : ℕ) (p : Phase) → IsLive s → IsPhase p s → Reaches [] p (s.len + n) (fetch s)
stays s n p l ph = rw (fetch_live s l) (record { delivered = refl; phase = ph; len = omega arith })

module _ (seg : Segment) (s : Stream) (n : ℕ) (ph : IsPhase (live n) s) (u : seg.seq < u32_limit)
    (h : s.len + length seg.bytes + u32_limit < usize_limit) where
  -- A slice that is put right behind the last one, and one that is put at a distance.
  store_at_end :
      Reaches
        (deliver seg.bytes)
        (live seg.seq)
        (s.len + length seg.bytes)
        (fetch (store seg (add_usize s.len 0) s))
  store_at_end =
      let same : add_usize s.len 0 ≡ s.len = add_usize-small s.len 0 (omega arith) ∙ omega arith in
      rw same (store_live seg s ph.2 u (omega arith))

  store_beyond :
      (gap : ℕ)
      → 0 < length seg.bytes
      → gap < u32_limit
      → 0 < gap
      → Reaches [] stalled (s.len + length seg.bytes) (fetch (store seg (add_usize s.len gap) s))
  store_beyond gap l g positive =
      let fits = add_usize-small s.len gap (omega arith) in
      let above : Above s.offset s.slices = subst (Above s.offset) (sym ph.2.empty) tt in
      store_gap seg (add_usize s.len gap) s above (omega (arith, ph.2.caught_up))
        (omega (arith, fits, ph.2.caught_up)) l (omega arith)

  follow_live_empty :
      length seg.bytes ≡ 0
      → Reaches
          (next_live seg n).0
          (next_live seg n).1
          (s.len + length seg.bytes)
          (fetch (follow seg n s))
  follow_live_empty l = elim (Bool-cases ((n + 1) % (u32_limit - 1) == seg.seq)) [
    | inl y ↦
        by_outcome {o' = ([], live seg.seq)} {t' = record s { seq = pos seg.seq }}
          (next_empty seg n l ∙ rw y refl)
          (follow_empty seg s n (last_seq-pos s n ph.0 ph.1) l ∙ rw y refl)
          (stays (record s { seq = pos seg.seq }) (length seg.bytes) (live seg.seq)
            (record { empty = ph.2.empty; caught_up = ph.2.caught_up })
            (refl, u, record { empty = ph.2.empty; caught_up = ph.2.caught_up }))
    | inr y ↦
        by_outcome {o' = ([], live n)} {t' = s} (next_empty seg n l ∙ rw y refl)
          (follow_empty seg s n (last_seq-pos s n ph.0 ph.1) l ∙ rw y refl)
          (stays s (length seg.bytes) (live n) ph.2 ph)
  ]

  follow_live_below :
      0 < length seg.bytes
      → seg.seq < n
      → Reaches
          (next_live seg n).0
          (next_live seg n).1
          (s.len + length seg.bytes)
          (fetch (follow seg n s))
  follow_live_below l lt =
      let seen = last_seq-pos s n ph.0 ph.1 in
      elim (dec_lt (seg.seq + seg.window) n) [
        | no w ↦
            by_outcome (next_old seg n l lt (omega arith))
              (follow_old seg s n seen l lt (omega arith))
              (stays s (length seg.bytes) (live n) ph.2 ph)
        | yes w ↦ elim (ℕ_discrete (u32_limit - 1 - n + seg.seq) 0) [
          | yes z ↦
              by_outcome (next_wrap seg n l w ∙ rw z refl)
                (follow_wrap seg s n seen l w ∙ ap (λ g. store seg (add_usize s.len g) s) z)
                store_at_end
          | no z ↦
              by_outcome (next_wrap seg n l w ∙ rw (==_ne _ 0 z) refl)
                (follow_wrap seg s n seen l w)
                (store_beyond (u32_limit - 1 - n + seg.seq) l (omega (arith, ph.1)) (omega arith))
        ]
      ]

  pub follow_live :
      Reaches
        (next_live seg n).0
        (next_live seg n).1
        (s.len + length seg.bytes)
        (fetch (follow seg n s))
  follow_live =
      let seen = last_seq-pos s n ph.0 ph.1 in
      elim (ℕ_discrete (length seg.bytes) 0) [
        | yes l ↦ follow_live_empty l
        | no l ↦ elim (ℕ_discrete seg.seq n) [
          | yes q ↦
              by_outcome (next_same seg n (omega arith) q)
                (follow_same seg s n seen (omega arith) q) store_at_end
          | no q ↦ elim (dec_lt n seg.seq) [
            | yes gt ↦
                by_outcome (next_gap seg n (omega arith) gt)
                  (follow_gap seg s n seen (omega arith) gt)
                  (store_beyond (seg.seq - n) (omega arith) (omega arith) (omega arith))
            | no le ↦ follow_live_below (omega arith) (omega arith)
          ]
        ]
      ]
