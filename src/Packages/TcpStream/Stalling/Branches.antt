-- ===== src/Packages/TcpStream/Stalling/Branches.antt =====
-- The branches of `decode` of package/tcp/tcp-stream/src/lib.rs that change a stream, and those of
-- the machine without a buffer.
use native.Mathlib.Nat.{mod-eq_of_lt}
use genet.Base.{
  ℕ, ◌+◌, ◌-◌, ◌%◌, ◌^◌, ◌≤◌, ◌<◌, ◌≡◌, refl, ap, ◌∙◌, [], ◌∷◌, arith, length, if◌then◌else◌, ◌==◌,
}
use genet.Base.Int.{pos, negsuc, to_bits}
use genet.Abi.Slice.{ByteSlice}
use genet.Packages.TcpStream.{
  Stream, Segment, u32_limit, add_usize, store, last_seq, follow, syn, receive,
}
use genet.Packages.TcpStream.Stalling.{live, stalled, deliver, next_live}

pub receive-fresh :
    (seg : Segment) (s : Stream)
    → s.seq ≡ negsuc 0
    → receive seg s ≡ (if syn seg then store seg s.len s else s)
unfolding receive
receive-fresh seg s e = ground (arith, e)

pub receive-live :
    (seg : Segment) (s : Stream) (n : ℕ)
    → s.seq ≡ pos n
    → receive seg s ≡ (if syn seg then s else follow seg n s)
unfolding receive
receive-live seg s n e = ground (arith, e)

-- The sequence number of a live stream, as a `u32`.
pub last_seq-pos : (s : Stream) (n : ℕ) → s.seq ≡ pos n → n < u32_limit → last_seq s ≡ n
unfolding last_seq to_bits u32_limit
last_seq-pos s n e h =
    ap (λ z. to_bits z % 2 ^ 32) e
    ∙ ap (λ m. m % 2 ^ 32) (mod-eq_of_lt (omega arith))
    ∙ mod-eq_of_lt h

module _ (seg : Segment) (s : Stream) (n : ℕ) (e : last_seq s ≡ n) where
  pub follow_same :
      0 < length seg.bytes → seg.seq ≡ n → follow seg n s ≡ store seg (add_usize s.len 0) s
  unfolding follow
  follow_same l q =
      let zero_gap : seg.seq - last_seq s ≡ 0 = omega (arith, e, q) in
      ground (arith, e, q, zero_gap)

  pub follow_gap :
      0 < length seg.bytes
      → n < seg.seq
      → follow seg n s ≡ store seg (add_usize s.len (seg.seq - n)) s
  unfolding follow
  follow_gap l q = ground (arith, e)

  pub follow_wrap :
      0 < length seg.bytes
      → seg.seq + seg.window < n
      → follow seg n s ≡ store seg (add_usize s.len (u32_limit - 1 - n + seg.seq)) s
  unfolding follow
  follow_wrap l q = ground (arith, e)

  pub follow_old :
      0 < length seg.bytes → seg.seq < n → n ≤ seg.seq + seg.window → follow seg n s ≡ s
  unfolding follow
  follow_old l q w = ground (arith, e)

  pub follow_empty :
      length seg.bytes ≡ 0
      → follow seg n s
        ≡ (if (n + 1) % (u32_limit - 1) == seg.seq then record s { seq = pos seg.seq } else s)
  unfolding follow
  follow_empty l = ground (arith, e)

deliver-ne : (bs : ByteSlice) → 0 < length bs → deliver bs ≡ bs ∷ []
deliver-ne [] h = absurd (omega arith)
deliver-ne (b ∷ bs) h = refl

module _ (seg : Segment) (n : ℕ) where
  pub next_same :
      0 < length seg.bytes → seg.seq ≡ n → next_live seg n ≡ (deliver seg.bytes, live seg.seq)
  next_same l q = rw (deliver-ne seg.bytes l) (ground (arith, q))

  pub next_gap : 0 < length seg.bytes → n < seg.seq → next_live seg n ≡ ([], stalled)
  next_gap l q = ground arith

  pub next_wrap :
      0 < length seg.bytes
      → seg.seq + seg.window < n
      → next_live seg n ≡ (
          if u32_limit - 1 - n + seg.seq == 0
          then (deliver seg.bytes, live seg.seq)
          else ([], stalled))
  next_wrap l q = rw (deliver-ne seg.bytes l) (ground arith)

  pub next_old :
      0 < length seg.bytes → seg.seq < n → n ≤ seg.seq + seg.window → next_live seg n ≡ ([], live n)
  next_old l q w = ground arith

  pub next_empty :
      length seg.bytes ≡ 0
      → next_live seg n
        ≡ (if (n + 1) % (u32_limit - 1) == seg.seq then ([], live seg.seq) else ([], live n))
  next_empty l = ground arith
