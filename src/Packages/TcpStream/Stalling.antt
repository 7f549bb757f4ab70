-- ===== src/Packages/TcpStream/Stalling.antt =====
-- The streams of package/tcp/tcp-stream/src/lib.rs against a machine without a buffer.
pub mod Steps
pub mod Branches
pub mod Live
pub mod Machine
use genet.Base.{
  ℕ, ◌+◌, ◌-◌, ◌%◌, ◌≤◌, ◌<◌, ◌≡◌, List, [], ◌∷◌, ◌++◌, length, if◌then◌else◌, leb, ltb, ◌==◌,
}
use genet.Base.Int.{pos, negsuc}
use genet.Abi.Slice.{ByteSlice}
use genet.Packages.TcpStream.{Stream, Segment, u32_limit, syn, step}

-- Before the first SYN, after a segment with that sequence number, and behind a gap.
pub data Phase : Type 0 where
  fresh : Phase
  live : ℕ → Phase
  stalled : Phase

abbrev pub deliver : ByteSlice → List ByteSlice
deliver [] = []
deliver (b ∷ bs) = (b ∷ bs) ∷ []

-- A live stream hands a segment on at once if its sequence number is the last one again, and a
-- higher one is a gap. One lower by more than the window has wrapped around, and that is no gap
-- only from the highest number to 0.
abbrev pub next_live : Segment → ℕ → List ByteSlice × Phase
next_live seg n =
    if ltb 0 (length seg.bytes)
    then if seg.seq == n
      then (seg.bytes ∷ [], live n)
      else if ltb n seg.seq
      then ([], stalled)
      else if ltb (seg.seq + seg.window) n
      then if u32_limit - 1 - n + seg.seq == 0
        then (seg.bytes ∷ [], live seg.seq)
        else ([], stalled)
      else ([], live n)
    else if (n + 1) % (u32_limit - 1) == seg.seq
    then ([], live seg.seq)
    else ([], live n)

abbrev pub next : Segment → Phase → List ByteSlice × Phase
next seg fresh = if syn seg then (deliver seg.bytes, live seg.seq) else ([], fresh)
next seg (live n) = if syn seg then ([], live n) else next_live seg n
next seg stalled = ([], stalled)

abbrev pub Above : ℕ → List (ℕ × ByteSlice) → Type 0
Above offset [] = Unit
Above offset ((k, v) ∷ m) = (offset < k) × Above offset m

-- Everything that came is handed on.
pub record IsLive (s : Stream) : Type 0 where
  pub empty : s.slices ≡ []
  pub caught_up : s.offset ≡ s.len

-- The offset is one that no slice will ever have.
pub record IsStalled (s : Stream) : Type 0 where
  pub above : Above s.offset s.slices
  pub behind : s.offset < s.len
  pub last : ℕ
  pub started : s.seq ≡ pos last

abbrev pub IsPhase : Phase → Stream → Type 0
IsPhase fresh s = (s.seq ≡ negsuc 0) × IsLive s
IsPhase (live n) s = (s.seq ≡ pos n) × (n < u32_limit) × IsLive s
IsPhase stalled s = IsStalled s

-- What comes of the segments of one stream, in order.
abbrev pub run : List Segment → Stream → List ByteSlice
run [] s = []
run (seg ∷ segs) s = let (values, s') = step seg s in values ++ run segs s'

abbrev pub run_phase : List Segment → Phase → List ByteSlice
run_phase [] p = []
run_phase (seg ∷ segs) p = let (values, p') = next seg p in values ++ run_phase segs p'

-- The numbers of the segments are those of a `u32`.
abbrev pub AreSegments : List Segment → Type 0
AreSegments [] = Unit
AreSegments (seg ∷ segs) = (seg.seq < u32_limit) × AreSegments segs

abbrev pub bytes_in : List Segment → ℕ
bytes_in [] = 0
bytes_in (seg ∷ segs) = length seg.bytes + bytes_in segs
