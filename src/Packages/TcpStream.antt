-- ===== src/Packages/TcpStream.antt =====
-- package/tcp/tcp-stream/src/lib.rs: the streams that the worker puts together. `BTreeMap` is a list
-- in the order of its keys.
pub mod Fetching
pub mod Stalling
pub mod Worker
pub mod Entries
pub mod Numbering
pub mod Demultiplexing
use Prim.Native.Nat.{bit_and, compare, Ordering}
use genet.Base.{
  ℕ, ◌+◌, ◌-◌, ◌%◌, ◌^◌, List, [], ◌∷◌, Bool, true, false, not, length, if◌then◌else◌, leb, ltb,
  ◌==◌,
}
use genet.Base.Int.{ℤ, pos, negsuc, to_bits}
use genet.Abi.Slice.{ByteSlice}

-- `Stream`
pub record Stream : Type 0 where
  pub id : ℕ
  pub seq : ℤ
  pub len : ℕ
  pub offset : ℕ
  pub slices : List (ℕ × ByteSlice)

-- The numbers of a `u32` and of a `usize`.
unfoldable pub u32_limit : ℕ
u32_limit = 2 ^ 32

unfoldable pub usize_limit : ℕ
usize_limit = 2 ^ 64

-- `+` of a `usize`
unfoldable pub add_usize : ℕ → ℕ → ℕ
add_usize a b = (a + b) % usize_limit

-- `Stream::new`
unfoldable pub new : ℕ → Stream
new id = record { id = id; seq = negsuc 0; len = 0; offset = 0; slices = [] }

-- `BTreeMap::insert`
unfoldable pub insert : ℕ → ByteSlice → List (ℕ × ByteSlice) → List (ℕ × ByteSlice)
insert k v [] = (k, v) ∷ []
insert k v ((j, w) ∷ m) = elim (compare k j) [
  | Ordering.lt ↦ (k, v) ∷ (j, w) ∷ m
  | Ordering.eq ↦ (k, v) ∷ m
  | Ordering.gt ↦ (j, w) ∷ insert k v m
]

-- `Stream::put`. The loop behind the insertion computes a number that nothing reads.
unfoldable pub put : ℕ → ByteSlice → Stream → Stream
put start bytes s =
    if ltb 0 (length bytes) then record s { slices = insert start bytes s.slices } else s

-- The loop of `Stream::fetch`: the offset behind the slices that it takes, those slices, and the
-- ones that are left.
unfoldable pub fetch_from : ℕ → List (ℕ × ByteSlice) → ℕ × List ByteSlice × List (ℕ × ByteSlice)
fetch_from offset [] = (offset, [], [])
fetch_from offset ((key, value) ∷ m) =
    let (offset', values, rest) = fetch_from (add_usize offset (length value)) m in
    if key == offset then (offset', value ∷ values, rest) else (offset, [], (key, value) ∷ m)

unfoldable pub fetch : Stream → List ByteSlice × Stream
fetch s =
    let (offset, values, rest) = fetch_from s.offset s.slices in
    (values, record s { offset = offset; slices = rest })

-- What `decode` reads of a TCP layer.
pub record Segment : Type 0 where
  pub seq : ℕ
  pub window : ℕ
  pub flags : ℕ
  pub bytes : ByteSlice

-- The slice of a segment goes to the map at `start`.
unfoldable pub store : Segment → ℕ → Stream → Stream
store seg start s =
    put start seg.bytes (record s { seq = pos seg.seq; len = add_usize s.len (length seg.bytes) })

-- `stream.seq as u32`
unfoldable pub last_seq : Stream → ℕ
last_seq s = to_bits s.seq % u32_limit

-- A segment that carries bytes, or none, while `stream.seq` is `n`.
unfoldable pub follow : Segment → ℕ → Stream → Stream
follow seg n s =
    if ltb 0 (length seg.bytes)
    then if leb (last_seq s) seg.seq
      then store seg (add_usize s.len (seg.seq - last_seq s)) s
      else if ltb (seg.seq + seg.window) n
      then store seg (add_usize s.len (u32_limit - 1 - last_seq s + seg.seq)) s
      else s
    else if (n + 1) % (u32_limit - 1) == seg.seq
    then record s { seq = pos seg.seq }
    else s

unfoldable pub syn : Segment → Bool
syn seg = not (bit_and seg.flags 2 == 0)

-- The part of `decode` between reading the segment and `fetch`. A `seq` below 0 is that of a new
-- stream.
unfoldable pub receive : Segment → Stream → Stream
receive seg s = elim s.seq [
  | negsuc _ ↦ if syn seg then store seg s.len s else s
  | pos n ↦ if syn seg then s else follow seg n s
]

-- A segment, and what of the stream can be handed on after it.
unfoldable pub step : Segment → Stream → List ByteSlice × Stream
step seg s = fetch (receive seg s)
