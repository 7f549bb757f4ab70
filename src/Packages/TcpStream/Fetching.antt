-- ===== src/Packages/TcpStream/Fetching.antt =====
-- `Stream::fetch` of package/tcp/tcp-stream/src/lib.rs against the run of slices that follow one
-- another.
use native.Mathlib.Nat.{mod-eq_of_lt}
use genet.Base.{ℕ, ◌+◌, ◌≢◌, ==_refl, ==_ne, ◌<◌, ◌≡◌, refl, ap, List, [], ◌∷◌, ◌++◌, length, arith}
use native.Mathlib.Decide.{ℕ_discrete}
use genet.Abi.Slice.{ByteSlice}
use genet.Packages.TcpStream.{Stream, usize_limit, add_usize, fetch_from, fetch}

-- The number of bytes of some slices.
abbrev pub total : List ByteSlice → ℕ
total [] = 0
total (v ∷ vs) = length v + total vs

-- Slices laid one behind the other, from `offset` on.
abbrev pub place : ℕ → List ByteSlice → List (ℕ × ByteSlice)
place offset [] = []
place offset (v ∷ vs) = (offset, v) ∷ place (offset + length v) vs

abbrev pub stored : List (ℕ × ByteSlice) → ℕ
stored [] = 0
stored ((k, v) ∷ m) = length v + stored m

pub add_usize-small : (a b : ℕ) → a + b < usize_limit → add_usize a b ≡ a + b
unfolding add_usize
add_usize-small a b h = mod-eq_of_lt h

-- The first slice does not start at `offset`.
abbrev Waits : ℕ → List (ℕ × ByteSlice) → Type 0
Waits offset [] = Unit
Waits offset ((k, v) ∷ m) = k ≢ offset

-- A run that is fetched, what is left behind it, and the offset that comes next.
pub record IsRun (offset : ℕ) (m : List (ℕ × ByteSlice))
    (r : ℕ × List ByteSlice × List (ℕ × ByteSlice)) : Type 0 where
  split : m ≡ place offset r.1 ++ r.2
  pub advance : r.0 ≡ offset + total r.1
  maximal : Waits r.0 r.2

IsRun-cons :
    (offset : ℕ) (v : ByteSlice) (m : List (ℕ × ByteSlice))
    (r : ℕ × List ByteSlice × List (ℕ × ByteSlice))
    → IsRun (offset + length v) m r
    → IsRun offset ((offset, v) ∷ m) (r.0, v ∷ r.1, r.2)
IsRun-cons offset v m r h = record {
  split = ap (◌∷◌ (offset, v)) h.split;
  advance = omega (arith, h.advance);
  maximal = h.maximal;
}

fetch_from-IsRun :
    (offset : ℕ) (m : List (ℕ × ByteSlice))
    → offset + stored m < usize_limit
    → IsRun offset m (fetch_from offset m)
unfolding fetch_from
fetch_from-IsRun offset [] h = record { split = refl; advance = omega arith; maximal = tt }
fetch_from-IsRun offset ((k, v) ∷ m) h = elim (ℕ_discrete k offset) [
  | yes e ↦
      let small = add_usize-small offset (length v) (omega arith) in
      rw (e, ==_refl, small)
        (IsRun-cons offset v m _ (fetch_from-IsRun (offset + length v) m (omega arith)))
  | no ne ↦ rw (==_ne k offset ne) (record { split = refl; advance = omega arith; maximal = ne })
]

-- `fetch` takes the longest run of slices that lie one behind the other from the stream's offset
-- on: they are the first of the map, the offset is then the one behind them, and the first slice
-- that is left, if any, does not start there. The offset and the bytes in the map fit a `usize`.
pub fetch-IsRun :
    (s : Stream)
    → s.offset + stored s.slices < usize_limit
    → IsRun s.offset s.slices ((fetch s).1.offset, (fetch s).0, (fetch s).1.slices)
unfolding fetch
fetch-IsRun s h = fetch_from-IsRun s.offset s.slices h
