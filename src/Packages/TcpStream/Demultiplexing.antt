-- ===== src/Packages/TcpStream/Demultiplexing.antt =====
-- The segments of all streams of package/tcp/tcp-stream/src/lib.rs, in the order in which they come.
use genet.Base.{
  ℕ, ◌+◌, ◌<◌, ◌≡◌, refl, sym, ap, ◌∙◌, subst, List, [], ◌∷◌, ◌++◌, true, false, none, some, length,
  inl, inr, Bool-cases, if◌then◌else◌,
}
use genet.Abi.Slice.{ByteSlice}
use genet.Packages.TcpStream.{Stream, Segment, new, step, u32_limit, usize_limit}
use genet.Packages.TcpStream.Worker.{StreamId, Worker, same_id, find_stream, entry, deliver}
use genet.Packages.TcpStream.Entries.{
  same_id_eq, entry-new, entry-found, find_stream-entry_self, find_stream-entry_other,
  find_stream-assign_self, find_stream-assign_other,
}
use genet.Packages.TcpStream.Stalling.{run, run_phase, fresh, AreSegments, bytes_in}
use genet.Packages.TcpStream.Stalling.Machine.{run-run_phase}

-- The segments with the keys of their streams.
abbrev pub Calls : Type 0
Calls = List (StreamId × Segment)

-- What the calls for one key hand on.
abbrev pub handed_on : StreamId → Calls → Worker → List ByteSlice
handed_on key [] w = []
handed_on key ((k, seg) ∷ calls) w =
    let (values, w') = deliver k seg w in
    let rest = handed_on key calls w' in if same_id k key then values ++ rest else rest

abbrev pub segments_of : StreamId → Calls → List Segment
segments_of key [] = []
segments_of key ((k, seg) ∷ calls) =
    let rest = segments_of key calls in if same_id k key then seg ∷ rest else rest

deliver_other :
    (k key : StreamId) (seg : Segment) (w : Worker)
    → same_id k key ≡ false
    → find_stream key (deliver k seg w).1 ≡ find_stream key w
unfolding deliver
deliver_other k key seg w ne =
    find_stream-assign_other k key _ (entry k w).1 ne ∙ find_stream-entry_other k key w ne

-- The stream that is entered takes the segment.
deliver_self :
    (key : StreamId) (seg : Segment) (w : Worker)
    → find_stream key (deliver key seg w).1 ≡ some (step seg (entry key w).0).1
unfolding deliver
deliver_self key seg w =
    find_stream-assign_self key _ (entry key w).0 (entry key w).1 (find_stream-entry_self key w)

-- What a call for `key` hands on, and the stream behind it, where the call is for `s`.
record Taken (key : StreamId) (seg : Segment) (s : Stream) (r : List ByteSlice × Worker)
    : Type 0 where
  values : r.0 ≡ (step seg s).0
  stream : find_stream key r.1 ≡ some (step seg s).1

deliver-Taken :
    (k key : StreamId) (seg : Segment) (w : Worker) (s : Stream)
    → same_id k key ≡ true
    → (entry key w).0 ≡ s
    → Taken key seg s (deliver k seg w)
unfolding deliver
deliver-Taken k key seg w s y e =
    subst (λ j. Taken key seg s (deliver j seg w)) (sym (same_id_eq k key y))
      record {
        values = ap (λ t. (step seg t).0) e;
        stream = deliver_self key seg w ∙ ap (λ t. some (step seg t).1) e;
      }

handed_on-run :
    (key : StreamId) (calls : Calls) (w : Worker) (s : Stream)
    → find_stream key w ≡ some s
    → handed_on key calls w ≡ run (segments_of key calls) s
handed_on-run key [] w s e = refl
handed_on-run key ((k, seg) ∷ calls) w s e = elim (Bool-cases (same_id k key)) [
  | inl y ↦
      let taken = deliver-Taken k key seg w s y (ap (λ r. r.0) (entry-found key w s e)) in
      rw (y, taken.values)
        (ap (λ (v : List ByteSlice). (step seg s).0 ++ v)
          (handed_on-run key calls (deliver k seg w).1 (step seg s).1 taken.stream))
  | inr y ↦ rw y (handed_on-run key calls (deliver k seg w).1 s (deliver_other k key seg w y ∙ e))
]

handed_on_absent :
    (key : StreamId) (calls : Calls) (w : Worker)
    → find_stream key w ≡ none
    → (n : ℕ) × (handed_on key calls w ≡ run (segments_of key calls) (new n))
handed_on_absent key [] w e = (0, refl)
handed_on_absent key ((k, seg) ∷ calls) w e = elim (Bool-cases (same_id k key)) [
  | inl y ↦
      let s = new (length w) in
      let taken = deliver-Taken k key seg w s y (ap (λ r. r.0) (entry-new key w e)) in
      (
        length w,
        rw (y, taken.values)
            (ap (λ (v : List ByteSlice). (step seg s).0 ++ v)
              (handed_on-run key calls (deliver k seg w).1 (step seg s).1 taken.stream)),
      )
  | inr y ↦
      let (n, rest) =
        handed_on_absent key calls (deliver k seg w).1 (deliver_other k key seg w y ∙ e) in
      (n, rw y rest)
]

-- Whatever segments of other streams come between them, the segments of one stream hand on what
-- the machine without a buffer does for them alone. The worker starts without streams, their
-- sequence numbers are those of a `u32`, and their bytes stay 2 ^ 32 below the range of a `usize`.
pub handed_on-run_phase :
    (key : StreamId) (calls : Calls)
    → AreSegments (segments_of key calls)
    → bytes_in (segments_of key calls) + u32_limit < usize_limit
    → handed_on key calls [] ≡ run_phase (segments_of key calls) fresh
unfolding find_stream
handed_on-run_phase key calls a h =
    let (n, e) = handed_on_absent key calls [] refl in
    e ∙ run-run_phase n (segments_of key calls) a h
