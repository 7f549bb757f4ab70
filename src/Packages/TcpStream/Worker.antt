-- ===== src/Packages/TcpStream/Worker.antt =====
-- package/tcp/tcp-stream/src/lib.rs: `TcpStreamWorker`, its map of streams, and `decode`. `none` is
-- a panic of `unwrap`.
use text.Mathlib.Text.{◌==◌ as str_eq}
use genet.Base.{
  ℕ, List, [], ◌∷◌, ◌++◌, Bool, true, false, not, ◌&&◌, Option, none, some, length, if◌then◌else◌,
  ◌==◌,
}
use genet.Abi.Result.{Result, ok, err, ◌>>=◌ as and_then}
use genet.Abi.Slice.{ByteSlice}
use genet.Abi.Variant.{Variant, try_into_slice, try_into_u32, try_into_u16, try_into_u8}
use genet.Abi.Attr.{Attr, try_get}
use genet.Abi.Layer.{Layer, Parent, add_attr, add_payload, attr, stack_attr, find_payload}
use genet.Sdk.Cast.{ByteOrder, uint8}
use genet.Packages.{Status, done, skip, attr_class, attr_at, number, payload}
use genet.Packages.TcpStream.{Stream, Segment, new, step}

-- The key of a stream: two addresses and two ports.
pub record StreamId : Type 0 where
  pub parent_src : ByteSlice
  pub parent_dst : ByteSlice
  pub src : ℕ
  pub dst : ℕ

abbrev pub same_bytes : ByteSlice → ByteSlice → Bool
same_bytes [] [] = true
same_bytes [] (y ∷ ys) = false
same_bytes (x ∷ xs) [] = false
same_bytes (x ∷ xs) (y ∷ ys) = (x == y) && same_bytes xs ys

unfoldable pub same_id : StreamId → StreamId → Bool
same_id a b =
    same_bytes a.parent_src b.parent_src
    && (same_bytes a.parent_dst b.parent_dst && ((a.src == b.src) && (a.dst == b.dst)))

-- `TcpStreamWorker`
abbrev pub Worker : Type 0
Worker = List (StreamId × Stream)

unfoldable pub find_stream : StreamId → Worker → Option Stream
find_stream key [] = none
find_stream key ((k, s) ∷ w) = if same_id k key then some s else find_stream key w

unfoldable pub assign : StreamId → Stream → Worker → Worker
assign key t [] = []
assign key t ((k, s) ∷ w) = if same_id k key then (k, t) ∷ w else (k, s) ∷ assign key t w

-- `HashMap::entry(..).or_insert_with(..)`: the stream, and the map that holds it.
unfoldable pub entry : StreamId → Worker → Stream × Worker
entry key w = elim (find_stream key w) [
  | some s ↦ (s, w)
  | none ↦ let s = new (length w) in (s, w ++ (key, s) ∷ [])
]

-- The stream that the segment belongs to takes it, and what it hands on.
unfoldable pub deliver : StreamId → Segment → Worker → List ByteSlice × Worker
deliver key seg w =
    let (stream, entered) = entry key w in
    let (values, stream') = step seg stream in (values, assign key stream' entered)

-- A value, an error of `?`, or a panic.
abbrev pub Outcome : Type 0 → Type 0
Outcome A = Option (Result A)

infixl 5 ◌>>=◌
unfoldable pub ◌>>=◌ : {A B : Type 0} → Outcome A → (A → Outcome B) → Outcome B
none >>= next = none
some (err e) >>= next = some (err e)
some (ok a) >>= next = next a

-- `attr.unwrap().try_get(parent)?.try_into()?`
unfoldable pub value_of : {A : Type 0} → Option Attr → Parent → (Variant → Result A) → Outcome A
value_of none parent convert = none
value_of (some a) parent convert = some (and_then (try_get a parent.layer.bytes) convert)

module _ (f64_as_u64 : ℕ → ℕ) where
  unfoldable pub stream_id : List Layer → Parent → Outcome StreamId
  stream_id stack parent = do
    parent_src ← value_of (stack_attr stack "_.src") parent try_into_slice
    parent_dst ← value_of (stack_attr stack "_.dst") parent try_into_slice
    src ← value_of (attr parent.layer "tcp.src") parent (try_into_u32 f64_as_u64)
    dst ← value_of (attr parent.layer "tcp.dst") parent (try_into_u32 f64_as_u64)
    some (ok record { parent_src = parent_src; parent_dst = parent_dst; src = src; dst = dst })

  unfoldable pub segment : ByteSlice → Parent → Outcome Segment
  segment bytes parent = do
    seq ← value_of (attr parent.layer "tcp.seq") parent (try_into_u32 f64_as_u64)
    window ← value_of (attr parent.layer "tcp.window") parent (try_into_u16 f64_as_u64)
    flags ← value_of (attr parent.layer "tcp.flags") parent (try_into_u8 f64_as_u64)
    some (ok record { seq = seq; window = window; flags = flags; bytes = bytes })

  module _ (io : ByteOrder) where
    -- `STREAM_ATTR`
    abbrev pub stream_attr : Attr
    stream_attr = attr_at (attr_class "tcp.stream" "@novalue" (number (uint8 io))) 0 0

    unfoldable pub add_payloads : List ByteSlice → Layer → Layer
    add_payloads [] layer = layer
    add_payloads (v ∷ vs) layer = add_payloads vs (add_payload layer (payload v "@stream:tcp"))

    -- The stream is entered before the segment is read, so it stays when that fails.
    unfoldable pub decode_segment :
        StreamId → Outcome Segment → Parent → Worker → Option (Worker × Parent × Result Status)
    decode_segment key none parent w = none
    decode_segment key (some (err e)) parent w = some ((entry key w).1, parent, err e)
    decode_segment key (some (ok seg)) parent w =
        let (values, w') = deliver key seg w in
        some (
          w',
          record parent { layer = add_attr (add_payloads values parent.layer) stream_attr },
          ok done,
        )

    unfoldable pub decode_payload :
        ByteSlice → Outcome StreamId → Parent → Worker → Option (Worker × Parent × Result Status)
    decode_payload bytes none parent w = none
    decode_payload bytes (some (err e)) parent w = some (w, parent, err e)
    decode_payload bytes (some (ok key)) parent w =
        decode_segment key (segment bytes parent) parent w

    -- `TcpStreamWorker::decode`
    unfoldable pub decode : List Layer → Parent → Worker → Option (Worker × Parent × Result Status)
    decode stack parent w =
        if not (str_eq parent.layer.class.id "tcp")
        then some (w, parent, ok skip)
        else elim (find_payload "@data:tcp" parent) [
          | none ↦ none
          | some p ↦ decode_payload p.bytes (stream_id stack parent) parent w
        ]
