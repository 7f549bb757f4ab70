-- ===== src/Packages/PcapFile/Writer.antt =====
-- package/pcap-file/writer/src/lib.rs. Writing to the file is an argument, as is the cast of an
-- `f64`.
use Prim.Native.String.{String}
use genet.Base.{ℕ, ◌%◌, ◌^◌, ◌≡◌, Bool, true, false, List, [], ◌∷◌, length, none, some}
use genet.Base.Bytes.{to_bytes_le}
use genet.Base.Int.{ℤ, pos}
use genet.Abi.Result.{Result, ok, err, map_ok}
use genet.Abi.Variant.{try_into_i32, i32_as_u32}
use genet.Abi.Attr.{try_get}
use genet.Abi.Layer.{Layer, attr, bottom}
use genet.Packages.PcapFile.{Io, ◌>>=◌, return, lift}

-- `write_all` of a `BufWriter` on a file, and the little-endian integers of `WriteBytesExt`.
pub record Sink : Type 0 where
  pub write_all : List ℕ → Io (List ℕ) (Unit {0})
  pub write_u16 : ℕ → Io (List ℕ) (Unit {0})
  pub write_i32 : ℤ → Io (List ℕ) (Unit {0})
  pub write_u32 : ℕ → Io (List ℕ) (Unit {0})
  pub write_u16-write_all : (n : ℕ) → write_u16 n ≡ write_all (to_bytes_le 2 n)
  pub write_i32-write_all : (z : ℤ) → write_i32 z ≡ write_all (to_bytes_le 4 (i32_as_u32 z))
  pub write_u32-write_all : (n : ℕ) → write_u32 n ≡ write_all (to_bytes_le 4 n)

-- `PcapFileWorker`
pub record Worker : Type 0 where
  pub writer : List ℕ
  pub header : Bool

module _ (sink : Sink) (f64_as_i64 : ℕ → ℤ) where
  open sink use {write_all, write_u16, write_i32, write_u32}

  -- `PcapFileWriter::new_worker`, with the file created
  unfoldable pub new_worker : Result (List ℕ) → Result Worker
  new_worker (err e) = err e
  new_worker (ok file) =
      let (r, written) = write_all (0x4d ∷ 0x3c ∷ 0xb2 ∷ 0xa1 ∷ []) file in
      map_ok (λ _. record { writer = written; header = false }) r

  abbrev pub on_file : Io (List ℕ) (Unit {0}) → Io Worker (Unit {0})
  on_file act w = let (r, written) = act w.writer in (r, record w { writer = written })

  unfoldable pub header_fields : ℕ → ℕ → Io (List ℕ) (Unit {0})
  header_fields snaplen network = do
    _ ← write_u16 2
    _ ← write_u16 4
    _ ← write_i32 (pos 0)
    _ ← write_u32 0
    _ ← write_u32 snaplen
    write_u32 network

  unfoldable pub write_header : ℕ → ℕ → Io Worker (Unit {0})
  write_header snaplen network w = elim w.header [
    | true ↦ (ok tt, w)
    | false ↦ on_file (header_fields snaplen network) (record w { header = true })
  ]

  -- An attribute as an `i32`, and 0 where the layer has none of that name.
  unfoldable pub attr_or_zero : Layer → String → Result ℤ
  attr_or_zero layer id = elim (attr layer id) [
    | none ↦ ok (pos 0)
    | some a ↦ elim (try_get a layer.bytes) [ ok v ↦ try_into_i32 f64_as_i64 v | err e ↦ err e ]
  ]

  unfoldable pub write_record : ℕ → ℕ → ℕ → List ℕ → Io (List ℕ) (Unit {0})
  write_record ts_sec ts_usec orig_len bytes = do
    _ ← write_u32 ts_sec
    _ ← write_u32 ts_usec
    _ ← write_u32 (length bytes % 2 ^ 32)
    _ ← write_u32 orig_len
    write_all bytes

  unfoldable pub write_layer : Layer → Io Worker (Unit {0})
  write_layer layer = do
    orig_len ← lift (attr_or_zero layer "link.length")
    link ← lift (attr_or_zero layer "link.type")
    ts_sec ← lift (attr_or_zero layer "link.timestamp.sec")
    ts_usec ← lift (attr_or_zero layer "link.timestamp.usec")
    _ ← write_header 0 (i32_as_u32 link)
    on_file
        (write_record (i32_as_u32 ts_sec) (i32_as_u32 ts_usec) (i32_as_u32 orig_len) layer.bytes)

  -- `Worker::write`
  unfoldable pub write : List Layer → Io Worker (Unit {0})
  write stack = elim (bottom stack) [ some layer ↦ write_layer layer | none ↦ return tt ]

  -- `WorkerOutput::write` of genet-kernel/src/session.rs: the layers of each frame, up to an error.
  unfoldable pub write_frames : List (List Layer) → Io Worker (Unit {0})
  write_frames [] = return tt
  write_frames (layers ∷ rest) = write layers >>= λ _. write_frames rest
