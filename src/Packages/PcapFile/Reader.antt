-- ===== src/Packages/PcapFile/Reader.antt =====
-- package/pcap-file/reader/src/lib.rs. Reading from the file, the arithmetic of `f64` and the
-- printing of a number are arguments; parsing the argument and opening the file give the file's
-- bytes or an error.
use Prim.Native.String.{String, ◌++◌ as append}
use genet.Base.{
  ℕ, zero, suc, ◌*◌, ◌%◌, ◌^◌, ◌≡◌, ◌≤◌, ◌<◌, Bool, true, false, List, [], ◌∷◌, ◌++◌, length, take,
  drop, if◌then◌else◌, ◌==◌,
}
use genet.Base.Bytes.{of_bytes_be, of_bytes_le}
use genet.Base.Int.{ℤ, pos}
use genet.Abi.Result.{Result, ok, err, unexpected_eof, wrong_magic, map_ok}
use genet.Abi.Variant.{int64, uint64, float64, as_i32}
use genet.Abi.Layer.{Layer, LayerClass, new, add_attr}
use genet.Packages.{attr_with}
use genet.Packages.PcapFile.{
  Io, ◌>>=◌, return, lift, type_class, length_class, ts_class, ts_sec_class, ts_usec_class,
}

abbrev pub value_of : Bool → List ℕ → ℕ
value_of true bs = of_bytes_le bs
value_of false bs = of_bytes_be bs

-- `Read::read_exact` of a `BufReader` on a file, and the integers of `ReadBytesExt`, in
-- little-endian order or not.
pub record Input : Type 0 where
  pub read_exact : ℕ → Io (List ℕ) (List ℕ)
  pub read_u16 : Bool → Io (List ℕ) ℕ
  pub read_i32 : Bool → Io (List ℕ) ℤ
  pub read_u32 : Bool → Io (List ℕ) ℕ
  pub read_exact_all :
      (n : ℕ) (bs : List ℕ) → n ≤ length bs → read_exact n bs ≡ (ok (take n bs), drop n bs)
  pub read_exact_short :
      (n : ℕ) (bs : List ℕ)
      → length bs < n
      → ((read_exact n bs).0 ≡ err unexpected_eof) × (length (read_exact n bs).1 ≤ length bs)
  pub read_u16-read_exact :
      (le : Bool) (bs : List ℕ)
      → read_u16 le bs ≡ (map_ok (value_of le) (read_exact 2 bs).0, (read_exact 2 bs).1)
  pub read_i32-read_exact :
      (le : Bool) (bs : List ℕ)
      → read_i32 le bs
        ≡ (map_ok (λ b. as_i32 (pos (value_of le b))) (read_exact 4 bs).0, (read_exact 4 bs).1)
  pub read_u32-read_exact :
      (le : Bool) (bs : List ℕ)
      → read_u32 le bs ≡ (map_ok (value_of le) (read_exact 4 bs).0, (read_exact 4 bs).1)

-- `f64::from(u32)`, the operations on `f64` and the constant 1_000_000
pub record Floats : Type 0 where
  pub of_u32 : ℕ → ℕ
  pub add : ℕ → ℕ → ℕ
  pub div : ℕ → ℕ → ℕ
  pub million : ℕ

-- `PcapFileWorker`
pub record Worker : Type 0 where
  pub le : Bool
  pub nsec : Bool
  pub link_class : LayerClass
  pub reader : List ℕ

abbrev pub block_size : ℕ
block_size = 65535

-- The magic numbers: whether the file is little-endian, and whether it counts nanoseconds.
unfoldable pub flags : ℕ → Result (Bool × Bool)
flags magic_number =
    if magic_number == 0xd4c3b2a1
    then ok (true, false)
    else if magic_number == 0xa1b2c3d4
    then ok (false, false)
    else if magic_number == 0x4d3cb2a1
    then ok (true, true)
    else if magic_number == 0xa1b23c4d
    then ok (false, true)
    else err wrong_magic

unfoldable pub link_class : (ℕ → String) → ℕ → LayerClass
link_class decimal network = record {
  id = append "[link-" (append (decimal network) "]");
  aliases = [];
  headers = attr_with type_class (int64 (pos network)) ∷ [];
}

module _ (io : Input) (floats : Floats) (decimal : ℕ → String) where
  open io use {read_exact, read_u16, read_i32, read_u32}

  -- `PcapFileReader::new_worker`
  unfoldable pub read_header : Io (List ℕ) (Bool × Bool × ℕ)
  read_header = do
    magic_number ← read_u32 false
    (le, nsec) ← lift (flags magic_number)
    _ver_major ← read_u16 le
    _ver_minor ← read_u16 le
    _thiszone ← read_i32 le
    _sigfigs ← read_u32 le
    _snaplen ← read_u32 le
    network ← read_u32 le
    return (le, nsec, network)

  unfoldable pub new_worker : Result (List ℕ) → Result Worker
  new_worker (err e) = err e
  new_worker (ok file) =
      let (header, rest) = read_header file in
      map_ok
        (λ (le, nsec, network). record {
          le = le;
          nsec = nsec;
          link_class = link_class decimal network;
          reader = rest;
        })
        header

  unfoldable pub make_layer : LayerClass → ℕ → ℕ → ℕ → List ℕ → Layer
  make_layer class ts_sec ts_usec orig_len bytes =
      let timestamp : ℕ =
        floats.add (floats.of_u32 ts_sec) (floats.div (floats.of_u32 ts_usec) floats.million) in
      let layer1 = add_attr (new class bytes) (attr_with length_class (uint64 orig_len)) in
      let layer2 = add_attr layer1 (attr_with ts_class (float64 timestamp)) in
      let layer3 = add_attr layer2 (attr_with ts_sec_class (uint64 ts_sec)) in
      add_attr layer3 (attr_with ts_usec_class (uint64 ts_usec))

  -- `PcapFileWorker::read_one`
  unfoldable pub read_record : Bool → Bool → LayerClass → Io (List ℕ) Layer
  read_record le nsec class = do
    ts_sec ← read_u32 le
    ts_usec ← read_u32 le
    inc_len ← read_u32 le
    orig_len ← read_u32 le
    bytes ← read_exact inc_len
    let usec : ℕ = if nsec then ts_usec else ts_usec * 1000 % 2 ^ 32
    return (make_layer class ts_sec usec orig_len bytes)

  unfoldable pub read_one : Io Worker Layer
  read_one w =
      let (r, rest) = read_record w.le w.nsec w.link_class w.reader in
      (r, record w { reader = rest })

  -- The loop of `read`.
  unfoldable pub read_layers : ℕ → List Layer → Io Worker (List Layer)
  read_layers zero layers w = (ok layers, w)
  read_layers (suc n) layers w =
      let (r, w') = read_one w in
      elim r [
        | ok layer ↦ read_layers n (layers ++ layer ∷ []) w'
        | err e ↦ elim layers [ [] ↦ (err e, w') | first ∷ more ↦ read_layers n (first ∷ more) w' ]
      ]

  -- `Worker::read`
  unfoldable pub read : Io Worker (List Layer)
  read = read_layers block_size []
