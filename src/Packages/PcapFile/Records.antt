-- ===== src/Packages/PcapFile/Records.antt =====
-- package/pcap-file/reader/src/lib.rs on a little-endian file of records: `read_one` and the loop of
-- `read`.
use Prim.Native.String.{String}
use genet.Base.{
  ℕ, zero, suc, ◌+◌, ◌^◌, ◌≡◌, ◌≤◌, ◌<◌, refl, ap, ◌∙◌, true, List, [], ◌∷◌, ◌++◌, length, take,
  drop, map, take-append_left, take-all, drop-append, length-append, append_assoc, append-nil,
  arith,
}
use genet.Base.Bytes.{of_bytes_le, to_bytes_le}
use genet.Abi.Result.{Result, ok, err, unexpected_eof, map_ok}
use genet.Abi.Layer.{Layer, LayerClass}
use genet.Packages.PcapFile.{bind_ok, bind_err}
use genet.Packages.PcapFile.Reader
use genet.Packages.PcapFile.Reader.{
  Input, Floats, link_class, make_layer, read_record, read_one, read_layers, flags, read_header,
}

-- What a record of the file holds.
pub record Record : Type 0 where
  pub sec : ℕ
  pub usec : ℕ
  pub orig_len : ℕ
  pub bytes : List ℕ

abbrev pub FitsU32 : Record → Type 0
FitsU32 r = (r.sec < 2 ^ 32) × (r.usec < 2 ^ 32) × (r.orig_len < 2 ^ 32) × (length r.bytes < 2 ^ 32)

abbrev pub AllFitU32 : List Record → Type 0
AllFitU32 [] = Unit {0}
AllFitU32 (r ∷ rs) = FitsU32 r × AllFitU32 rs

abbrev pub encode_after : Record → List ℕ → List ℕ
encode_after r rest =
    to_bytes_le 4 r.sec
    ++ (to_bytes_le 4 r.usec
        ++ (to_bytes_le 4 (length r.bytes) ++ (to_bytes_le 4 r.orig_len ++ (r.bytes ++ rest))))

abbrev pub encode_all : List Record → List ℕ
encode_all [] = []
encode_all (r ∷ rs) = encode_after r (encode_all rs)

of_bytes_le-to_bytes_le : (n : ℕ) → n < 2 ^ 32 → of_bytes_le (to_bytes_le 4 n) ≡ n
of_bytes_le-to_bytes_le n h = omega arith

length-zero : (bs : List ℕ) → length bs ≤ 0 → bs ≡ []
length-zero [] h = refl
length-zero (b ∷ bs) h = absurd (omega arith)

module _ (io : Input) (floats : Floats) (decimal : ℕ → String) (class : LayerClass) where
  open io use {read_exact, read_u32, read_exact_all, read_exact_short, read_u32-read_exact}

  abbrev pub layer_of : Record → Layer
  layer_of r = make_layer io floats decimal class r.sec r.usec r.orig_len r.bytes

  pub read_u32_le :
      (n : ℕ) (rest : List ℕ) → n < 2 ^ 32 → read_u32 true (to_bytes_le 4 n ++ rest) ≡ (ok n, rest)
  read_u32_le n rest h =
      rw (read_u32-read_exact, read_exact_all 4 (to_bytes_le 4 n ++ rest) (omega arith))
        (ap (λ (k : ℕ). (ok k, rest)) (of_bytes_le-to_bytes_le n h))

  pub read_exact_append : (bs rest : List ℕ) → read_exact (length bs) (bs ++ rest) ≡ (ok bs, rest)
  read_exact_append bs rest =
      let enough : length bs ≤ length (bs ++ rest) = omega (arith, length-append bs rest) in
      let first : take (length bs) (bs ++ rest) ≡ bs =
        take-append_left (length bs) bs rest (omega arith)
        ∙ take-all (length bs) bs (omega arith) in
      rw (read_exact_all (length bs) (bs ++ rest) enough, first, drop-append bs rest) refl

  -- Reading a record that is there takes it off the file.
  read_record-encode_after :
      (r : Record) (rest : List ℕ)
      → FitsU32 r
      → read_record io floats decimal true true class (encode_after r rest)
        ≡ (ok (layer_of r), rest)
  unfolding read_record
  read_record-encode_after r rest h = bind_ok _ _ (read_u32_le r.sec _ h.0) (
      bind_ok _ _ (read_u32_le r.usec _ h.1) (
        bind_ok _ _ (read_u32_le (length r.bytes) _ h.3) (
          bind_ok _ _ (read_u32_le r.orig_len _ h.2)
            (bind_ok _ _ (read_exact_append r.bytes rest) refl))))

  abbrev pub worker : List ℕ → Reader.Worker
  worker file = record { le = true; nsec = true; link_class = class; reader = file }

  read_one-encode_after :
      (r : Record) (rest : List ℕ)
      → FitsU32 r
      → read_one io floats decimal (worker (encode_after r rest)) ≡ (ok (layer_of r), worker rest)
  unfolding read_one
  read_one-encode_after r rest h =
      ap (λ (p : Result Layer × List ℕ). (p.0, worker p.1)) (read_record-encode_after r rest h)

  pub read_u32_end : read_u32 true [] ≡ (err unexpected_eof, [])
  read_u32_end =
      let (failed, left) = read_exact_short 4 [] (omega arith) in
      let nothing : (read_exact 4 []).1 ≡ [] =
        length-zero (read_exact 4 []).1 (omega (arith, left)) in
      read_u32-read_exact true []
      ∙ ap (λ r. (map_ok of_bytes_le r, (read_exact 4 []).1)) failed
      ∙ ap (λ bs. (err unexpected_eof, bs)) nothing

  pub read_one_end : read_one io floats decimal (worker []) ≡ (err unexpected_eof, worker [])
  unfolding read_one read_record
  read_one_end = ap (λ (p : Result Layer × List ℕ). (p.0, worker p.1)) (bind_err _ _ read_u32_end)

  -- One turn of the loop.
  unfoldable pub turn :
      ℕ → List Layer → Result Layer × Reader.Worker → Result (List Layer) × Reader.Worker
  turn n layers (ok layer, w) = read_layers io floats decimal n (layers ++ layer ∷ []) w
  turn n [] (err e, w) = (err e, w)
  turn n (first ∷ more) (err e, w) = read_layers io floats decimal n (first ∷ more) w

  pub read_layers-turn :
      (n : ℕ) (layers : List Layer) (w : Reader.Worker)
      → read_layers io floats decimal (suc n) layers w
        ≡ turn n layers (read_one io floats decimal w)
  unfolding read_layers turn
  read_layers-turn n layers w = ground arith

  -- At the end of the file the loop turns without a change where there are layers.
  read_layers_end :
      (n : ℕ) (first : Layer) (more : List Layer)
      → read_layers io floats decimal n (first ∷ more) (worker []) ≡ (ok (first ∷ more), worker [])
  unfolding read_layers turn
  read_layers_end zero first more = refl
  read_layers_end (suc n) first more =
      read_layers-turn n (first ∷ more) (worker [])
      ∙ ap (turn n (first ∷ more)) read_one_end
      ∙ read_layers_end n first more

  pub read_layers-encode_all :
      (n : ℕ) (layers : List Layer) (rs : List Record)
      → AllFitU32 rs
      → 0 < length layers + length rs
      → read_layers io floats decimal n layers (worker (encode_all rs))
        ≡ (ok (layers ++ map layer_of (take n rs)), worker (encode_all (drop n rs)))
  unfolding read_layers turn
  read_layers-encode_all zero layers rs h k = rw (append-nil layers) refl
  read_layers-encode_all (suc n) [] [] h k = absurd (omega arith)
  read_layers-encode_all (suc n) (first ∷ more) [] h k =
      rw (append-nil more) (read_layers_end (suc n) first more)
  read_layers-encode_all (suc n) layers (r ∷ rs) h k =
      let more : 0 < length (layers ++ layer_of r ∷ []) + length rs =
        omega (arith, length-append layers (layer_of r ∷ [])) in
      read_layers-turn n layers (worker (encode_after r (encode_all rs)))
      ∙ ap (turn n layers) (read_one-encode_after r (encode_all rs) h.0)
      ∙ read_layers-encode_all n (layers ++ layer_of r ∷ []) rs h.1 more
      ∙ ap (λ ls. (ok ls, worker (encode_all (drop n rs))))
          (append_assoc layers (layer_of r ∷ []) (map layer_of (take n rs)))
