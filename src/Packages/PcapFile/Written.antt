-- ===== src/Packages/PcapFile/Written.antt =====
-- package/pcap-file/writer/src/lib.rs: the bytes that the writer writes for layers that were read.
use Prim.Native.String.{String}
use genet.Base.{
  ℕ, ◌%◌, ◌^◌, ◌≡◌, ◌<◌, refl, sym, ap, ◌∙◌, Bool, true, false, List, [], ◌∷◌, ◌++◌, length, map,
  append_assoc, append-nil, arith,
}
use genet.Base.Bytes.{to_bytes_le}
use genet.Base.Int.{ℤ, pos, to_bits, of_bits}
use genet.Abi.Result.{Result, ok}
use genet.Abi.Variant.{as_i32, i32_as_u32, try_into_i64, try_into_i32}
use genet.Abi.Attr.{try_get}
use genet.Abi.Layer.{Layer, attr, find_attr, resolve, new, add_attr, bottom}
use genet.Packages.PcapFile.{Io, ◌>>=◌, bind_ok}
use genet.Packages.PcapFile.Reader.{Input, Floats, link_class, make_layer}
use genet.Packages.PcapFile.Writer
use genet.Packages.PcapFile.Writer.{
  Sink, attr_or_zero, header_fields, write_header, write_record, on_file, write_layer, write,
  write_frames,
}
use genet.Packages.PcapFile.Records.{Record, FitsU32, AllFitU32, encode_after, encode_all, layer_of}

i32_as_u32-as_i32 : (n : ℕ) → n < 2 ^ 32 → i32_as_u32 (as_i32 (of_bits n)) ≡ n
unfolding i32_as_u32 as_i32 of_bits to_bits
i32_as_u32-as_i32 n h = ground arith

i32_as_u32-as_i32_pos : (n : ℕ) → n < 2 ^ 32 → i32_as_u32 (as_i32 (of_bits (to_bits (pos n)))) ≡ n
unfolding to_bits
i32_as_u32-as_i32_pos n h =
    let small : n % 2 ^ 64 ≡ n = omega arith in
    ap (λ (k : ℕ). i32_as_u32 (as_i32 (of_bits k))) small ∙ i32_as_u32-as_i32 n h

append_five :
    (o a b c d e : List ℕ)
    → ((((o ++ a) ++ b) ++ c) ++ d) ++ e ≡ o ++ (a ++ (b ++ (c ++ (d ++ (e ++ [])))))
append_five o a b c d e = simp (append_assoc, append-nil)

-- A file with room for all that is written to it.
abbrev pub Accepts : Sink → Type 0
Accepts sink = (out bytes : List ℕ) → sink.write_all bytes out ≡ (ok tt, out ++ bytes)

-- The global header behind the magic number.
abbrev pub header_bytes : ℕ → List ℕ
header_bytes network =
    2 ∷ 0 ∷ 4 ∷ 0 ∷ 0 ∷ 0 ∷ 0 ∷ 0 ∷ 0 ∷ 0 ∷ 0 ∷ 0 ∷ 0 ∷ 0 ∷ 0 ∷ 0 ∷ to_bytes_le 4 network

-- The layers that a reader makes of records, and frames of one layer each.
abbrev pub captured : Input → Floats → (ℕ → String) → ℕ → Record → Layer
captured io floats decimal network = layer_of io floats decimal (link_class decimal network)

abbrev pub stacks : List Layer → List (List Layer)
stacks = map λ layer. layer ∷ []

abbrev pub written : Bool → List ℕ → Writer.Worker
written header file = record { writer = file; header = header }

pub encode_after-append :
    (r : Record) (rest : List ℕ) → encode_after r rest ≡ encode_after r [] ++ rest
encode_after-append r rest = rw (append-nil r.bytes) refl

module _ (io : Input) (floats : Floats) (decimal : ℕ → String) (network : ℕ) (sink : Sink)
    (f64_as_i64 : ℕ → ℤ) (accepts : Accepts sink) where
  abbrev layer : Record → Layer
  layer = captured io floats decimal network

  write_u32_le : (n : ℕ) (out : List ℕ) → sink.write_u32 n out ≡ (ok tt, out ++ to_bytes_le 4 n)
  write_u32_le n out = ap (λ f. f out) (sink.write_u32-write_all n) ∙ accepts out (to_bytes_le 4 n)

  length_of :
      (r : Record)
      → attr_or_zero sink f64_as_i64 (layer r) "link.length" ≡ ok (as_i32 (of_bits r.orig_len))
  unfolding attr_or_zero attr find_attr resolve try_get make_layer new add_attr link_class
      try_into_i32 try_into_i64
  length_of r = refl

  type_of :
      (r : Record)
      → attr_or_zero sink f64_as_i64 (layer r) "link.type"
        ≡ ok (as_i32 (of_bits (to_bits (pos network))))
  unfolding attr_or_zero attr find_attr resolve try_get make_layer new add_attr link_class
      try_into_i32 try_into_i64
  type_of r = refl

  sec_of :
      (r : Record)
      → attr_or_zero sink f64_as_i64 (layer r) "link.timestamp.sec" ≡ ok (as_i32 (of_bits r.sec))
  unfolding attr_or_zero attr find_attr resolve try_get make_layer new add_attr link_class
      try_into_i32 try_into_i64
  sec_of r = refl

  usec_of :
      (r : Record)
      → attr_or_zero sink f64_as_i64 (layer r) "link.timestamp.usec" ≡ ok (as_i32 (of_bits r.usec))
  unfolding attr_or_zero attr find_attr resolve try_get make_layer new add_attr link_class
      try_into_i32 try_into_i64
  usec_of r = refl

  write_record-encode_after :
      (r : Record) (out : List ℕ)
      → FitsU32 r
      → write_record sink f64_as_i64 r.sec r.usec r.orig_len r.bytes out
        ≡ (ok tt, out ++ encode_after r [])
  unfolding write_record
  write_record-encode_after r out h =
      let small : length r.bytes % 2 ^ 32 ≡ length r.bytes = omega (arith, h.3) in
      bind_ok _ _ (write_u32_le r.sec out) (
        bind_ok _ _ (write_u32_le r.usec _) (
          bind_ok _ _ (write_u32_le (length r.bytes % 2 ^ 32) _) (
            bind_ok _ _ (write_u32_le r.orig_len _) (
              accepts _ r.bytes
              ∙ ap (λ bs. (ok tt, bs))
                  (rw small (
                    append_five out (to_bytes_le 4 r.sec) (to_bytes_le 4 r.usec)
                      (to_bytes_le 4 (length r.bytes)) (to_bytes_le 4 r.orig_len) r.bytes))))))

  write_layer-rest :
      (r : Record) (w : Writer.Worker)
      → network < 2 ^ 32
      → FitsU32 r
      → write_layer sink f64_as_i64 (layer r) w
        ≡ (write_header sink f64_as_i64 0 network >>= λ _.
              on_file sink f64_as_i64
                (write_record sink f64_as_i64 r.sec r.usec r.orig_len r.bytes))
            w
  unfolding write_layer make_layer add_attr new
  write_layer-rest r w n h =
      let finish = λ (link sec usec len : ℕ).
        (write_header sink f64_as_i64 0 link >>= λ _.
        on_file sink f64_as_i64 (write_record sink f64_as_i64 sec usec len r.bytes))
          w in
      bind_ok _ _ (ap (λ v. (v, w)) (length_of r)) (
        bind_ok _ _ (ap (λ v. (v, w)) (type_of r)) (
          bind_ok _ _ (ap (λ v. (v, w)) (sec_of r)) (
            bind_ok _ _ (ap (λ v. (v, w)) (usec_of r)) (
              ap
                (λ k.
                  finish k (i32_as_u32 (as_i32 (of_bits r.sec)))
                    (i32_as_u32 (as_i32 (of_bits r.usec)))
                    (i32_as_u32 (as_i32 (of_bits r.orig_len))))
                (i32_as_u32-as_i32_pos network n)
              ∙ ap
                  (λ k.
                    finish network k (i32_as_u32 (as_i32 (of_bits r.usec)))
                      (i32_as_u32 (as_i32 (of_bits r.orig_len))))
                  (i32_as_u32-as_i32 r.sec h.0)
              ∙ ap (λ k. finish network r.sec k (i32_as_u32 (as_i32 (of_bits r.orig_len))))
                  (i32_as_u32-as_i32 r.usec h.1)
              ∙ ap (finish network r.sec r.usec) (i32_as_u32-as_i32 r.orig_len h.2)))))

  abbrev put : Record → Io (List ℕ) (Unit {0})
  put r = write_record sink f64_as_i64 r.sec r.usec r.orig_len r.bytes

  on_file_ok :
      (act : Io (List ℕ) (Unit {0})) (header : Bool) (before after : List ℕ)
      → act before ≡ (ok tt, after)
      → on_file sink f64_as_i64 act (written header before) ≡ (ok tt, written header after)
  on_file_ok act header before after e =
      ap (λ (r : Result (Unit {0}) × List ℕ). (r.0, written header r.1)) e

  write_u16_le : (n : ℕ) (out : List ℕ) → sink.write_u16 n out ≡ (ok tt, out ++ to_bytes_le 2 n)
  write_u16_le n out = ap (λ f. f out) (sink.write_u16-write_all n) ∙ accepts out (to_bytes_le 2 n)

  write_zone : (out : List ℕ) → sink.write_i32 (pos 0) out ≡ (ok tt, out ++ to_bytes_le 4 0)
  unfolding i32_as_u32 to_bits
  write_zone out =
      ap (λ f. f out) (sink.write_i32-write_all (pos 0)) ∙ accepts out (to_bytes_le 4 0)

  header_fields-header_bytes :
      (out : List ℕ)
      → header_fields sink f64_as_i64 0 network out ≡ (ok tt, out ++ header_bytes network)
  unfolding header_fields
  header_fields-header_bytes out = bind_ok _ _ (write_u16_le 2 out) (
      bind_ok _ _ (write_u16_le 4 _) (
        bind_ok _ _ (write_zone _) (
          bind_ok _ _ (write_u32_le 0 _) (
            bind_ok _ _ (write_u32_le 0 _)
              (write_u32_le network _ ∙ ap (λ bs. (ok tt, bs)) (simp (append_assoc)))))))

  write_record-stack :
      (r : Record) (file : List ℕ)
      → network < 2 ^ 32
      → FitsU32 r
      → write sink f64_as_i64 (layer r ∷ []) (written true file)
        ≡ (ok tt, written true (file ++ encode_after r []))
  unfolding write bottom write_header
  write_record-stack r file n h =
      write_layer-rest r (written true file) n h
      ∙ bind_ok _ _ refl (on_file_ok (put r) true file _ (write_record-encode_after r file h))

  pub write_first :
      (r : Record) (file : List ℕ)
      → network < 2 ^ 32
      → FitsU32 r
      → write sink f64_as_i64 (layer r ∷ []) (written false file)
        ≡ (ok tt, written true ((file ++ header_bytes network) ++ encode_after r []))
  unfolding write bottom write_header
  write_first r file n h =
      write_layer-rest r (written false file) n h
      ∙ bind_ok _ _
          (on_file_ok (header_fields sink f64_as_i64 0 network) true file _
            (header_fields-header_bytes file))
          (on_file_ok (put r) true (file ++ header_bytes network) _
            (write_record-encode_after r (file ++ header_bytes network) h))

  pub write_frames-encode_all :
      (rs : List Record) (file : List ℕ)
      → network < 2 ^ 32
      → AllFitU32 rs
      → write_frames sink f64_as_i64 (stacks (map layer rs)) (written true file)
        ≡ (ok tt, written true (file ++ encode_all rs))
  unfolding write_frames
  write_frames-encode_all [] file n h = ap (λ f. (ok tt, written true f)) (sym (append-nil file))
  write_frames-encode_all (r ∷ rs) file n h = bind_ok _ _ (write_record-stack r file n h.0) (
      write_frames-encode_all rs (file ++ encode_after r []) n h.1
      ∙ ap (λ f. (ok tt, written true f))
          (append_assoc file (encode_after r []) (encode_all rs)
            ∙ ap (λ f. file ++ f) (sym (encode_after-append r (encode_all rs)))))
