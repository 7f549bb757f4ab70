-- ===== src/Packages/PcapFile/Copies.antt =====
-- package/pcap-file: the reader on what the writer writes.
use Prim.Native.String.{String}
use genet.Base.{
  ℕ, ◌+◌, ◌*◌, ◌^◌, ◌≡◌, ◌<◌, refl, sym, ap, ◌∙◌, Bool, true, false, List, [], ◌∷◌, ◌++◌, take, map,
  append_assoc, arith,
}
use genet.Base.Bytes.{of_bytes_le}
use genet.Base.Int.{ℤ, pos}
use genet.Abi.Variant.{as_i32}
use genet.Abi.Result.{Result, ok, map_ok}
use genet.Packages.PcapFile.{bind_ok}
use genet.Packages.PcapFile.Reader
use genet.Packages.PcapFile.Reader.{Input, Floats, link_class, flags, read_header, read, block_size}
use genet.Packages.PcapFile.Writer
use genet.Packages.PcapFile.Writer.{Sink, write_frames}
use genet.Packages.PcapFile.Records.{
  Record, AllFitU32, encode_after, encode_all, worker, read_layers-encode_all, read_u32_le,
}
use genet.Packages.PcapFile.Written.{
  Accepts, captured, stacks, written, header_bytes, write_first, encode_after-append,
  write_frames-encode_all,
}

abbrev pub magic : List ℕ
magic = 0x4d ∷ 0x3c ∷ 0xb2 ∷ 0xa1 ∷ []

module _ (io : Input) (floats : Floats) (decimal : ℕ → String) (network : ℕ)
    (small : network < 2 ^ 32) where
  read_u16_le :
      (a b : ℕ) (rest : List ℕ)
      → io.read_u16 true (a ∷ b ∷ rest) ≡ (ok (a + 256 * (b + 256 * 0)), rest)
  read_u16_le a b rest =
      rw (io.read_u16-read_exact, io.read_exact_all 2 (a ∷ b ∷ rest) (omega arith)) refl

  read_i32_le :
      (a b c d : ℕ) (rest : List ℕ)
      → io.read_i32 true (a ∷ b ∷ c ∷ d ∷ rest)
        ≡ (ok (as_i32 (pos (of_bytes_le (a ∷ b ∷ c ∷ d ∷ [])))), rest)
  read_i32_le a b c d rest =
      rw (io.read_i32-read_exact, io.read_exact_all 4 (a ∷ b ∷ c ∷ d ∷ rest) (omega arith)) refl

  read_magic : (rest : List ℕ) → io.read_u32 false (magic ++ rest) ≡ (ok 0x4d3cb2a1, rest)
  read_magic rest =
      rw (io.read_u32-read_exact, io.read_exact_all 4 (magic ++ rest) (omega arith)) refl

  read_header-header_bytes :
      (rest : List ℕ)
      → read_header io floats decimal (magic ++ (header_bytes network ++ rest))
        ≡ (ok (true, true, network), rest)
  unfolding read_header flags
  read_header-header_bytes rest =
      let read = read_u32_le io floats decimal (link_class decimal network) in
      bind_ok _ _ (read_magic (header_bytes network ++ rest)) (
        bind_ok _ _ refl (
          bind_ok _ _ (read_u16_le 2 0 _) (
            bind_ok _ _ (read_u16_le 4 0 _) (
              bind_ok _ _ (read_i32_le 0 0 0 0 _) (
                bind_ok _ _ (read 0 _ (omega arith)) (
                  bind_ok _ _ (read 0 _ (omega arith))
                    (bind_ok _ _ (read network rest small) refl)))))))

opened : (ℕ → String) → Result (Bool × Bool × ℕ) × List ℕ → Result Reader.Worker
opened decimal (header, rest) =
    map_ok
      (λ (le, nsec, network). record {
        le = le;
        nsec = nsec;
        link_class = link_class decimal network;
        reader = rest;
      })
      header

module _ (io : Input) (floats : Floats) (decimal : ℕ → String) (sink : Sink) (f64_as_i64 : ℕ → ℤ)
    (accepts : Accepts sink) where
  written_file :
      (network : ℕ) (r : Record) (rs : List Record)
      → network < 2 ^ 32
      → AllFitU32 (r ∷ rs)
      → write_frames sink f64_as_i64
          (stacks (map (captured io floats decimal network) (r ∷ rs)))
          (written false magic)
        ≡ (ok tt, written true (magic ++ (header_bytes network ++ encode_all (r ∷ rs))))
  unfolding write_frames
  written_file network r rs n h =
      bind_ok _ _ (write_first io floats decimal network sink f64_as_i64 accepts r magic n h.0) (
        write_frames-encode_all io floats decimal network sink f64_as_i64 accepts rs _ n h.1
        ∙ ap (λ f. (ok tt, written true f))
            (append_assoc (magic ++ header_bytes network) (encode_after r []) (encode_all rs)
              ∙ ap (λ f. (magic ++ header_bytes network) ++ f)
                  (sym (encode_after-append r (encode_all rs)))))

  -- The writer of a file that takes all that is written to it: layers that a reader made of records
  -- whose numbers and lengths fit in 32 bits, one layer to a frame, are written without an error,
  -- and a reader of that file reads them again, the first 65535 at first, as they were.
  pub read-write_frames :
      (network : ℕ) (r : Record) (rs : List Record)
      → network < 2 ^ 32
      → AllFitU32 (r ∷ rs)
      → (file : List ℕ) × (w : Writer.Worker) × (v : Reader.Worker) × (Writer.new_worker sink
            f64_as_i64
            (ok [])
          ≡ ok w)
        × (write_frames sink f64_as_i64
              (stacks (map (captured io floats decimal network) (r ∷ rs)))
              w
            ≡ (ok tt, written true file))
        × (Reader.new_worker io floats decimal (ok file) ≡ ok v)
        × ((read io floats decimal v).0
            ≡ ok (map (captured io floats decimal network) (take block_size (r ∷ rs))))
  unfolding Writer.new_worker Reader.new_worker read opened
  read-write_frames network r rs n h =
      let class = link_class decimal network in
      (
        magic ++ (header_bytes network ++ encode_all (r ∷ rs)),
        written false magic,
        worker io floats decimal class (encode_all (r ∷ rs)),
        ap (λ (p : Result (Unit {0}) × List ℕ). map_ok (λ _. written false p.1) p.0)
            (accepts [] magic),
        written_file network r rs n h,
        ap (opened decimal)
            (read_header-header_bytes io floats decimal network n (encode_all (r ∷ rs))),
        ap (λ p. p.0)
            (read_layers-encode_all io floats decimal class block_size [] (r ∷ rs) h (omega arith)),
      )
