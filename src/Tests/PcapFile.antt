-- ===== src/Tests/PcapFile.antt =====
-- A capture file of two frames, written and read.
use Prim.Native.String.{String}
use genet.Base.{
  ℕ, ◌≡◌, ◌≤◌, ◌<◌, refl, Bool, true, List, [], ◌∷◌, ◌++◌, length, take, drop, map, arith, leb,
  if◌then◌else◌,
}
use genet.Base.Bytes.{to_bytes_le}
use genet.Base.Int.{pos}
use genet.Abi.Result.{ok, err, unexpected_eof, map_ok}
use genet.Abi.Layer.{Layer}
use genet.Abi.Variant.{as_i32, i32_as_u32}
use genet.Packages.PcapFile.{Io}
use genet.Packages.PcapFile.Reader
use genet.Packages.PcapFile.Reader.{Input, Floats, value_of, link_class, read, block_size}
use genet.Packages.PcapFile.Writer
use genet.Packages.PcapFile.Writer.{Sink, write_frames}
use genet.Packages.PcapFile.Records.{Record, encode_all, layer_of, worker}
use genet.Packages.PcapFile.Written.{Accepts, stacks, captured, written}
use genet.Packages.PcapFile.Copies.{read-write_frames}
use genet.Packages.PcapFile.Feeding.{joined, read_worker, sent, read_input-sent}
use genet.Kernel.Store.Input.{read_input}

-- A read that fails takes what is left.
abbrev pub read_exact : ℕ → Io (List ℕ) (List ℕ)
read_exact n bs =
    if leb n (length bs) then (ok (take n bs), drop n bs) else (err unexpected_eof, [])

pub read_exact_all :
    (n : ℕ) (bs : List ℕ) → n ≤ length bs → read_exact n bs ≡ (ok (take n bs), drop n bs)
read_exact_all n bs h = ground arith

pub read_exact_short :
    (n : ℕ) (bs : List ℕ)
    → length bs < n
    → ((read_exact n bs).0 ≡ err unexpected_eof) × (length (read_exact n bs).1 ≤ length bs)
read_exact_short n bs h = ground arith

abbrev pub integer : ℕ → Bool → Io (List ℕ) ℕ
integer n le bs = (map_ok (value_of le) (read_exact n bs).0, (read_exact n bs).1)

abbrev pub input : Input
input = record {
  read_exact = read_exact;
  read_u16 = integer 2;
  read_i32 = λ le bs.
      (map_ok (λ b. as_i32 (pos (value_of le b))) (read_exact 4 bs).0, (read_exact 4 bs).1);
  read_u32 = integer 4;
  read_exact_all = read_exact_all;
  read_exact_short = read_exact_short;
  read_u16-read_exact = λ le bs. refl;
  read_i32-read_exact = λ le bs. refl;
  read_u32-read_exact = λ le bs. refl;
}

abbrev pub write_all : List ℕ → Io (List ℕ) (Unit {0})
write_all bytes out = (ok tt, out ++ bytes)

abbrev pub sink : Sink
sink = record {
  write_all = write_all;
  write_u16 = λ n. write_all (to_bytes_le 2 n);
  write_i32 = λ z. write_all (to_bytes_le 4 (i32_as_u32 z));
  write_u32 = λ n. write_all (to_bytes_le 4 n);
  write_u16-write_all = λ n. refl;
  write_i32-write_all = λ z. refl;
  write_u32-write_all = λ n. refl;
}

pub accepts : Accepts sink
accepts out bytes = refl

abbrev floats : Floats
floats = record { of_u32 = λ n. n; add = λ a b. a; div = λ a b. a; million = 1000000 }

abbrev decimal : ℕ → String
decimal n = "1"

abbrev first : Record
first = record { sec = 1; usec = 2; orig_len = 3; bytes = 7 ∷ 8 ∷ 9 ∷ [] }

abbrev second : Record
second = record { sec = 1; usec = 5; orig_len = 60; bytes = 4 ∷ [] }

read-write_frames_example :
    (file : List ℕ) × (w : Writer.Worker) × (v : Reader.Worker) × (Writer.new_worker sink pos
        (ok [])
      ≡ ok w)
    × (write_frames sink pos
          (stacks (map (captured input floats decimal 1) (first ∷ second ∷ [])))
          w
        ≡ (ok tt, written true file))
    × (Reader.new_worker input floats decimal (ok file) ≡ ok v)
    × ((read input floats decimal v).0
        ≡ ok (map (captured input floats decimal 1) (take block_size (first ∷ second ∷ []))))
read-write_frames_example =
    read-write_frames input floats decimal sink pos accepts 1 first (second ∷ []) (omega arith) (
      (omega arith, omega arith, omega arith, omega arith),
      ((omega arith, omega arith, omega arith, omega arith), tt),
    )

read_input-sent_example :
    let class = link_class decimal 1 in
    (bs : List (List Layer)) × (joined bs
      ≡ map (layer_of input floats decimal class) (first ∷ second ∷ []))
    × (read_input {F = ℕ}
          (read_worker input floats decimal class)
          3
          5
          (worker input floats decimal class (encode_all (first ∷ second ∷ [])))
        ≡ sent input floats decimal class 3 bs)
read_input-sent_example =
    read_input-sent input floats decimal (link_class decimal 1) 3 5 (first ∷ second ∷ [])
      (
        (omega arith, omega arith, omega arith, omega arith),
        ((omega arith, omega arith, omega arith, omega arith), tt),
      )
      (omega arith)
