-- ===== src/Packages/PcapFile/Feeding.antt =====
-- package/pcap-file/reader/src/lib.rs as an input of the store: `WorkerInput::read` of
-- genet-kernel/src/session.rs under the thread of `Store::set_input`.
use Prim.Native.String.{String}
use genet.Base.{
  ℕ, zero, suc, ◌≡◌, ◌<◌, refl, sym, ap, ◌∙◌, List, [], ◌∷◌, ◌++◌, some, length, length-drop, take,
  drop, map, map-append, take-append-drop, arith,
}
use genet.Abi.Result.{Result, Error, unexpected_eof}
use genet.Abi.Layer.{Layer, LayerClass}
use genet.Kernel.Store.{InputResult, ok, err}
use genet.Kernel.Store.EventLoop.{Command, push_frames}
use genet.Kernel.Store.Input.{read_input}
use genet.Packages.PcapFile.Reader.{Worker, Input, Floats, read, block_size}
use genet.Packages.PcapFile.Records.{
  Record, AllFitU32, encode_all, layer_of, worker, turn, read_layers-turn, read_one_end,
  read_layers-encode_all,
}

abbrev pub joined : List (List Layer) → List Layer
joined [] = []
joined (b ∷ bs) = b ++ joined bs

-- `genet_abi::result::Result` of `io::Result`
abbrev pub input_result : Result (List Layer) → InputResult Layer Error
input_result (Result.ok layers) = ok layers
input_result (Result.err e) = err e

AllFitU32-drop : (n : ℕ) (rs : List Record) → AllFitU32 rs → AllFitU32 (drop n rs)
AllFitU32-drop zero rs h = h
AllFitU32-drop (suc n) [] h = h
AllFitU32-drop (suc n) (r ∷ rs) h = AllFitU32-drop n rs h.1

module _ (io : Input) (floats : Floats) (decimal : ℕ → String) (class : LayerClass) where
  -- `WorkerInput::read`
  unfoldable pub read_worker : Worker → InputResult Layer Error × Worker
  read_worker w = let (r, w') = read io floats decimal w in (input_result r, w')

  abbrev pub capture : Record → Layer
  capture = layer_of io floats decimal class

  abbrev file : List Record → Worker
  file rs = worker io floats decimal class (encode_all rs)

  read_worker_end : read_worker (file []) ≡ (err unexpected_eof, file [])
  unfolding read_worker read turn
  read_worker_end =
      ap (λ (p : Result (List Layer) × Worker). (input_result p.0, p.1))
        (read_layers-turn io floats decimal class 65534 [] (file [])
          ∙ ap (turn io floats decimal class 65534 []) (read_one_end io floats decimal class))

  read_worker-encode_all :
      (r : Record) (rs : List Record)
      → AllFitU32 (r ∷ rs)
      → read_worker (file (r ∷ rs))
        ≡ (ok (map capture (take block_size (r ∷ rs))), file (drop block_size (r ∷ rs)))
  unfolding read_worker read
  read_worker-encode_all r rs h =
      ap (λ (p : Result (List Layer) × Worker). (input_result p.0, p.1))
        (read_layers-encode_all io floats decimal class block_size [] (r ∷ rs) h (omega arith))

  joined_first :
      (n : ℕ) (rs : List Record) (bs : List (List Layer))
      → joined bs ≡ map capture (drop n rs)
      → map capture (take n rs) ++ joined bs ≡ map capture rs
  joined_first n rs bs q =
      ap (λ ls. map capture (take n rs) ++ ls) q
      ∙ sym (map-append capture (take n rs) (drop n rs))
      ∙ ap (map capture) (take-append-drop n rs)

  module _ {F : Type 0} (id : ℕ) where
    abbrev pub sent : List (List Layer) → List (Command Layer F Error)
    sent bs =
        map (λ b. push_frames (some id) (ok b)) bs
        ++ push_frames (some id) (err unexpected_eof) ∷ []

    after : ℕ → InputResult Layer Error × Worker → List (Command Layer F Error)
    after turns (ok [], w) = read_input read_worker id turns w
    after turns (ok (first ∷ more), w) =
        push_frames (some id) (ok (first ∷ more)) ∷ read_input read_worker id turns w
    after turns (err e, w) = push_frames (some id) (err e) ∷ []

    read_input-after :
        (turns : ℕ) (w : Worker)
        → read_input read_worker id (suc turns) w ≡ after turns (read_worker w)
    unfolding read_input after
    read_input-after turns w = ground arith

    -- The thread of a nanosecond little-endian capture file whose records fit in 32 bits sends, in
    -- more turns than there are records, blocks of layers that put together are the layers of the
    -- records in order, and then an error, the end of the file.
    pub read_input-sent :
        (turns : ℕ) (rs : List Record)
        → AllFitU32 rs
        → length rs < turns
        → (bs : List (List Layer)) × (joined bs ≡ map capture rs)
          × (read_input read_worker id turns (file rs) ≡ sent bs)
    unfolding after
    read_input-sent zero rs h t = absurd (omega arith)
    read_input-sent (suc turns) [] h t =
        ([], refl, read_input-after turns (file []) ∙ ap (after turns) read_worker_end)
    read_input-sent (suc turns) (r ∷ rs) h t =
        let rest : List Record = drop 65534 rs in
        let left : length rest < turns = omega (arith, length-drop 65534 rs) in
        let (bs, q, s) = read_input-sent turns rest (AllFitU32-drop 65534 rs h.1) left in
        let first : List Layer = map capture (take block_size (r ∷ rs)) in
        (
          first ∷ bs,
          ap (λ ls. capture r ∷ ls) (joined_first 65534 rs bs q),
          read_input-after turns (file (r ∷ rs))
              ∙ ap (after turns) (read_worker-encode_all r rs h)
              ∙ ap (λ cs. push_frames (some id) (ok first) ∷ cs) s,
        )
