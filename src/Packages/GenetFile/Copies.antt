-- ===== src/Packages/GenetFile/Copies.antt =====
-- package/genet-file: a file that is written and read back.
use Prim.Native.String.{String}
use genet.Base.{
  ℕ, ◌≡◌, refl, sym, ap, ◌∙◌, subst, List, [], ◌++◌, Option, none, some, map, append-nil,
}
use genet.Abi.Result.{Result, ok, err}
use genet.Abi.Attr.{AttrClass as LayerAttrClass}
use genet.Abi.Layer.{Layer}
use genet.Packages.PcapFile.{lift, bind_ok}
use genet.Packages.PcapFile.Reader.{Input}
use genet.Packages.PcapFile.Writer.{Sink}
use genet.Packages.PcapFile.Written.{Accepts, stacks}
use genet.Packages.GenetFile.{Header, Entry, Bincode}
use genet.Packages.GenetFile.Writer
use genet.Packages.GenetFile.Writer.{write_frames, header_of, end}
use genet.Packages.GenetFile.Reader.{
  attr_classes, worker_of, read_header, Worker, read_sized, new_worker, read_entries, read,
}
use genet.Packages.GenetFile.Represents.{AreEntered, IsEntered-Extends}
use genet.Packages.GenetFile.Entered.{AreAllReadable, write_frames_lem}
use genet.Packages.GenetFile.Tables.{Extends, Extends_refl}
use genet.Packages.GenetFile.Ended.{Serializes, AllSerialize, sized, entry_bytes, Ended, end_lem}
use genet.Packages.GenetFile.Reading.{saved, classes_of, read_sized_lem, read_entries_lem}

module _ (input : Input) (bincode : Bincode) where
  abbrev result_of : Option (Result (List Layer) × Worker) → Option (Result (List Layer))
  result_of none = none
  result_of (some (r, w)) = some r

  abbrev first_read : Option (Result Worker) → Option (Result (List Layer))
  first_read none = none
  first_read (some (err e)) = some (err e)
  first_read (some (ok w)) = result_of (read input bincode w)

  -- A reader for a file, and one call of its `read`.
  abbrev pub read_file : List ℕ → Option (Result (List Layer))
  read_file file = first_read (new_worker input bincode (ok file))

-- A worker of the writer on a new file.
abbrev pub created : Writer.Worker
created = record { writer = []; tokens = []; attrs = []; entries = [] }

AreEntered-Extends :
    (tokens tokens' : List String) (classes : List (String × String)) {es : List Entry}
    {layers : List Layer}
    → Extends tokens tokens'
    → AreEntered tokens classes es layers
    → AreEntered tokens' classes es layers
AreEntered-Extends tokens tokens' classes x AreEntered.nil = AreEntered.nil
AreEntered-Extends tokens tokens' classes x (AreEntered.cons h t) =
    AreEntered.cons (IsEntered-Extends tokens tokens' classes classes x (Extends_refl classes) h)
      (AreEntered-Extends tokens tokens' classes x t)

module _ (input : Input) (bincode : Bincode) where
  -- A worker of the reader for a file that begins with a header.
  new_worker_lem :
      (file rest : List ℕ) (header : Header) (classes : List LayerAttrClass)
      → read_header input bincode file ≡ (ok header, rest)
      → attr_classes header.tokens header.attrs ≡ some classes
      → new_worker input bincode (ok file)
        ≡ some (
            ok record {
              reader = rest;
              entries = header.entries;
              tokens = header.tokens;
              attrs = classes;
            })
  unfolding new_worker worker_of
  new_worker_lem file rest header classes e f =
      ap (λ r. worker_of r.0 r.1) e ∙ rw (worker_of, f) refl

  read_lem :
      (w : Worker) (layers : List Layer) (rest : List ℕ)
      → read_entries input bincode w.tokens w.attrs w.entries w.reader ≡ some (ok layers, rest)
      → read input bincode w ≡ some (ok layers, record w { reader = rest; entries = 0 })
  unfolding read
  read_lem w layers rest e = rw (read, e) refl

  read_file_lem :
      (file rest : List ℕ) (header : Header) (classes : List LayerAttrClass) (layers : List Layer)
      → read_header input bincode file ≡ (ok header, rest)
      → attr_classes header.tokens header.attrs ≡ some classes
      → read_entries input bincode header.tokens classes header.entries rest ≡ some (ok layers, [])
      → read_file input bincode file ≡ some (ok layers)
  read_file_lem file rest header classes layers e f g =
      ap (first_read input bincode) (new_worker_lem file rest header classes e f)
      ∙ ap (result_of input bincode) (read_lem _ layers [] g)

module _ (input : Input) (sink : Sink) (accepts : Accepts sink) (bincode : Bincode) where
  read_file-Ended :
      (w : Writer.Worker) (layers : List Layer) (ended : Ended sink accepts bincode w)
      → AreEntered w.tokens w.attrs w.entries layers
      → w.writer ≡ []
      → read_file input bincode (end sink bincode w).1.writer ≡ some (ok (map saved layers))
  read_file-Ended w layers ended entered e =
      let bin = ended.head.bin in
      let header = ended.header in
      let more = entry_bytes bincode w.entries ended.frames in
      let file : (end sink bincode w).1.writer ≡ sized bin ++ (more ++ []) =
        ended.file
        ∙ ap (λ t. t ++ (sized bin ++ more)) e
        ∙ ap (λ t. sized bin ++ t) (sym (append-nil more)) in
      let entries_read =
        ap (λ n. read_entries input bincode header.tokens (classes_of w.attrs) n (more ++ []))
          ended.entries
        ∙ read_entries_lem input bincode header.tokens w.attrs []
            (AreEntered-Extends w.tokens header.tokens w.attrs ended.tokens entered) ended.frames in
      let header_read : read_header input bincode (sized bin ++ (more ++ []))
          ≡ (ok header, more ++ []) =
        unfold read_header in
        bind_ok (read_sized input bincode) (λ b. lift (bincode.deserialize_header b))
          (read_sized_lem input bincode bin (more ++ []) ended.head.fits)
          (ap (λ r. (r, more ++ []))
            (bincode.deserialize-serialize_header header bin ended.head.made)) in
      ap (read_file input bincode) file
      ∙ read_file_lem input bincode (sized bin ++ (more ++ [])) (more ++ []) header
          (classes_of w.attrs) (map saved layers) header_read ended.classes entries_read

  -- Frames of one layer each are written to a file that takes all of it, and read back: the layers
  -- come back in order with their identifiers, their bytes and their attributes that hold values,
  -- each with its name, its type and its value, big integers and slices as `nil`. The attributes
  -- can be read, and bincode can serialize the header and the frames, each in fewer than 2 ^ 64
  -- bytes.
  pub read_file-write_frames :
      (layers : List Layer)
      → AreAllReadable layers
      → (after : Writer.Worker) → (write_frames (stacks layers) created).1 ≡ after
      → Serializes (bincode.serialize_header (header_of after).0)
      → AllSerialize bincode after.entries
      → ((write_frames (stacks layers) created).0 ≡ ok tt)
        × ((end sink bincode after).0 ≡ ok tt)
        × (read_file input bincode (end sink bincode after).1.writer ≡ some (ok (map saved layers)))
  read_file-write_frames layers readable after e head frames =
      let written = write_frames_lem layers created readable in
      let same : written.after ≡ after = sym (ap (λ r. r.1) written.run) ∙ e in
      let ended = end_lem sink accepts bincode after head frames in
      let entered : AreEntered after.tokens after.attrs after.entries layers =
        subst (λ (w : Writer.Worker). AreEntered w.tokens w.attrs w.entries layers) same
          (subst (λ es. AreEntered written.after.tokens written.after.attrs es layers)
            (sym written.entries) written.entered) in
      (
        ap (λ r. r.0) written.run,
        ended.succeeds,
        read_file-Ended after layers ended entered
            (ap (λ (w : Writer.Worker). w.writer) (sym same) ∙ written.writer),
      )
