-- ===== src/Packages/GenetFile/Writer.antt =====
-- package/genet-file/writer/src/lib.rs. Writing to the file is an argument.
use Prim.Native.String.{String}
use text.Mathlib.Text.{◌==◌ as str_eq}
use genet.Base.{
  ℕ, ◌+◌, List, [], ◌∷◌, ◌++◌, Bool, ◌&&◌, Option, none, some, length, select, if◌then◌else◌,
}
use genet.Abi.Result.{Result, ok, err}
use genet.Abi.Attr.{Attr as LayerAttr, is_value, try_get}
use genet.Abi.Layer.{Layer, bottom}
use genet.Packages.PcapFile.{Io, ◌>>=◌, return, lift}
use genet.Packages.PcapFile.Writer.{Sink}
use genet.Packages.GenetFile.{AttrClass, Attr, Header, Frame, Entry, Bincode, from_variant}

-- `GenetFileWorker`
pub record Worker : Type 0 where
  pub writer : List ℕ
  pub tokens : List String
  pub attrs : List (String × String)
  pub entries : List Entry

-- `GenetFileWriter::new_worker`, with the file created
unfoldable pub new_worker : Result (List ℕ) → Result Worker
new_worker (err e) = err e
new_worker (ok file) = ok record { writer = file; tokens = []; attrs = []; entries = [] }

-- `Iterator::position`, counted from `i`
unfoldable pub position {ℓ} : {A : Type ℓ} → (A → Bool) → ℕ → List A → Option ℕ
position p i [] = none
position p i (x ∷ xs) = if p x then some i else position p (i + 1) xs

-- What `get_token_index` and `get_attr_index` do with their tables: the position of `x`, which is
-- pushed where it is missing.
unfoldable pub index_in {ℓ} : {A : Type ℓ} → (A → A → Bool) → A → List A → ℕ × List A
index_in eq x xs = elim (position (λ y. eq y x) 0 xs) [
  | some i ↦ (i, xs)
  | none ↦ (length xs, xs ++ x ∷ [])
]

unfoldable pub get_token_index : String → Worker → ℕ × Worker
get_token_index id w =
    let (i, tokens) = index_in str_eq id w.tokens in (i, record w { tokens = tokens })

unfoldable pub same_attr : String × String → String × String → Bool
same_attr a b = str_eq a.0 b.0 && str_eq a.1 b.1

unfoldable pub get_attr_index : String → String → Worker → ℕ × Worker
get_attr_index id typ w =
    let (i, attrs) = index_in same_attr (id, typ) w.attrs in (i, record w { attrs = attrs })

-- The class is entered before the value is read.
unfoldable pub write_attr : Layer → LayerAttr → Io Worker Attr
write_attr layer attr w =
    let (index, w') = get_attr_index attr.class.id attr.class.typ w in
    elim (try_get attr layer.bytes) [
      | ok value ↦ (ok record { index = index; value = from_variant value }, w')
      | err e ↦ (err e, w')
    ]

unfoldable pub write_attrs : Layer → List LayerAttr → Io Worker (List Attr)
write_attrs layer [] = return []
write_attrs layer (a ∷ rest) = do
  attr ← write_attr layer a
  more ← write_attrs layer rest
  return (attr ∷ more)

unfoldable pub push_entry : Layer → List Attr → Io Worker (Unit {0})
push_entry layer attrs w =
    let (id, w') = get_token_index layer.class.id w in
    let frame : Frame = record { id = id; len = length layer.bytes; attrs = attrs } in
    (
      ok tt,
      record w' { entries = w'.entries ++ record { frame = frame; bytes = layer.bytes } ∷ [] },
    )

-- `Worker::write`
unfoldable pub write : List Layer → Io Worker (Unit {0})
write stack = elim (bottom stack) [
  | some layer ↦ write_attrs layer (select is_value layer.attrs) >>= push_entry layer
  | none ↦ return tt
]

-- The classes with the positions of their tokens, which are pushed where they are missing.
unfoldable pub attr_classes : List (String × String) → Worker → List AttrClass × Worker
attr_classes [] w = ([], w)
attr_classes ((id, typ) ∷ attrs) w =
    let (i, w1) = get_token_index id w in
    let (j, w2) = get_token_index typ w1 in
    let (rest, w3) = attr_classes attrs w2 in (record { id = i; typ = j } ∷ rest, w3)

-- The header, with the tokens of the classes entered before the table of tokens is copied.
unfoldable pub header_of : Worker → Header × Worker
header_of w =
    let (attrs, w') = attr_classes w.attrs w in
    (record { tokens = w'.tokens; attrs = attrs; entries = length w'.entries }, w')

module _ (sink : Sink) (bincode : Bincode) where
  open sink use {write_all}
  open bincode use {serialize_header, serialize_frame, serialize_usize}

  -- A serialized value behind its length.
  unfoldable pub write_sized : Result (List ℕ) → Io (List ℕ) (Unit {0})
  write_sized serialized = do
    bin ← lift serialized
    size ← lift (serialize_usize (length bin))
    _ ← write_all size
    write_all bin

  unfoldable pub write_entries : List Entry → Io (List ℕ) (Unit {0})
  write_entries [] = return tt
  write_entries (e ∷ es) = do
    _ ← write_sized (serialize_frame e.frame)
    _ ← write_all e.bytes
    write_entries es

  -- `Worker::end`
  unfoldable pub end : Io Worker (Unit {0})
  end w =
      let (header, w') = header_of w in
      let (r, file) =
        (write_sized (serialize_header header) >>= λ _. write_entries w'.entries) w'.writer in
      (r, record w' { writer = file })

-- `WorkerOutput::write` of genet-kernel/src/session.rs: the layers of each frame, up to an error.
unfoldable pub write_frames : List (List Layer) → Io Worker (Unit {0})
write_frames [] = return tt
write_frames (layers ∷ rest) = write layers >>= λ _. write_frames rest
