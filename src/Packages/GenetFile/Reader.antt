-- ===== src/Packages/GenetFile/Reader.antt =====
-- package/genet-file/reader/src/lib.rs. Reading from the file is an argument; `none` is a panic of
-- an index out of range. The class of a link layer is made once for each token and shared: it is a
-- value here, made where it is used.
use Prim.Native.String.{String}
use genet.Base.{ℕ, zero, suc, List, [], ◌∷◌, Option, none, some, get_elem?}
use genet.Abi.Result.{Result, ok, err}
use genet.Abi.Attr.{AttrClass as LayerAttrClass}
use genet.Abi.Layer.{Layer, LayerClass, new, add_attr}
use genet.Packages.{attr_with}
use genet.Packages.PcapFile.{Io, ◌>>=◌ as then_io, lift, value_class}
use genet.Packages.PcapFile.Reader.{Input}
use genet.Packages.GenetFile.{AttrClass, Attr, Header, Bincode, into_variant}

-- A computation on a file that can fail, and can panic.
abbrev pub Run : Type 0 → Type 0 → Type 0
Run S A = S → Option (Result A × S)

infixl 5 ◌>>=◌
unfoldable pub ◌>>=◌ : {S A B : Type 0} → Run S A → (A → Run S B) → Run S B
first >>= next = λ s. elim (first s) [
  | none ↦ none
  | some (ok a, s') ↦ next a s'
  | some (err e, s') ↦ some (err e, s')
]

abbrev pub return : {S A : Type 0} → A → Run S A
return a s = some (ok a, s)

abbrev pub io : {S A : Type 0} → Io S A → Run S A
io act s = some (act s)

-- A value that is missing is a panic.
abbrev pub unwrap : {S A : Type 0} → Option A → Run S A
unwrap none s = none
unwrap (some a) s = some (ok a, s)

-- `GenetFileWorker`
pub record Worker : Type 0 where
  pub reader : List ℕ
  pub entries : ℕ
  pub tokens : List String
  pub attrs : List LayerAttrClass

-- `tokens[attr.id]` and `tokens[attr.typ]` of each class
unfoldable pub attr_classes : List String → List AttrClass → Option (List LayerAttrClass)
attr_classes tokens [] = some []
attr_classes tokens (c ∷ cs) = elim (get_elem? tokens c.id) [
  | none ↦ none
  | some id ↦ elim (get_elem? tokens c.typ) [
    | none ↦ none
    | some typ ↦ elim (attr_classes tokens cs) [
      | none ↦ none
      | some rest ↦ some (value_class id typ ∷ rest)
    ]
  ]
]

abbrev pub layer_class : String → LayerClass
layer_class id = record { id = id; aliases = []; headers = [] }

unfoldable pub add_attrs : List LayerAttrClass → List Attr → Layer → Option Layer
add_attrs classes [] layer = some layer
add_attrs classes (a ∷ rest) layer = elim (get_elem? classes a.index) [
  | none ↦ none
  | some class ↦ add_attrs classes rest (add_attr layer (attr_with class (into_variant a.value)))
]

-- The worker for a file whose header was read.
unfoldable pub worker_of : Result Header → List ℕ → Option (Result Worker)
worker_of (err e) rest = some (err e)
worker_of (ok header) rest = elim (attr_classes header.tokens header.attrs) [
  | none ↦ none
  | some attrs ↦
      some (
        ok
          record { reader = rest; entries = header.entries; tokens = header.tokens; attrs = attrs })
]

module _ (input : Input) (bincode : Bincode) where
  open input use {read_exact}
  open bincode use {deserialize_header, deserialize_frame, deserialize_usize, usize_size}

  unfoldable pub read_usize : Io (List ℕ) ℕ
  read_usize =
      then_io (lift usize_size) λ size. then_io (read_exact size) λ v. lift (deserialize_usize v)

  -- The bytes of a value behind its length.
  unfoldable pub read_sized : Io (List ℕ) (List ℕ)
  read_sized = then_io read_usize read_exact

  unfoldable pub read_header : Io (List ℕ) Header
  read_header = then_io read_sized λ bin. lift (deserialize_header bin)

  -- `GenetFileReader::new_worker`, with the file opened
  unfoldable pub new_worker : Result (List ℕ) → Option (Result Worker)
  new_worker (err e) = some (err e)
  new_worker (ok file) = let (r, rest) = read_header file in worker_of r rest

  -- A turn of the loop of `read`.
  unfoldable pub read_entry : List String → List LayerAttrClass → Run (List ℕ) Layer
  read_entry tokens classes = do
    bin ← io read_sized
    frame ← io (lift (deserialize_frame bin))
    payload ← io (read_exact frame.len)
    id ← unwrap (get_elem? tokens frame.id)
    unwrap (add_attrs classes frame.attrs (new (layer_class id) payload))

  unfoldable pub read_entries : List String → List LayerAttrClass → ℕ → Run (List ℕ) (List Layer)
  read_entries tokens classes zero = return []
  read_entries tokens classes (suc n) = do
    layer ← read_entry tokens classes
    rest ← read_entries tokens classes n
    return (layer ∷ rest)

  -- `Worker::read`
  unfoldable pub read : Run Worker (List Layer)
  read w = elim (read_entries w.tokens w.attrs w.entries w.reader) [
    | none ↦ none
    | some (ok layers, rest) ↦ some (ok layers, record w { reader = rest; entries = 0 })
    | some (err e, rest) ↦ some (err e, record w { reader = rest })
  ]
