-- ===== src/Packages/GenetFile/Ended.antt =====
-- package/genet-file/writer/src/lib.rs: the header that `end` makes, and the bytes of the file.
use Prim.Native.String.{String}
use text.Mathlib.Text.{◌==◌ as str_eq}
use genet.Base.{
  ℕ, ◌^◌, ◌<◌, ◌≡◌, refl, sym, ap, ◌∙◌, List, [], ◌∷◌, ◌++◌, some, length, get_elem?, map,
  append_assoc, append-nil,
}
use genet.Base.Bytes.{to_bytes_le}
use genet.Abi.Result.{Result, ok}
use genet.Packages.PcapFile.{◌>>=◌, bind_ok, value_class}
use genet.Packages.PcapFile.Writer.{Sink}
use genet.Packages.PcapFile.Written.{Accepts}
use genet.Packages.GenetFile.{AttrClass, Header, Entry, Bincode}
use genet.Packages.GenetFile.Reader
use genet.Packages.GenetFile.Writer.{
  Worker, get_token_index, attr_classes, write_sized, write_entries, header_of, end,
}
use genet.Packages.GenetFile.Tables.{
  Extends, Extends_refl, Extends_trans, get_elem?-Extends, index_in-Extends, get_elem?-index_in,
  str_eq_eq,
}

-- The tokens of each class are at its positions.
data ClassesEntered (tokens : List String) : List AttrClass → List (String × String) → Type 0 where
  nil : ClassesEntered tokens [] []
  cons :
      {c : AttrClass} {id typ : String} {cs : List AttrClass} {attrs : List (String × String)}
      → get_elem? tokens c.id ≡ some id
      → get_elem? tokens c.typ ≡ some typ
      → ClassesEntered tokens cs attrs
      → ClassesEntered tokens (c ∷ cs) ((id, typ) ∷ attrs)

-- What `attr_classes` leaves of the worker.
record ClassesMade (attrs : List (String × String)) (w : Worker) (r : List AttrClass × Worker)
    : Type 0 where
  tokens : Extends w.tokens r.1.tokens
  kept : r.1 ≡ record w { tokens = r.1.tokens }
  entered : ClassesEntered r.1.tokens r.0 attrs

get_token_index-Extends :
    (id : String) (w : Worker) → Extends w.tokens (get_token_index id w).1.tokens
unfolding get_token_index
get_token_index-Extends id w = index_in-Extends str_eq id w.tokens

get_token_index_finds :
    (id : String) (w : Worker)
    → get_elem? (get_token_index id w).1.tokens (get_token_index id w).0 ≡ some id
unfolding get_token_index
get_token_index_finds id w = get_elem?-index_in str_eq id w.tokens λ y. str_eq_eq y id

-- Entering tokens changes the table of tokens alone.
tokens_only :
    (id typ : String) (w : Worker) (tokens : List String)
    → let w2 = (get_token_index typ (get_token_index id w).1).1 in
      (record w2 { tokens = tokens }) ≡ record w { tokens = tokens }
unfolding get_token_index
tokens_only id typ w tokens = refl

attr_classes_lem :
    (attrs : List (String × String)) (w : Worker) → ClassesMade attrs w (attr_classes attrs w)
unfolding attr_classes
attr_classes_lem [] w = record { tokens = Extends_refl w.tokens; kept = refl; entered = nil }
attr_classes_lem ((id, typ) ∷ attrs) w =
    let w1 = (get_token_index id w).1 in
    let w2 = (get_token_index typ w1).1 in
    let rest = attr_classes_lem attrs w2 in
    let last = (attr_classes attrs w2).1 in
    let typ_found = get_token_index_finds typ w1 in
    let id_found =
      get_elem?-Extends w1.tokens w2.tokens _ id (get_token_index-Extends typ w1)
        (get_token_index_finds id w) in
    record {
      tokens =
          Extends_trans w.tokens w2.tokens last.tokens
            (Extends_trans w.tokens w1.tokens w2.tokens (get_token_index-Extends id w)
              (get_token_index-Extends typ w1))
            rest.tokens;
      kept = rest.kept ∙ tokens_only id typ w last.tokens;
      entered =
          cons (get_elem?-Extends w2.tokens last.tokens _ id rest.tokens id_found)
            (get_elem?-Extends w2.tokens last.tokens _ typ rest.tokens typ_found) rest.entered;
    }

-- The reader makes the classes that were entered.
Reader-attr_classes :
    (tokens : List String) {cs : List AttrClass} {attrs : List (String × String)}
    → ClassesEntered tokens cs attrs
    → Reader.attr_classes tokens cs ≡ some (map (λ a. value_class a.0 a.1) attrs)
unfolding Reader.attr_classes
Reader-attr_classes tokens nil = refl
Reader-attr_classes tokens (cons e f h) =
    rw (Reader.attr_classes, e, f, Reader-attr_classes tokens h) refl

-- A value behind its length, in bytes.
abbrev pub sized : List ℕ → List ℕ
sized bin = to_bytes_le 8 (length bin) ++ bin

-- A value that is serialized, in fewer bytes than a `usize` counts.
pub record Serializes (r : Result (List ℕ)) : Type 0 where
  pub bin : List ℕ
  pub made : r ≡ ok bin
  pub fits : length bin < 2 ^ 64

abbrev pub AllSerialize : Bincode → List Entry → Type 0
AllSerialize bincode [] = Unit
AllSerialize bincode (e ∷ es) =
    Serializes (bincode.serialize_frame e.frame) × AllSerialize bincode es

-- The frames of the entries, each with the bytes of its layer.
abbrev pub entry_bytes : (bincode : Bincode) (es : List Entry) → AllSerialize bincode es → List ℕ
entry_bytes bincode [] h = []
entry_bytes bincode (e ∷ es) h = sized h.0.bin ++ (e.bytes ++ entry_bytes bincode es h.1)

module _ (sink : Sink) (accepts : Accepts sink) (bincode : Bincode) where
  write_sized_lem :
      (serialized : Result (List ℕ)) (bin file : List ℕ)
      → serialized ≡ ok bin
      → length bin < 2 ^ 64
      → write_sized sink bincode serialized file ≡ (ok tt, file ++ sized bin)
  unfolding write_sized
  write_sized_lem serialized bin file e h = bind_ok _ _ (ap (λ r. (r, file)) e) (
      bind_ok _ _ (ap (λ r. (r, file)) (bincode.serialize_usize_lem (length bin) h)) (
        bind_ok _ _ (accepts file (to_bytes_le 8 (length bin))) (
          accepts (file ++ to_bytes_le 8 (length bin)) bin
          ∙ ap (λ t. (ok tt, t)) (append_assoc file (to_bytes_le 8 (length bin)) bin))))

  write_entries_lem :
      (es : List Entry) (h : AllSerialize bincode es) (file : List ℕ)
      → write_entries sink bincode es file ≡ (ok tt, file ++ entry_bytes bincode es h)
  unfolding write_entries
  write_entries_lem [] h file = ap (λ t. (ok tt, t)) (sym (append-nil file))
  write_entries_lem (e ∷ es) h file =
      bind_ok _ _ (write_sized_lem _ h.0.bin file h.0.made h.0.fits) (
        bind_ok _ _ (accepts (file ++ sized h.0.bin) e.bytes) (
          write_entries_lem es h.1 _
          ∙ ap (λ t. (ok tt, t))
              (append_assoc (file ++ sized h.0.bin) e.bytes (entry_bytes bincode es h.1)
                ∙ append_assoc file (sized h.0.bin) _)))

  -- What `end` leaves of a worker: the file, and the header that it began with.
  pub record Ended (w : Worker) : Type 0 where
    pub header : Header
    pub head : Serializes (bincode.serialize_header header)
    pub frames : AllSerialize bincode w.entries
    pub succeeds : (end sink bincode w).0 ≡ ok tt
    pub file :
        (end sink bincode w).1.writer
        ≡ w.writer ++ (sized head.bin ++ entry_bytes bincode w.entries frames)
    pub tokens : Extends w.tokens header.tokens
    pub classes :
        Reader.attr_classes header.tokens header.attrs
        ≡ some (map (λ a. value_class a.0 a.1) w.attrs)
    pub entries : header.entries ≡ length w.entries

  write_all_lem :
      (w : Worker) (serialized : Result (List ℕ)) (head : Serializes serialized)
      (frames : AllSerialize bincode w.entries)
      → (write_sized sink bincode serialized >>= λ _. write_entries sink bincode w.entries) w.writer
        ≡ (ok tt, w.writer ++ (sized head.bin ++ entry_bytes bincode w.entries frames))
  write_all_lem w serialized head frames =
      bind_ok _ _ (write_sized_lem serialized head.bin w.writer head.made head.fits) (
        write_entries_lem w.entries frames (w.writer ++ sized head.bin)
        ∙ ap (λ t. (ok tt, t)) (append_assoc w.writer (sized head.bin) _))

  pub end_lem :
      (w : Worker)
      → Serializes (bincode.serialize_header (header_of w).0)
      → AllSerialize bincode w.entries
      → Ended w
  unfolding end header_of
  end_lem w head frames =
      let made = attr_classes_lem w.attrs w in
      let serialized = bincode.serialize_header (header_of w).0 in
      let all =
        ap
          (λ (v : Worker).
            (write_sized sink bincode serialized >>= λ _. write_entries sink bincode v.entries)
              v.writer)
          made.kept
        ∙ write_all_lem w serialized head frames in
      record {
        header = (header_of w).0;
        head = head;
        frames = frames;
        succeeds = ap (λ r. r.0) all;
        file = ap (λ r. r.1) all;
        tokens = made.tokens;
        classes = Reader-attr_classes _ made.entered;
        entries = ap (λ v. length v.entries) made.kept;
      }
