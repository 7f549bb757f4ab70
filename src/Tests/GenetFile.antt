-- ===== src/Tests/GenetFile.antt =====
-- A genet file of two layers, written and read back.
use Prim.Native.String.{String}
use text.Mathlib.Text.{◌==◌ as str_eq}
use text.Mathlib.TextEquality.{eq_iff}
use genet.Base.{
  ℕ, ◌≡◌, refl, Bool, true, false, ◌&&◌, List, [], ◌∷◌, map, arith, Bool-cases, inl, inr, sym, ap,
  ◌∙◌, some, if◌then◌else◌,
}
use genet.Base.Bytes.{to_bytes_le, of_bytes_le}
use genet.Abi.Result.{Result, ok, err, wrong_type}
use genet.Abi.Variant
use genet.Abi.Attr.{try_get, attr_value, encode, decode, is_value}
use genet.Abi.Layer.{Layer, bottom}
use genet.Packages.{attr_with}
use genet.Packages.PcapFile.{value_class, ◌>>=◌}
use genet.Packages.PcapFile.Written.{stacks}
use genet.Packages.GenetFile.{
  AttrClass, Attr, Header, Frame, Entry, Bincode, Value, uint64, from_variant,
}
use genet.Packages.GenetFile.Writer.{
  Worker, write_frames, end, header_of, get_token_index, get_attr_index, index_in, position,
  same_attr, write, write_attr, write_attrs, push_entry, attr_classes,
}
use genet.Packages.GenetFile.Reading.{saved}
use genet.Packages.GenetFile.Copies.{created, read_file, read_file-write_frames}
use genet.Tests.PcapFile.{input, sink, accepts}

abbrev names : List String
names = "eth" ∷ "link.type" ∷ "" ∷ []

-- A stand-in for bincode that knows headers of these tokens and of one class, and frames of one
-- number.
abbrev are_names : List String → Bool
are_names (a ∷ b ∷ c ∷ []) = str_eq a "eth" && (str_eq b "link.type" && str_eq c "")
are_names _ = false

abbrev one_class : ℕ → List AttrClass → Result (List ℕ)
one_class n (c ∷ []) = ok (n ∷ c.id ∷ c.typ ∷ [])
one_class n _ = err wrong_type

abbrev serialize_header : Header → Result (List ℕ)
serialize_header h = if are_names h.tokens then one_class h.entries h.attrs else err wrong_type

abbrev deserialize_header : List ℕ → Result Header
deserialize_header (n ∷ i ∷ j ∷ []) =
    ok record { tokens = names; attrs = record { id = i; typ = j } ∷ []; entries = n }
deserialize_header _ = err wrong_type

abbrev one_attr : ℕ → ℕ → List Attr → Result (List ℕ)
one_attr id len (record_of ∷ []) = elim record_of.value [
  | uint64 n ↦ ok (id ∷ len ∷ record_of.index ∷ n ∷ [])
  | _ ↦ err wrong_type
]
one_attr id len _ = err wrong_type

abbrev deserialize_frame : List ℕ → Result Frame
deserialize_frame (id ∷ len ∷ i ∷ n ∷ []) =
    ok record { id = id; len = len; attrs = record { index = i; value = uint64 n } ∷ [] }
deserialize_frame _ = err wrong_type

are_names_eq : (ts : List String) → are_names ts ≡ true → ts ≡ names
are_names_eq [] h = cc
are_names_eq (a ∷ []) h = cc
are_names_eq (a ∷ b ∷ []) h = cc
are_names_eq (a ∷ b ∷ c ∷ d ∷ ts) h = cc
are_names_eq (a ∷ b ∷ c ∷ []) h = ground (arith, eq_iff a "eth", eq_iff b "link.type", eq_iff c "")

one_class_lem :
    (n : ℕ) (cs : List AttrClass) (bin : List ℕ)
    → one_class n cs ≡ ok bin
    → deserialize_header bin ≡ ok record { tokens = names; attrs = cs; entries = n }
one_class_lem n [] bin e = absurd (cc)
one_class_lem n (c ∷ d ∷ cs) bin e = absurd (cc)
one_class_lem n (c ∷ []) bin e = let b : bin ≡ n ∷ c.id ∷ c.typ ∷ [] = cc in rw b refl

header_lem :
    (ts : List String) (cs : List AttrClass) (n : ℕ) (bin : List ℕ)
    → serialize_header (record { tokens = ts; attrs = cs; entries = n }) ≡ ok bin
    → deserialize_header bin ≡ ok record { tokens = ts; attrs = cs; entries = n }
header_lem ts cs n bin e = elim (Bool-cases (are_names ts)) [
  | inl y ↦
      let known : one_class n cs ≡ ok bin = ground (arith, y, e) in
      one_class_lem n cs bin known
      ∙ ap (λ t. ok record { tokens = t; attrs = cs; entries = n }) (sym (are_names_eq ts y))
  | inr y ↦ absurd (ground (arith, y, e))
]

value_lem :
    (id len i : ℕ) (v : Value) (bin : List ℕ)
    → one_attr id len (record { index = i; value = v } ∷ []) ≡ ok bin
    → deserialize_frame bin
      ≡ ok record { id = id; len = len; attrs = record { index = i; value = v } ∷ [] }
value_lem id len i (uint64 n) bin e = let b : bin ≡ id ∷ len ∷ i ∷ n ∷ [] = cc in rw b refl
value_lem id len i Value.nil bin e = absurd (cc)
value_lem id len i (Value.bool x) bin e = absurd (cc)
value_lem id len i (Value.int64 x) bin e = absurd (cc)
value_lem id len i (Value.float64 x) bin e = absurd (cc)
value_lem id len i (Value.string x) bin e = absurd (cc)
value_lem id len i (Value.buffer x) bin e = absurd (cc)

frame_lem :
    (id len : ℕ) (attrs : List Attr) (bin : List ℕ)
    → one_attr id len attrs ≡ ok bin
    → deserialize_frame bin ≡ ok record { id = id; len = len; attrs = attrs }
frame_lem id len [] bin e = absurd (cc)
frame_lem id len (a ∷ b ∷ attrs) bin e = absurd (cc)
frame_lem id len (a ∷ []) bin e = value_lem id len a.index a.value bin e

abbrev bincode : Bincode
bincode = record {
  serialize_header = serialize_header;
  deserialize_header = deserialize_header;
  serialize_frame = λ f. one_attr f.id f.len f.attrs;
  deserialize_frame = deserialize_frame;
  serialize_usize = λ n. ok (to_bytes_le 8 n);
  deserialize_usize = λ bs. ok (of_bytes_le bs);
  usize_size = ok 8;
  serialize_usize_lem = λ n h. refl;
  deserialize_usize_lem = λ n h. ap ok (omega arith);
  usize_size_lem = refl;
  deserialize-serialize_header = λ h bin e. header_lem h.tokens h.attrs h.entries bin e;
  deserialize-serialize_frame = λ f bin e. frame_lem f.id f.len f.attrs bin e;
}

abbrev frame_of : ℕ → List ℕ → Layer
frame_of link bytes = record {
  class = record { id = "eth"; aliases = []; headers = [] };
  bytes = bytes;
  attrs = attr_with (value_class "link.type" "") (Variant.uint64 link) ∷ [];
  payloads = [];
}

abbrev two_frames : List Layer
two_frames = frame_of 1 (7 ∷ 8 ∷ []) ∷ frame_of 1 (9 ∷ []) ∷ []

abbrev entry_of : ℕ → List ℕ → Entry
entry_of len bytes = record {
  frame = record { id = 0; len = len; attrs = record { index = 0; value = uint64 1 } ∷ [] };
  bytes = bytes;
}

-- The worker of the writer behind them.
abbrev after : Worker
after = record {
  writer = [];
  tokens = "eth" ∷ [];
  attrs = ("link.type", "") ∷ [];
  entries = entry_of 2 (7 ∷ 8 ∷ []) ∷ entry_of 1 (9 ∷ []) ∷ [];
}

two_frames_written : (write_frames (stacks two_frames) created).1 ≡ after
unfolding write_frames write bottom write_attrs write_attr push_entry get_token_index get_attr_index
    index_in position same_attr try_get attr_value encode decode is_value from_variant ◌>>=◌
two_frames_written = refl

read_file-write_frames_example :
    ((write_frames (stacks two_frames) created).0 ≡ ok tt)
    × ((end sink bincode after).0 ≡ ok tt)
    × (read_file input bincode (end sink bincode after).1.writer ≡ some (ok (map saved two_frames)))
unfolding header_of attr_classes get_token_index index_in position is_value try_get attr_value
    encode decode
read_file-write_frames_example =
    read_file-write_frames input sink accepts bincode two_frames ((refl, tt), ((refl, tt), tt))
      after two_frames_written (record { bin = 2 ∷ 1 ∷ 2 ∷ []; made = refl; fits = omega arith })
      (
        record { bin = 0 ∷ 2 ∷ 0 ∷ 1 ∷ []; made = refl; fits = omega arith },
        (record { bin = 0 ∷ 1 ∷ 0 ∷ 1 ∷ []; made = refl; fits = omega arith }, tt),
      )
