-- ===== src/Packages/GenetFile/Entered.antt =====
-- package/genet-file/writer/src/lib.rs: the entries that the worker makes of layers.
use Prim.Native.String.{String}
use text.Mathlib.Text.{◌==◌ as str_eq}
use genet.Base.{
  ◌≡◌, refl, sym, ap, ◌∙◌, List, [], ◌∷◌, ◌++◌, some, length, get_elem?, select, append_assoc,
  append-nil,
}
use genet.Abi.Result.{ok}
use genet.Abi.Variant.{Variant}
use genet.Abi.Attr.{Attr as LayerAttr, is_value, try_get}
use genet.Abi.Layer.{Layer, bottom}
use genet.Packages.PcapFile.{bind_ok}
use genet.Packages.PcapFile.Written.{stacks}
use genet.Packages.GenetFile.{Attr, Entry, from_variant}
use genet.Packages.GenetFile.Writer.{
  Worker, index_in, get_token_index, get_attr_index, same_attr, write_attr, write_attrs, push_entry,
  write, write_frames,
}
use genet.Packages.GenetFile.Tables.{
  Extends, Extends_refl, Extends_trans, get_elem?-Extends, index_in-Extends, get_elem?-index_in,
  str_eq_eq, same_attr_eq,
}
use genet.Packages.GenetFile.Represents.{
  value_in, AreReadable, AttrsEntered, IsEntered, AreEntered, IsEntered-Extends,
}

-- Tables that grow, with nothing written and no entry made.
record Grows (w : Worker) (w' : Worker) : Type 0 where
  tokens : Extends w.tokens w'.tokens
  attrs : Extends w.attrs w'.attrs
  writer : w'.writer ≡ w.writer
  entries : w'.entries ≡ w.entries

Grows-refl : (w : Worker) → Grows w w
Grows-refl w = record {
  tokens = Extends_refl w.tokens;
  attrs = Extends_refl w.attrs;
  writer = refl;
  entries = refl;
}

Grows-trans : (u v w : Worker) → Grows u v → Grows v w → Grows u w
Grows-trans u v w g h = record {
  tokens = Extends_trans u.tokens v.tokens w.tokens g.tokens h.tokens;
  attrs = Extends_trans u.attrs v.attrs w.attrs g.attrs h.attrs;
  writer = h.writer ∙ g.writer;
  entries = h.entries ∙ g.entries;
}

get_attr_index-Grows : (id typ : String) (w : Worker) → Grows w (get_attr_index id typ w).1
unfolding get_attr_index
get_attr_index-Grows id typ w = record {
  tokens = Extends_refl w.tokens;
  attrs = index_in-Extends same_attr (id, typ) w.attrs;
  writer = refl;
  entries = refl;
}

get_attr_index_finds :
    (id typ : String) (w : Worker)
    → get_elem? (get_attr_index id typ w).1.attrs (get_attr_index id typ w).0 ≡ some (id, typ)
unfolding get_attr_index
get_attr_index_finds id typ w =
    get_elem?-index_in same_attr (id, typ) w.attrs λ y. same_attr_eq y (id, typ)

record AttrsWritten (layer : Layer) (attrs : List LayerAttr) (w : Worker) : Type 0 where
  made : List Attr
  after : Worker
  run : write_attrs layer attrs w ≡ (ok made, after)
  grows : Grows w after
  entered : AttrsEntered after.attrs layer.bytes made attrs

write_attr_lem :
    (layer : Layer) (a : LayerAttr) (w : Worker) (v : Variant)
    → try_get a layer.bytes ≡ ok v
    → write_attr layer a w ≡ (
      ok record { index = (get_attr_index a.class.id a.class.typ w).0; value = from_variant v },
      (get_attr_index a.class.id a.class.typ w).1,
    )
unfolding write_attr
write_attr_lem layer a w v h = rw (write_attr, h) refl

write_attrs-cons :
    (layer : Layer) (a : LayerAttr) (more : List LayerAttr) (f : Attr) (fs : List Attr)
    (w w' w'' : Worker)
    → write_attr layer a w ≡ (ok f, w')
    → write_attrs layer more w' ≡ (ok fs, w'')
    → write_attrs layer (a ∷ more) w ≡ (ok (f ∷ fs), w'')
unfolding write_attrs
write_attrs-cons layer a more f fs w w' w'' e g = bind_ok _ _ e (bind_ok _ _ g refl)

write_attrs_lem :
    (layer : Layer) (attrs : List LayerAttr) (w : Worker)
    → AreReadable layer.bytes attrs
    → AttrsWritten layer attrs w
write_attrs_lem layer [] w h = record {
  made = [];
  after = w;
  run = unfold write_attrs in refl;
  grows = Grows-refl w;
  entered = AttrsEntered.nil;
}
write_attrs_lem layer (a ∷ more) w h =
    let (index, w') = get_attr_index a.class.id a.class.typ w in
    let f : Attr = record { index = index; value = from_variant (value_in layer.bytes a) } in
    let rest = write_attrs_lem layer more w' h.1 in
    record {
      made = f ∷ rest.made;
      after = rest.after;
      run =
          write_attrs-cons layer a more f rest.made w w' rest.after
            (write_attr_lem layer a w (value_in layer.bytes a) h.0) rest.run;
      grows =
          Grows-trans w w' rest.after (get_attr_index-Grows a.class.id a.class.typ w) rest.grows;
      entered =
          AttrsEntered.cons
            (get_elem?-Extends w'.attrs rest.after.attrs index _ rest.grows.attrs
              (get_attr_index_finds a.class.id a.class.typ w))
            refl rest.entered;
    }

-- What a call of `write` for one layer does to the worker.
pub record Written (layer : Layer) (w : Worker) : Type 0 where
  pub entry : Entry
  pub after : Worker
  pub run : write (layer ∷ []) w ≡ (ok tt, after)
  pub tokens : Extends w.tokens after.tokens
  pub attrs : Extends w.attrs after.attrs
  pub writer : after.writer ≡ w.writer
  pub entries : after.entries ≡ w.entries ++ entry ∷ []
  pub entered : IsEntered after.tokens after.attrs entry layer

abbrev entry_of : Layer → List Attr → Worker → Entry
entry_of layer attrs w = record {
  frame = record {
    id = (index_in str_eq layer.class.id w.tokens).0;
    len = length layer.bytes;
    attrs = attrs;
  };
  bytes = layer.bytes;
}

write_lem :
    (layer : Layer) (w : Worker)
    → AreReadable layer.bytes (select is_value layer.attrs)
    → Written layer w
unfolding write bottom push_entry get_token_index
write_lem layer w h =
    let first = write_attrs_lem layer (select is_value layer.attrs) w h in
    let v = first.after in
    let id = layer.class.id in
    record {
      entry = entry_of layer first.made v;
      after = (push_entry layer first.made v).1;
      run = bind_ok _ _ first.run refl;
      tokens =
          Extends_trans w.tokens v.tokens _ first.grows.tokens
            (index_in-Extends str_eq id v.tokens);
      attrs = first.grows.attrs;
      writer = first.grows.writer;
      entries = ap (λ es. es ++ entry_of layer first.made v ∷ []) first.grows.entries;
      entered = record {
        id = get_elem?-index_in str_eq id v.tokens λ y. str_eq_eq y id;
        len = refl;
        bytes = refl;
        attrs = first.entered;
      };
    }

abbrev pub AreAllReadable : List Layer → Type 0
AreAllReadable [] = Unit
AreAllReadable (layer ∷ layers) =
    AreReadable layer.bytes (select is_value layer.attrs) × AreAllReadable layers

-- What writing one frame after another does, each of one layer.
pub record AllWritten (layers : List Layer) (w : Worker) : Type 0 where
  pub made : List Entry
  pub after : Worker
  pub run : write_frames (stacks layers) w ≡ (ok tt, after)
  pub tokens : Extends w.tokens after.tokens
  pub attrs : Extends w.attrs after.attrs
  pub writer : after.writer ≡ w.writer
  pub entries : after.entries ≡ w.entries ++ made
  pub entered : AreEntered after.tokens after.attrs made layers

write_frames-cons :
    (layer : Layer) (rest : List (List Layer)) (w w' w'' : Worker)
    → write (layer ∷ []) w ≡ (ok tt, w')
    → write_frames rest w' ≡ (ok tt, w'')
    → write_frames ((layer ∷ []) ∷ rest) w ≡ (ok tt, w'')
unfolding write_frames
write_frames-cons layer rest w w' w'' e f = bind_ok _ _ e f

pub write_frames_lem :
    (layers : List Layer) (w : Worker) → AreAllReadable layers → AllWritten layers w
write_frames_lem [] w h = record {
  made = [];
  after = w;
  run = unfold write_frames in refl;
  tokens = Extends_refl w.tokens;
  attrs = Extends_refl w.attrs;
  writer = refl;
  entries = sym (append-nil w.entries);
  entered = AreEntered.nil;
}
write_frames_lem (layer ∷ layers) w h =
    let one = write_lem layer w h.0 in
    let rest = write_frames_lem layers one.after h.1 in
    record {
      made = one.entry ∷ rest.made;
      after = rest.after;
      run = write_frames-cons layer (stacks layers) w one.after rest.after one.run rest.run;
      tokens = Extends_trans w.tokens one.after.tokens rest.after.tokens one.tokens rest.tokens;
      attrs = Extends_trans w.attrs one.after.attrs rest.after.attrs one.attrs rest.attrs;
      writer = rest.writer ∙ one.writer;
      entries =
          rest.entries
          ∙ ap (λ es. es ++ rest.made) one.entries
          ∙ append_assoc w.entries _ rest.made;
      entered =
          AreEntered.cons
            (IsEntered-Extends one.after.tokens rest.after.tokens one.after.attrs rest.after.attrs
              rest.tokens rest.attrs one.entered)
            rest.entered;
    }
