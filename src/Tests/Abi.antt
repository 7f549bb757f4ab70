-- ===== src/Tests/Abi.antt =====
-- Runs of the token table, of attributes and of layers.
use Prim.Native.String.{String}
use text.Mathlib.Text.{◌==◌ as str_eq}
use genet.Base.{ℕ, ◌<◌, ◌≡◌, ◌↔◌, refl, List, [], ◌∷◌, length, none, some, arith, if◌then◌else◌}
use genet.Abi.Result.{ok}
use genet.Abi.Variant.{Variant, uint64, big_int, nil}
use genet.Abi.Token
use genet.Abi.Token.{Table, token, string}
use genet.Abi.Token.Interning.{HasRoom, init-IsValid, string-token, token-injective}
use genet.Abi.Attr.{Attr, AttrClass, byte_range, attr_value, try_get}
use genet.Abi.Attr.Crossing.{received, try_get-attr_value}
use genet.Abi.Layer.{Layer, attr, add_attr, resolve, find_attr}
use genet.Abi.Layer.Lookup.{attr-add_attr}

init-HasRoom : HasRoom Token.init
unfolding Token.init
init-HasRoom = omega arith

string-token_example :
    let (t, table) = token Token.init "tcp" in
    (string table t ≡ "tcp")
    × ((u : ℕ) → u < length Token.init.strings → string table u ≡ string Token.init u)
string-token_example = string-token Token.init "tcp" init-HasRoom init-IsValid

again-HasRoom : HasRoom (token Token.init "tcp").1
unfolding Token.init token Token.get_token Token.lookup
again-HasRoom = omega arith

abbrev first_text : String
first_text = "tcp"

abbrev second_text : String
second_text = "udp"

token-injective_example :
    let (t, table) = token Token.init first_text in
    (t ≡ (token table second_text).0) ↔ (first_text ≡ second_text)
token-injective_example =
    token-injective Token.init first_text second_text init-IsValid init-HasRoom again-HasRoom

abbrev class_of : String → Variant → AttrClass
class_of id value = record { id = id; typ = ""; cast = some λ range bytes. ok value }

abbrev attr_of : String → Variant → Attr
attr_of id value = record { class = class_of id value; range = byte_range 0 1; value = none }

try_get-attr_value_example :
    try_get (attr_of "x" (uint64 7)) [] ≡ received (attr_value (attr_of "x" (uint64 7)) [])
unfolding attr_value
try_get-attr_value_example = try_get-attr_value (attr_of "x" (uint64 7)) [] tt

-- A `BigInt` does not come back.
big_int_lost : try_get (attr_of "x" (big_int (1 ∷ []))) [] ≡ ok nil
unfolding try_get
big_int_lost = refl

abbrev layer_of : String → List Attr → Layer
layer_of id attrs = record {
  class = record {
    id = id;
    aliases = record { id = "_.src"; target = "x" } ∷ [];
    headers = attr_of "x" (uint64 1) ∷ [];
  };
  bytes = [];
  attrs = attrs;
  payloads = [];
}

attr-add_attr_example :
    attr (add_attr (layer_of "a" []) (attr_of "x" (uint64 2))) "_.src"
    ≡ (elim (find_attr (resolve (layer_of "a" []).class.aliases "_.src") []) [
      | some old ↦ some old
      | none ↦
          if str_eq "x" (resolve (layer_of "a" []).class.aliases "_.src")
          then some (attr_of "x" (uint64 2))
          else find_attr
              (resolve (layer_of "a" []).class.aliases "_.src")
              (layer_of "a" []).class.headers
    ])
attr-add_attr_example = attr-add_attr (layer_of "a" []) (attr_of "x" (uint64 2)) "_.src"

newer_wins :
    attr (add_attr (layer_of "a" []) (attr_of "x" (uint64 2))) "_.src"
    ≡ some (attr_of "x" (uint64 2))
unfolding attr add_attr resolve find_attr
newer_wins = refl
