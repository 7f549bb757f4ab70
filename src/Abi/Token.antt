-- ===== src/Abi/Token.antt =====
-- The token table of genet-abi/src/env.rs and token.rs: a text is interned once and gets a number;
-- number 0 is the empty text. `GLOBAL_TOKENS` and `GLOBAL_STRINGS` are the two fields.
pub mod Interning
use Prim.Native.String.{String}
use text.Mathlib.Text.{◌==◌ as str_eq}
use genet.Base.{
  ℕ, ◌+◌, ◌%◌, ◌^◌, Bool, List, [], ◌∷◌, ◌++◌, length, get_elem?, Option, none, some, if◌then◌else◌,
  ltb, ◌==◌,
}

pub record Table : Type 0 where
  pub tokens : List (String × ℕ)
  pub strings : List String

unfoldable pub init : Table
init = record { tokens = []; strings = "" ∷ [] }

unfoldable pub lookup : String → List (String × ℕ) → Option ℕ
lookup id [] = none
lookup id ((s, t) ∷ m) = if str_eq s id then some t else lookup id m

-- `abi_genet_get_token`
unfoldable pub get_token : Table → String → ℕ × Table
get_token table id =
    let next = (length table.tokens + 1) % 2 ^ 32 in
    let found : ℕ × Table = elim (lookup id table.tokens) [
      | some t ↦ (t, table)
      | none ↦
          (next, record { tokens = (id, next) ∷ table.tokens; strings = table.strings ++ id ∷ [] })
    ] in
    if str_eq id "" then (0, table) else found

-- `abi_genet_get_string`
unfoldable pub get_string : Table → ℕ → String
get_string table token = elim (get_elem? table.strings token) [ some s ↦ s | none ↦ "" ]

-- `Token::from(&str)`
unfoldable pub token : Table → String → ℕ × Table
token table id = if str_eq id "" then (0, table) else get_token table id

-- `Token::to_string`
unfoldable pub string : Table → ℕ → String
string table id = if id == 0 then "" else get_string table id
