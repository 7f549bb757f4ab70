-- ===== src/Abi/Metadata.antt =====
-- genet-abi/src/metadata.rs and genet-abi/src/context.rs: texts that cross the C interface as a
-- pointer and a length. A text is its bytes in UTF-8.
use Prim.Native.String.{String}
use text.Mathlib.Text.{◌==◌ as str_eq}
use native.Mathlib.Nat.{mod-eq_of_lt}
use genet.Base.{
  ℕ, ◌%◌, ◌^◌, ◌<◌, ◌≡◌, refl, ap, ◌∙◌, List, [], ◌∷◌, length, take, take-all, if◌then◌else◌, arith,
}

-- `Metadata`: the bytes at each pointer and behind, and the lengths, which are `u16`.
pub record Metadata : Type 0 where
  pub name_ptr : List ℕ
  pub description_ptr : List ℕ
  pub name_len : ℕ
  pub description_len : ℕ

-- `Metadata::new`
unfoldable pub new : Metadata
new = record { name_ptr = []; description_ptr = []; name_len = 0; description_len = 0 }

unfoldable pub name : Metadata → List ℕ
name m = take m.name_len m.name_ptr

unfoldable pub description : Metadata → List ℕ
description m = take m.description_len m.description_ptr

unfoldable pub set_name : List ℕ → Metadata → Metadata
set_name text m = record m { name_ptr = text; name_len = length text % 2 ^ 16 }

unfoldable pub set_description : List ℕ → Metadata → Metadata
set_description desc m = record m { description_ptr = desc; description_len = length desc % 2 ^ 16 }

-- `Context`, and the lookup of `abi_get_config`
pub record Context : Type 0 where
  pub config : List (String × List ℕ)

unfoldable pub find_config : String → List (String × List ℕ) → List ℕ
find_config key [] = []
find_config key ((k, val) ∷ config) = if str_eq k key then val else find_config key config

-- `Context::get_config`: the bytes at the pointer and the length that came back.
unfoldable pub get_config : Context → String → List ℕ
get_config ctx key = let val = find_config key ctx.config in let len = length val in take len val

take-length_mod : (text : List ℕ) (n : ℕ) → length text < n → take (length text % n) text ≡ text
take-length_mod text n h =
    ap (λ k. take k text) (mod-eq_of_lt h) ∙ take-all (length text) text (omega arith)

-- A name and a description of fewer than 2 ^ 16 bytes are given back, and setting one leaves the
-- other.
pub name-set_name :
    (text desc : List ℕ) (m : Metadata)
    → length text < 2 ^ 16
    → length desc < 2 ^ 16
    → (name (set_description desc (set_name text m)) ≡ text)
      × (description (set_description desc (set_name text m)) ≡ desc)
      × (description (set_name text m) ≡ description m)
unfolding name description set_name set_description
name-set_name text desc m h k =
    (take-length_mod text (2 ^ 16) h, take-length_mod desc (2 ^ 16) k, refl)

-- What comes back of a configured value is all of it.
pub get_config-find_config :
    (ctx : Context) (key : String) → get_config ctx key ≡ find_config key ctx.config
unfolding get_config
get_config-find_config ctx key = take-all _ (find_config key ctx.config) (omega arith)
