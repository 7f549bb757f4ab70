-- ===== src/Abi/Result.antt =====
-- `io::Result`, with the errors that the crates make themselves and those of their readers.
use genet.Base.{◌≡◌, refl, ◌⊎◌, inl, inr, Option, none, some}

pub data Error : Type 0 where
  out_of_bounds unexpected_eof wrong_type no_value invalid_utf8 wrong_magic : Error
  -- `error::Error` of genet-abi: the empty one, and the one with the description of an error, which
  -- has neither its kind nor its type.
  blank : Error
  described : Error → Error

-- `Error::new(e.description())`: the description of such an error is the text that it holds.
unfoldable pub describe : Error → Error
describe blank = blank
describe (described e) = described e
describe e = described e

pub data Result {ℓ} (A : Type ℓ) : Type ℓ where
  err : Error → Result A
  ok : A → Result A

infixl 5 ◌>>=◌
abbrev pub ◌>>=◌ {ℓ κ} : {S : Type ℓ} {T : Type κ} → Result S → (S → Result T) → Result T
err e >>= next = err e
ok val >>= next = next val

abbrev pub ok_or {ℓ} : {A : Type ℓ} → Option A → Error → Result A
ok_or none e = err e
ok_or (some a) e = ok a

abbrev pub map_ok {ℓ κ} : {A : Type ℓ} {B : Type κ} → (A → B) → Result A → Result B
map_ok f (ok a) = ok (f a)
map_ok f (err e) = err e

pub Result-cases :
    {A : Type 0} (r : Result A) → ((a : A) × (r ≡ ok a)) ⊎ ((e : Error) × (r ≡ err e))
Result-cases (ok a) = inl (a, refl)
Result-cases (err e) = inr (e, refl)
