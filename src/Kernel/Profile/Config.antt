-- ===== src/Kernel/Profile/Config.antt =====
-- genet-kernel/src/profile.rs: reading the configuration after `set_config`.
use Prim.Native.String.{String}
use text.Mathlib.Text.{◌==◌ as str_eq}
use text.Mathlib.TextEquality.{eq_iff}
use genet.Base.{
  ◌≡◌, refl, inl, inr, List, [], ◌∷◌, ◌++◌, Option, none, some, if◌then◌else◌, Option-cases,
  Bool-cases, arith,
}
use genet.Kernel.Profile.{Profile, find_config, get_config, set_config}

abbrev pub or_else {ℓ} : {A : Type ℓ} → Option A → A → A
or_else (some a) _ = a
or_else none a = a

find_config-append :
    (k key value : String) (config : List (String × String))
    → find_config k (config ++ (key, value) ∷ []) ≡ elim (find_config k config) [
      | some v ↦ some v
      | none ↦ if str_eq key k then some value else none
    ]
unfolding find_config
find_config-append k key value [] = refl
find_config-append k key value ((j, v) ∷ rest) = ground (arith, find_config-append k key value rest)

module _ {D R W : Type 0} where
  -- `set_config` gives a key its value only where it has none: a value that is there stays, and the
  -- other keys keep theirs.
  pub set_config-get_config :
      (p : Profile D R W) (key value k : String)
      → get_config (set_config p key value) k
        ≡ (if str_eq key k then some (or_else (get_config p k) value) else get_config p k)
  unfolding get_config set_config
  set_config-get_config p key value k = elim (Option-cases (find_config key p.config)) [
    | inr (old, e) ↦ elim (Bool-cases (str_eq key k)) [
      | inl t ↦
          let same : key ≡ k = (eq_iff key k).0 t in
          let e2 : find_config k p.config ≡ some old = rw same at e in ground (arith, e, e2, t)
      | inr f ↦ ground (arith, e, f)
    ]
    | inl e ↦ ground (arith, e, find_config-append k key value p.config)
  ]
