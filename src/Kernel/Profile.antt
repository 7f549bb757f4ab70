-- ===== src/Kernel/Profile.antt =====
-- genet-kernel/src/profile.rs: the plug-ins and the configuration of a session. A library that is
-- loaded is what its symbols give; a library that cannot be opened is an argument `none`.
pub mod Loading
pub mod Config
use Prim.Native.String.{String}
use text.Mathlib.Text.{◌==◌ as str_eq}
use genet.Base.{
  ℕ, ◌+◌, ◌*◌, ◌/◌, ◌^◌, Bool, true, false, not, ◌&&◌, List, [], ◌∷◌, ◌++◌, Option, none, some,
  if◌then◌else◌, ◌==◌, ltb,
}

-- `D`, `R` and `W` are decoders, readers and writers.
pub record Profile (D R W : Type 0) : Type 0 where
  pub concurrency : ℕ
  pub decoders : List D
  pub readers : List R
  pub writers : List W
  pub config : List (String × String)

pub record Library (D R W : Type 0) : Type 0 where
  -- `genet_abi_version`
  pub version : Option ℕ
  -- whether the three functions that register the token table and the allocator are there
  pub register_get_token : Bool
  pub register_get_string : Bool
  pub register_get_allocator : Bool
  pub get_decoders : Option (List D)
  pub get_readers : Option (List R)
  pub get_writers : Option (List W)

pub data LoadError : Type 0 where
  no_library no_symbol version_mismatch : LoadError

-- The result of `load_library`.
pub data Loaded : Type 0 where
  loaded : Loaded
  failed : LoadError → Loaded

-- `genet_abi_version` of genet-abi/src/env.rs
unfoldable pub abi_version : ℕ → ℕ → ℕ
abi_version major minor = major * 2 ^ 32 + minor

-- `ver & (0xffff_ffff << 32)` is the high half.
unfoldable pub canonical : ℕ → ℕ
canonical ver = if ver / 2 ^ 32 == 0 then ver else ver / 2 ^ 32 * 2 ^ 32

unfoldable pub find_config : String → List (String × String) → Option String
find_config key [] = none
find_config key ((k, v) ∷ rest) = if str_eq k key then some v else find_config key rest

abbrev pub given : {A : Type 0} → Option (List A) → List A
given none = []
given (some xs) = xs

module _ {D R W : Type 0} where
  unfoldable pub new : Profile D R W
  new = record { concurrency = 4; decoders = []; readers = []; writers = []; config = [] }

  -- `num_cpus` is the number of processors.
  unfoldable pub set_concurrency : ℕ → Profile D R W → ℕ → Profile D R W
  set_concurrency num_cpus p concurrency = record p {
    concurrency = if ltb 0 concurrency then concurrency else num_cpus;
  }

  unfoldable pub get_config : Profile D R W → String → Option String
  get_config p key = find_config key p.config

  -- `entry(key).or_insert_with(..)`
  unfoldable pub set_config : Profile D R W → String → String → Profile D R W
  set_config p key value = elim (find_config key p.config) [
    | some old ↦ p
    | none ↦ record p { config = p.config ++ (key, value) ∷ [] }
  ]

  -- The three parts that push what a library has.
  abbrev pub push_decoders : Library D R W → Profile D R W → Profile D R W
  push_decoders lib p = record p { decoders = p.decoders ++ given lib.get_decoders }

  abbrev pub push_readers : Library D R W → Profile D R W → Profile D R W
  push_readers lib p = record p { readers = p.readers ++ given lib.get_readers }

  abbrev pub push_writers : Library D R W → Profile D R W → Profile D R W
  push_writers lib p = record p { writers = p.writers ++ given lib.get_writers }

  -- The profile that the call leaves, and its result. `version` is the kernel's own.
  unfoldable pub load_library : ℕ → Profile D R W → Option (Library D R W) → Profile D R W × Loaded
  load_library version p none = (p, failed no_library)
  load_library version p (some lib) = elim lib.version [
    | none ↦ (p, failed no_symbol)
    | some ver ↦
        if not (canonical version == canonical ver)
        then (p, failed version_mismatch)
        else if not (lib.register_get_token)
        then (p, failed no_symbol)
        else if not (lib.register_get_string)
        then (p, failed no_symbol)
        else if not (lib.register_get_allocator)
        then (p, failed no_symbol)
        else (push_writers lib (push_readers lib (push_decoders lib p)), loaded)
  ]
