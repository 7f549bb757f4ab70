-- ===== src/Kernel/Profile/Loading.antt =====
-- genet-kernel/src/profile.rs: which libraries `load_library` takes.
use genet.Base.{
  ℕ, zero, suc, ◌+◌, ◌*◌, ◌/◌, ◌^◌, ◌≡◌, ◌<◌, refl, Bool, true, false, some, if◌then◌else◌, ◌==◌,
  ◌&&◌, ◌++◌, arith,
}
use genet.Kernel.Profile.{
  Profile, Library, loaded, failed, no_symbol, version_mismatch, abi_version, canonical, given,
  load_library,
}

-- Versions with the same interface: the same major number, and before 1.0 the same minor number.
abbrev pub compatible : ℕ → ℕ → ℕ → ℕ → Bool
compatible a b c d = if a == c then (if a == 0 then b == d else true) else false

canonical-abi_version :
    (a b : ℕ) → b < 2 ^ 32 → canonical (abi_version a b) ≡ (if a == 0 then b else a * 2 ^ 32)
unfolding canonical abi_version
canonical-abi_version a b h =
    let high : (a * 2 ^ 32 + b) / 2 ^ 32 ≡ a = omega arith in rw high (ground arith)

halves :
    (a b c d : ℕ)
    → b < 2 ^ 32
    → d < 2 ^ 32
    → ((if a == 0 then b else a * 2 ^ 32) == (if c == 0 then d else c * 2 ^ 32))
      ≡ compatible a b c d
halves zero b zero d h k = refl
halves zero b (suc c) d h k = ground arith
halves (suc a) b zero d h k = ground arith
halves (suc a) b (suc c) d h k = ground arith

canonical-compatible :
    (a b c d : ℕ)
    → b < 2 ^ 32
    → d < 2 ^ 32
    → (canonical (abi_version a b) == canonical (abi_version c d)) ≡ compatible a b c d
canonical-compatible a b c d h k =
    rw (canonical-abi_version a b h, canonical-abi_version c d k) (halves a b c d h k)

module _ {D R W : Type 0} where
  -- The profile with all that a library has behind what is there.
  abbrev pub with_library : Profile D R W → Library D R W → Profile D R W
  with_library p lib = record p {
    decoders = p.decoders ++ given lib.get_decoders;
    readers = p.readers ++ given lib.get_readers;
    writers = p.writers ++ given lib.get_writers;
  }

  -- A library has the version and the three functions that every plug-in has.
  abbrev pub has_symbols : Library D R W → Bool
  has_symbols lib = lib.register_get_token && lib.register_get_string && lib.register_get_allocator

  -- A library that has a version is loaded exactly when its version is compatible with the kernel's,
  -- the same major number and before 1.0 the same minor number, and it has the three functions that
  -- every plug-in has. Its decoders, readers and writers then come behind those that are there. It is
  -- otherwise refused, for its version first, and the profile is left as it was.
  pub load_library-compatible :
      (a b c d : ℕ) (p : Profile D R W) (lib : Library D R W)
      → b < 2 ^ 32
      → d < 2 ^ 32
      → lib.version ≡ some (abi_version c d)
      → load_library (abi_version a b) p (some lib) ≡ (
          if compatible a b c d
          then if has_symbols lib then (with_library p lib, loaded) else (p, failed no_symbol)
          else (p, failed version_mismatch))
  unfolding load_library
  load_library-compatible a b c d p lib h k v = ground (arith, v, canonical-compatible a b c d h k)
