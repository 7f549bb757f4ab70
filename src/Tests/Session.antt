-- ===== src/Tests/Session.antt =====
-- A session with two plug-ins, and a profile.
use genet.Base.{ℕ, ◌≡◌, refl, true, List, [], ◌∷◌, none, some, if◌then◌else◌, ◌==◌, arith}
use genet.Base.Map.{lookup}
use genet.Kernel.Profile.{
  Profile, Library, loaded, failed, no_symbol, version_mismatch, abi_version, load_library,
}
use genet.Kernel.Profile.Loading.{compatible, has_symbols, with_library, load_library-compatible}
use genet.Kernel.Session.{
  Plugin, created, refused, Session, Request, create_reader, create_writer, close_reader,
  next_handle, request, run,
}
use genet.Kernel.Session.Handles.{IsAscending, run-IsAscending, create_reader-lookup}

abbrev Plugins : Type 0
Plugins = Profile ℕ ℕ ℕ

abbrev library : Library ℕ ℕ ℕ
library = record {
  version = some (abi_version 0 4);
  register_get_token = true;
  register_get_string = true;
  register_get_allocator = true;
  get_decoders = some (1 ∷ 2 ∷ []);
  get_readers = none;
  get_writers = none;
}

abbrev profile : Plugins
profile = record {
  concurrency = 4;
  decoders = [];
  readers = [];
  writers = [];
  config = ("theme", "dark") ∷ [];
}

load_library-compatible_example : load_library (abi_version 0 5) profile (some library) ≡ (
    if compatible 0 5 0 4
    then if has_symbols library
      then (with_library profile library, loaded)
      else (profile, failed no_symbol)
    else (profile, failed version_mismatch))
load_library-compatible_example =
    load_library-compatible 0 5 0 4 profile library (omega arith) (omega arith) refl

-- A reader that takes every argument, and a writer that takes none.
abbrev reader : Plugin ℕ
reader = record { id = "pcap"; new_worker = λ config arg. created 7 }

abbrev writer : Plugin ℕ
writer = record { id = "pcap"; new_worker = λ config arg. refused "no file" }

abbrev session : Session ℕ ℕ ℕ
session = record {
  io_cnt = 0;
  store = record { inputs = []; inputs_trash = [] };
  outputs = [];
  events = [];
}

abbrev requests : List (Request ℕ)
requests =
    create_reader "pcap" "a"
    ∷ create_writer "pcap" "b" none
    ∷ close_reader 1
    ∷ create_reader "pcap" "c"
    ∷ []

run-IsAscending_example : IsAscending 0 (run (reader ∷ []) (writer ∷ []) [] session requests).0
run-IsAscending_example =
    run-IsAscending (reader ∷ []) (writer ∷ []) [] session requests (omega arith)

handles : (run (reader ∷ []) (writer ∷ []) [] session requests).0 ≡ 1 ∷ 0 ∷ 0 ∷ 3 ∷ []
unfolding run request
handles = refl

create_reader-lookup_example :
    let opened = (request (reader ∷ []) (writer ∷ []) [] session (create_reader "pcap" "a")).1 in
    let closed =
      (request (reader ∷ []) (writer ∷ []) [] opened (close_reader (next_handle session))).1 in
    (lookup 1 opened.store.inputs
      ≡ (if next_handle session == 1 then some 7 else lookup 1 session.store.inputs))
    × (lookup 1 closed.store.inputs
        ≡ (if next_handle session == 1 then none else lookup 1 session.store.inputs))
create_reader-lookup_example =
    create_reader-lookup (reader ∷ []) (writer ∷ []) [] session "pcap" "a" 7 1 refl
