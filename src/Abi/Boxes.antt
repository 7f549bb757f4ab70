-- ===== src/Abi/Boxes.antt =====
-- genet-abi/src/decoder.rs, reader.rs, writer.rs and error.rs: the boxes through which the program
-- calls workers of a plug-in. A function of the C interface returns a status and leaves the rest in
-- its out-parameters; of an error only the description crosses. A worker's function is an argument.
pub mod Crossing
use Prim.Native.String.{String}
use genet.Base.{
  ℕ, zero, suc, ◌+◌, List, [], Bool, true, false, Option, none, some, length, if◌then◌else◌, ◌==◌,
}
use genet.Abi.Vec.{Allocator, SafeVec, IntoIter, new, from, into_iter, collect}

-- `error::Error`
pub record Error : Type 0 where
  pub desc : String

-- A `Result` with any error.
pub data Outcome (E : Type 0) (A : Type 0) : Type 0 where
  failed : E → Outcome E A
  passed : A → Outcome E A

-- `decoder::Status`
pub data Status : Type 0 where
  done skip : Status

-- The empty error that an out-parameter holds before the call.
abbrev pub blank : Error
blank = record { desc = "" }

module _ {E : Type 0} (description : E → String) where
  abbrev pub error_of : E → Error
  error_of e = record { desc = description e }

  -- The match of `abi_decode`: the status, and what is left in the error.
  unfoldable pub decode_status : Outcome E Status → Error → ℕ × Error
  decode_status (passed done) error = (2, error)
  decode_status (passed skip) error = (1, error)
  decode_status (failed e) error = (0, error_of e)

  module _ {W P : Type 0} (decode : W → P → W × P × Outcome E Status) where
    -- `abi_decode` of decoder.rs
    unfoldable pub abi_decode : W → P → Error → W × P × (ℕ × Error)
    abi_decode worker parent error =
        let (worker', parent', result) = decode worker parent in
        (worker', parent', decode_status result error)

    -- `WorkerBox::decode` of decoder.rs
    unfoldable pub decode_box : W → P → W × P × Outcome Error Bool
    decode_box worker parent =
        let (worker', parent', (status, error)) = abi_decode worker parent blank in
        (
          worker',
          parent',
          (if status == 2 then passed true else if status == 1 then passed false else failed error),
        )

  module _ {W A : Type 0} (allocator : Allocator A) (read : W → W × Outcome E (List A)) where
    -- The match of `abi_reader_worker_read`: the vector, the error and the status. `none` is a
    -- panic.
    unfoldable pub read_status :
        Outcome E (List A) → SafeVec A → Error → Option (SafeVec A × Error × ℕ)
    read_status (failed e) out error = some (out, error_of e, 0)
    read_status (passed layers) out error = elim (from allocator layers) [
      | none ↦ none
      | some safe ↦ some (safe, error, 1)
    ]

    -- `abi_reader_worker_read` of reader.rs
    unfoldable pub abi_reader_worker_read :
        W → SafeVec A → Error → W × Option (SafeVec A × Error × ℕ)
    abi_reader_worker_read worker out error =
        let (worker', result) = read worker in (worker', read_status result out error)

    -- `into_iter().collect()` of a vector; its length bounds the turns.
    unfoldable pub collect_all : SafeVec A → Option (List A)
    collect_all v = collect (v.len + 1) (into_iter v)

    unfoldable pub read_layers : Option (SafeVec A × Error × ℕ) → Option (Outcome Error (List A))
    read_layers none = none
    read_layers (some (v, error, status)) =
        if status == 0
        then some (failed error)
        else elim (collect_all v) [ none ↦ none | some layers ↦ some (passed layers) ]

    -- `WorkerBox::read` of reader.rs
    unfoldable pub read_box : W → W × Option (Outcome Error (List A))
    read_box worker =
        let (worker', left) = abi_reader_worker_read worker new blank in (worker', read_layers left)

  -- The match of `abi_writer_worker_write` and `abi_writer_worker_end`.
  unfoldable pub call_status : Outcome E (Unit {0}) → Error → ℕ × Error
  call_status (passed u) error = (1, error)
  call_status (failed e) error = (0, error_of e)

  module _ {W S : Type 0} (write : W → ℕ → S → W × Outcome E (Unit {0})) where
    -- `abi_writer_worker_write` of writer.rs
    unfoldable pub abi_writer_worker_write : W → ℕ → S → Error → W × (ℕ × Error)
    abi_writer_worker_write worker index stack error =
        let (worker', result) = write worker index stack in (worker', call_status result error)

    -- `WorkerBox::write` of writer.rs
    unfoldable pub write_box : W → ℕ → S → W × Outcome Error (Unit {0})
    write_box worker index stack =
        let (worker', (status, error)) = abi_writer_worker_write worker index stack blank in
        (worker', (if status == 0 then failed error else passed tt))

  module _ {W : Type 0} (finish : W → W × Outcome E (Unit {0})) where
    -- `abi_writer_worker_end` of writer.rs
    unfoldable pub abi_writer_worker_end : W → Error → W × (ℕ × Error)
    abi_writer_worker_end worker error =
        let (worker', result) = finish worker in (worker', call_status result error)

    -- `WorkerBox::end` of writer.rs
    unfoldable pub end_box : W → W × Outcome Error (Unit {0})
    end_box worker =
        let (worker', (status, error)) = abi_writer_worker_end worker blank in
        (worker', (if status == 0 then failed error else passed tt))

  module _ {C W : Type 0} (make : C → String → Outcome E W) where
    -- The match of `abi_reader_new_worker` and `abi_writer_new_worker`: `out` is left as it is at an
    -- error.
    unfoldable pub make_status : Outcome E W → Option W → Error → Option W × Error × ℕ
    make_status (passed worker) out error = (some worker, error, 1)
    make_status (failed e) out error = (out, error_of e, 0)

    -- `abi_reader_new_worker` of reader.rs and `abi_writer_new_worker` of writer.rs
    unfoldable pub abi_new_worker : C → String → Option W → Error → Option W × Error × ℕ
    abi_new_worker context arg out error = make_status (make context arg) out error

    -- `ReaderBox::new_worker` and `WriterBox::new_worker`. `none` is a use of memory that was not
    -- written.
    unfoldable pub new_worker_box : C → String → Option (Outcome Error W)
    new_worker_box context arg =
        let (out, error, status) = abi_new_worker context arg none blank in
        if status == 1
        then elim out [ none ↦ none | some worker ↦ some (passed worker) ]
        else some (failed error)
