-- ===== src/Abi/Boxes/Crossing.antt =====
-- genet-abi/src/decoder.rs, reader.rs and writer.rs: what a call through a box gives.
use Prim.Native.String.{String}
use genet.Base.{ℕ, ◌≡◌, refl, ap, List, Bool, true, false, none, some, length, if◌then◌else◌, ◌==◌}
use genet.Abi.Boxes.{
  Error, Outcome, failed, passed, Status, done, skip, error_of, abi_decode, decode_box,
  decode_status, call_status, make_status, blank, abi_writer_worker_write, write_box,
  abi_writer_worker_end, end_box, abi_new_worker, new_worker_box,
}

-- A result on the other side of the interface: its value, or its error's description.
abbrev pub crossed : {E A B : Type 0} → (E → String) → (A → B) → Outcome E A → Outcome Error B
crossed description f (failed e) = failed (error_of description e)
crossed description f (passed a) = passed (f a)

abbrev pub is_done : Status → Bool
is_done done = true
is_done skip = false

-- The number of layers in a result.
abbrev pub count : {E A : Type 0} → Outcome E (List A) → ℕ
count (failed e) = 0
count (passed layers) = length layers

module _ {E : Type 0} (description : E → String) where
  -- What the box makes of each status.
  done_of_status :
      (r : Outcome E Status)
      → let (status, error) = decode_status description r blank in
        (if status == 2 then passed true else if status == 1 then passed false else failed error)
        ≡ crossed description is_done r
  unfolding decode_status
  done_of_status (failed e) = refl
  done_of_status (passed done) = refl
  done_of_status (passed skip) = refl

  result_of_status :
      (r : Outcome E (Unit {0}))
      → let (status, error) = call_status description r blank in
        (if status == 0 then failed error else passed tt) ≡ crossed description (λ u. u) r
  unfolding call_status
  result_of_status (failed e) = refl
  result_of_status (passed u) = refl

  worker_of_status :
      {C W : Type 0} (make : C → String → Outcome E W) (r : Outcome E W)
      → let (out, error, status) = make_status description make r none blank in
        (if status == 1
          then elim out [ none ↦ none | some worker ↦ some (passed worker) ]
          else some (failed error))
        ≡ some (crossed description (λ w. w) r)
  unfolding make_status
  worker_of_status make (failed e) = refl
  worker_of_status make (passed w) = refl

  -- Decoding, writing, ending and making a worker through the boxes of the C interface give what
  -- the plug-in's own functions give, the worker and the parent that they leave included; of an
  -- error the description is left, and a decoder's status is whether it is done.
  pub boxes_call :
      {C W P S : Type 0} (decode : W → P → W × P × Outcome E Status)
      (write : W → ℕ → S → W × Outcome E (Unit {0})) (finish : W → W × Outcome E (Unit {0}))
      (make : C → String → Outcome E W) (worker : W) (parent : P) (index : ℕ) (stack : S)
      (context : C) (arg : String)
      → (decode_box description decode worker parent ≡ (
        (decode worker parent).0,
        (decode worker parent).1,
        crossed description is_done (decode worker parent).2,
      ))
        × (write_box description write worker index stack ≡ (
          (write worker index stack).0,
          crossed description (λ u. u) (write worker index stack).1,
        ))
        × (end_box description finish worker
            ≡ ((finish worker).0, crossed description (λ u. u) (finish worker).1))
        × (new_worker_box description make context arg
            ≡ some (crossed description (λ w. w) (make context arg)))
  unfolding decode_box abi_decode write_box abi_writer_worker_write end_box abi_writer_worker_end
      new_worker_box abi_new_worker
  boxes_call decode write finish make worker parent index stack context arg = (
    ap (λ r. ((decode worker parent).0, (decode worker parent).1, r))
        (done_of_status (decode worker parent).2),
    ap (λ r. ((write worker index stack).0, r)) (result_of_status (write worker index stack).1),
    ap (λ r. ((finish worker).0, r)) (result_of_status (finish worker).1),
    worker_of_status make (make context arg),
  )
