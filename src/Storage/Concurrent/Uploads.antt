-- ===== src/Storage/Concurrent/Uploads.antt =====
-- For which object the calls of `PutObject` are.
use shardstore.Common.{ℕ, zero, suc, ◌+◌, ◌-◌, refl, ◌==◌, ltb, if◌then◌else◌, inl, inr, Bool-cases}
use shardstore.Common.{Bytes, List, [], ◌∷◌, length, ℤ, pos, pos_part, ltb_ℤ, All}
use shardstore.Common.{All-append}
use shardstore.Errors.{Result, ok, err, wrap_err}
use shardstore.Reader.{read_full}
use shardstore.Ec.ReedSolomon.{Engine}
use shardstore.Ec.{Encoder, new_encoder, encode}
use shardstore.Storage.Object.{EcParams, ObjectStore, to_ec_params, wrap_32}
use shardstore.Storage.Concurrent.Plan.{Plan, planned, stripe_calls, loop_plan, marked, put_plan}
use shardstore.Storage.Concurrent.Interleaving.{IsUpload}

-- All calls of `PutObject` are of an upload to its object.
module _ (id : Bytes) where
  stripe_calls-IsUpload :
      (p : EcParams) (idx len i : ℕ) (shards : List Bytes)
      → All (IsUpload id) (stripe_calls p id idx len i shards)
  unfolding stripe_calls
  stripe_calls-IsUpload p idx len i [] = tt
  stripe_calls-IsUpload p idx len i (d ∷ shards) =
      ((refl, refl, refl), stripe_calls-IsUpload p idx len (i + 1) shards)

  planned-IsUpload :
      {A B : Type 0} (x : Result A) (p : A → Plan B)
      → ((a : A) → All (IsUpload id) (p a).0)
      → All (IsUpload id) (planned x p).0
  planned-IsUpload (ok a) p h = h a
  planned-IsUpload (err e) p h = tt

  loop_plan-IsUpload :
      (fuel : ℕ) (o : ObjectStore) (enc : Encoder) (r : Bytes) (idx remaining : ℕ)
      → All (IsUpload id) (loop_plan fuel o enc id r idx remaining).0
  unfolding loop_plan
  loop_plan-IsUpload zero o enc r idx remaining = tt
  loop_plan-IsUpload (suc fuel) o enc r idx remaining = elim (Bool-cases (remaining == 0)) [
    | inl done ↦ rw done tt
    | inr more ↦
        let n = if ltb remaining o.stripe_size then remaining else o.stripe_size in
        rw more (
          planned-IsUpload (wrap_err "storage: read input" (read_full n r)) _ λ got.
            planned-IsUpload (encode enc got.0) _ λ shards.
              All-append (IsUpload id) (stripe_calls o.params id idx (length got.0) 0 shards) _
                (stripe_calls-IsUpload o.params idx (length got.0) 0 shards)
                (loop_plan-IsUpload fuel o enc got.1 (wrap_32 (idx + 1)) (remaining - n)))
  ]

  marked-IsUpload :
      (o : ObjectStore) (size : ℤ) (p : Plan ℕ)
      → All (IsUpload id) p.0
      → All (IsUpload id) (marked o id size p).0
  marked-IsUpload o size (cs, ok n) h = All-append (IsUpload id) cs _ h (refl, tt)
  marked-IsUpload o size (cs, err e) h = h

  pub put_plan-IsUpload :
      (new_engine : ℤ → ℤ → Result Engine) (o : ObjectStore) (r : Bytes) (size : ℤ)
      → All (IsUpload id) (put_plan new_engine o id r size).0
  unfolding put_plan
  put_plan-IsUpload new_engine o r size = elim (Bool-cases (length id == 0)) [
    | inl e ↦ rw e tt
    | inr some ↦ elim (Bool-cases (ltb_ℤ size (pos 0))) [
      | inl e ↦ rw (some, e) tt
      | inr signed ↦
          rw (some, signed)
            (planned-IsUpload (new_encoder new_engine (to_ec_params o.params)) _ λ enc.
              marked-IsUpload o size _
                (loop_plan-IsUpload (pos_part size) o enc r 0 (pos_part size)))
    ]
  ]
