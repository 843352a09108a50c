-- ===== src/Storage/Concurrent/Plan.antt =====
-- The calls that `PutObject` makes, which do not depend on what the store holds.
use shardstore.Common.{ℕ, zero, suc, ◌+◌, ◌-◌, ◌==◌, ltb, if◌then◌else◌}
use shardstore.Common.{Bytes, List, [], ◌∷◌, ◌++◌, length, ℤ, pos, pos_part, ltb_ℤ}
use shardstore.Errors.{Result, ok, err, message, out_of_fuel, and_then, wrap_step, wrap_err}
use shardstore.Reader.{read_full}
use shardstore.Ec.ReedSolomon.{Engine}
use shardstore.Ec.{Encoder, new_encoder, encode}
use shardstore.Storage.ShardStore.{ShardStore}
use shardstore.Storage.ShardStore.Calls.{Call, put, delete, write, remove}
use shardstore.Storage.Object.{EcParams, ObjectStore, to_ec_params, wrap_32, key_of, header_for}

-- Calls to make in order, and what is returned when all of them have succeeded.
abbrev pub Plan : Type 0 → Type 0
Plan A = List Call × Result A

-- A step that does not touch the store, and the plan for its value.
abbrev pub planned : {A B : Type 0} → Result A → (A → Plan B) → Plan B
planned (ok a) f = f a
planned (err e) f = ([], err e)

abbrev pub preceded : {A : Type 0} → List Call → Plan A → Plan A
preceded cs (ds, end) = (cs ++ ds, end)

-- The calls for the shards from number `i` on.
unfoldable pub stripe_calls : EcParams → Bytes → ℕ → ℕ → ℕ → List Bytes → List Call
stripe_calls p id idx len i [] = []
stripe_calls p id idx len i (d ∷ shards) =
    put (key_of id idx i) (header_for p id idx i len (length d)) d
    ∷ stripe_calls p id idx len (i + 1) shards

unfoldable pub loop_plan : ℕ → ObjectStore → Encoder → Bytes → Bytes → ℕ → ℕ → Plan ℕ
unfolding stripe_calls
loop_plan zero o enc id r idx remaining = ([], if remaining == 0 then ok idx else err out_of_fuel)
loop_plan (suc fuel) o enc id r idx remaining =
    let n = if ltb remaining o.stripe_size then remaining else o.stripe_size in
    let round = planned (wrap_err "storage: read input" (read_full n r)) λ got.
      planned (encode enc got.0) λ shards.
        preceded (stripe_calls o.params id idx (length got.0) 0 shards)
          (loop_plan fuel o enc id got.1 (wrap_32 (idx + 1)) (remaining - n)) in
    if remaining == 0 then ([], ok idx) else round

-- The marker comes last.
abbrev pub marked : ObjectStore → Bytes → ℤ → Plan ℕ → Plan (Unit {0})
marked o id size (cs, ok n) = (
  cs ++ write id (record { size = size; stripes = n; params = to_ec_params o.params }) ∷ [],
  ok tt,
)
marked o id size (cs, err e) = (cs, err e)

unfoldable pub put_plan :
    (ℤ → ℤ → Result Engine) → ObjectStore → Bytes → Bytes → ℤ → Plan (Unit {0})
unfolding loop_plan
put_plan new_engine o id r size =
    if length id == 0
    then ([], err (message "storage: empty object id"))
    else if ltb_ℤ size (pos 0)
    then ([], err (message "storage: negative size"))
    else planned (new_encoder new_engine (to_ec_params o.params))
        λ enc. marked o id size (loop_plan (pos_part size) o enc id r 0 (pos_part size))

module _ {S : Type 0} (st : ShardStore S) where
  -- A call with the text that `putStripe` puts before the error of a `PutShard`.
  abbrev pub attempt : S → Call → Result (Unit {0}) × S
  attempt s (put k h d) = wrap_step "storage: put shard" (st.put_shard s k h d)
  attempt s (delete k) = st.delete_shard s k
  attempt s (write id meta) = st.write_marker s id meta
  attempt s (remove id) = st.remove_marker s id

  -- Carrying out a plan: the first error ends it.
  unfoldable pub follow : {A : Type 0} → List Call → Result A → S → Result A × S
  follow [] end s = (end, s)
  follow (c ∷ cs) end s = and_then (attempt s c) (λ _ s'. follow cs end s')
