-- ===== src/Storage/Object/Write.antt =====
-- `PutObject`, `DeleteObject` and `ObjectShards` of internal/storage/object.go.
use shardstore.Common.{ℕ, zero, suc, ◌+◌, ◌-◌, ◌==◌, ltb, if◌then◌else◌}
use shardstore.Common.{Bytes, List, [], ◌∷◌, length}
use shardstore.Common.{ℤ, pos, pos_part, ltb_ℤ}
use shardstore.Errors.{Result, ok, err, message, out_of_fuel}
use shardstore.Errors.{◌>>=◌, and_then, wrap_step, wrap_err}
use shardstore.Reader.{read_full}
use shardstore.Ec.ReedSolomon.{Engine}
use shardstore.Ec.{Encoder, new_encoder, encode}
use shardstore.Storage.Header.{ShardKey}
use shardstore.Storage.ShardStore.{ShardStore}
use shardstore.Storage.Object.Types.{
  EcParams, ObjectStore, to_ec_params, wrap_32, key_of, header_for,
}

module _ {S : Type 0} (st : ShardStore S) where
  -- The loop of `putStripe` over the shards from number `i` on.
  unfoldable pub put_shards : EcParams → Bytes → ℕ → ℕ → ℕ → List Bytes → S → Result (Unit {0}) × S
  put_shards p id stripe_idx stripe_len i [] s = (ok tt, s)
  put_shards p id stripe_idx stripe_len i (d ∷ shards) s =
      and_then
        (wrap_step "storage: put shard" (
          st.put_shard s (key_of id stripe_idx i)
            (header_for p id stripe_idx i stripe_len (length d)) d))
        λ _ s'. put_shards p id stripe_idx stripe_len (i + 1) shards s'

  -- `putStripe`
  unfoldable pub put_stripe : ObjectStore → Encoder → Bytes → ℕ → Bytes → S → Result (Unit {0}) × S
  unfolding put_shards
  put_stripe o enc id stripe_idx stripe s =
      and_then (encode enc stripe, s)
        λ shards s. put_shards o.params id stripe_idx (length stripe) 0 shards s

  -- The loop of `PutObject`, by fuel. It returns the number of stripes.
  unfoldable pub put_loop : ℕ → ObjectStore → Encoder → Bytes → Bytes → ℕ → ℕ → S → Result ℕ × S
  put_loop zero o enc id r stripe_idx remaining s =
      if remaining == 0 then (ok stripe_idx, s) else (err out_of_fuel, s)
  put_loop (suc fuel) o enc id r stripe_idx remaining s =
      let n = if ltb remaining o.stripe_size then remaining else o.stripe_size in
      let round =
        and_then (wrap_err "storage: read input" (read_full n r), s)
          λ got s.
            and_then (put_stripe o enc id stripe_idx got.0 s)
              λ _ s'. put_loop fuel o enc id got.1 (wrap_32 (stripe_idx + 1)) (remaining - n) s' in
      if remaining == 0 then (ok stripe_idx, s) else round

  -- `DeleteObject`'s loop.
  unfoldable pub delete_shards : List ShardKey → S → Result (Unit {0}) × S
  delete_shards [] s = (ok tt, s)
  delete_shards (k ∷ ks) s = and_then (st.delete_shard s k) (λ _ s'. delete_shards ks s')

  unfoldable pub delete_object : S → Bytes → Result (Unit {0}) × S
  unfolding delete_shards
  delete_object s id = elim (st.list_object_shards s id) [
    | err e ↦ (err e, s)
    | ok keys ↦ and_then (delete_shards keys s) (λ _ s'. st.remove_marker s' id)
  ]

  unfoldable pub object_shards : S → Bytes → Result (List ShardKey)
  object_shards s id = do
    keys ← st.list_object_shards s id
    elim keys [ [] ↦ (do meta ← st.read_marker s id; ok []) | k ∷ ks ↦ ok (k ∷ ks) ]

  module _ (new_engine : ℤ → ℤ → Result Engine) where
    -- `PutObject` of `size` bytes from the reader `r`.
    unfoldable pub put_object : ObjectStore → S → Bytes → Bytes → ℤ → Result (Unit {0}) × S
    unfolding put_loop
    put_object o s id r size =
        if length id == 0
        then (err (message "storage: empty object id"), s)
        else if ltb_ℤ size (pos 0)
        then (err (message "storage: negative size"), s)
        else elim (new_encoder new_engine (to_ec_params o.params)) [
          | err e ↦ (err e, s)
          | ok enc ↦
              and_then (put_loop (pos_part size) o enc id r 0 (pos_part size) s) λ stripes s'.
                st.write_marker s' id
                  (record { size = size; stripes = stripes; params = to_ec_params o.params })
        ]
