-- ===== src/Storage/Object/Read.antt =====
-- `GetObject` and the reader that it returns, of internal/storage/object.go.
use shardstore.Common.{
  ℕ, zero, suc, ◌+◌, ◌-◌, ◌*◌, ◌^◌, ◌%◌, ◌==◌, ltb, leb, if◌then◌else◌, true, false,
}
use shardstore.Common.{Bytes, List, [], ◌∷◌, ◌++◌, length, take, drop, replicate}
use shardstore.Common.{ℤ, pos, pos_part, ltb_ℤ, to_int64, add_int}
use shardstore.Errors.{Result, ok, err, wrap, panic, out_of_fuel, eof, unrecoverable}
use shardstore.Errors.{object_not_found, is_object_not_found}
use shardstore.Errors.{◌>>=◌, wrap_err}
use shardstore.Ec.ReedSolomon.{Engine}
use shardstore.Ec.{Encoder, new_encoder, reconstruct, join}
use shardstore.Storage.Header.{ShardKey}
use shardstore.Storage.ShardStore.{ShardStore}
use shardstore.Storage.Object.Types.{
  EcParams, ObjectStore, shard_count, to_ec_params, wrap_32, key_of,
}
use shardstore.Storage.Object.Types.{
  is_lost, max_stripe, Gathered, add_valid, add_lost, ObjectReader,
}
use shardstore.Storage.Object.Types.{Body, empty_reader, object_reader}

-- What `loadStripe` does with the shards: the stripe. `make` panics for a negative length; that it also
-- does for one beyond the limit of the allocator is left out.
unfoldable pub restore : Encoder → EcParams → Gathered → Result Bytes
restore enc p g =
    if ltb_ℤ (pos g.valid) p.data_shards then err (wrap "storage: stripe" unrecoverable) else (do
      shards ←
          if ltb 0 g.lost
          then wrap_err "storage: stripe" (reconstruct enc g.shards)
          else ok g.shards
      if ltb_ℤ g.stripe_len (pos 0)
          then err (panic "makeslice: len out of range")
          else wrap_err "storage: stripe"
              (join enc (replicate (pos_part g.stripe_len) 0) shards g.stripe_len))

-- The second half of `Read`: copy from the buffer.
unfoldable pub read_buffered : ObjectReader → ℕ → Result Bytes × ObjectReader
read_buffered r n =
    let bs = take n (drop r.off r.buf) in
    let off = r.off + length bs in
    if off == length r.buf
    then (ok bs, record r { stripe_idx = wrap_32 (r.stripe_idx + 1); buf = []; off = 0 })
    else (ok bs, record r { off = off })

-- One round of `io.ReadAll` with what `Read` returned, and the rounds that follow.
abbrev pub after_read :
    Bytes
    → Result Bytes × ObjectReader
    → (ObjectReader → Bytes → Bytes × Result (Unit {0}))
    → Bytes × Result (Unit {0})
after_read out (ok bs, r') rounds = rounds r' (out ++ bs)
after_read out (err eof, r') rounds = (out, ok tt)
after_read out (err e, r') rounds = (out, err e)

-- `if err != nil { panic(err) }`
abbrev pub or_panic : Result Encoder → Result Encoder
or_panic (ok enc) = ok enc
or_panic (err e) = err (panic "invalid EC params")

module _ (new_engine : ℤ → ℤ → Result Engine) where
  -- `encoder`, which panics where the parameters are no scheme.
  unfoldable pub encoder : ObjectStore → Result Encoder
  encoder o = or_panic (new_encoder new_engine (to_ec_params o.params))

module _ {S : Type 0} (st : ShardStore S) where
  -- `lastStripeLen`: the rounds left, and the number of the next shard.
  unfoldable pub last_stripe_len : Bytes → ℕ → ℕ → ℕ → S → Result ℤ
  last_stripe_len id stripe_idx zero i s =
      err (wrap "storage: no valid shards for last stripe" unrecoverable)
  last_stripe_len id stripe_idx (suc rounds) i s =
      elim (st.verify_shard s (key_of id stripe_idx i)) [
        | ok h ↦ ok h.stripe_len
        | err e ↦ elim (is_lost e) [
          | true ↦ last_stripe_len id stripe_idx rounds (i + 1) s
          | false ↦ err e
        ]
      ]

  -- The loop of `loadStripe`: the rounds left, and the number of the next shard.
  unfoldable pub gather : Bytes → ℕ → ℕ → ℕ → Gathered → S → Result Gathered
  gather id stripe_idx zero i g s = ok g
  gather id stripe_idx (suc rounds) i g s = elim (st.get_shard s (key_of id stripe_idx i)) [
    | ok (d, h) ↦ gather id stripe_idx rounds (i + 1) (add_valid g d h) s
    | err e ↦ elim (is_lost e) [
      | true ↦ gather id stripe_idx rounds (i + 1) (add_lost g) s
      | false ↦ err e
    ]
  ]

  unfoldable pub load_stripe : S → ObjectReader → Result ObjectReader
  unfolding gather restore
  load_stripe s r = do
    g ←
        gather r.object_id r.stripe_idx (pos_part (shard_count r.params)) 0
          (record { shards = []; stripe_len = pos 0; valid = 0; lost = 0 }) s
    out ← restore r.enc r.params g
    ok (record r { buf = out; off = 0 })

  -- `Read` into a slice of `n` bytes.
  unfoldable pub read : S → ObjectReader → ℕ → Result Bytes × ObjectReader
  unfolding read_buffered
  read s r n =
      if leb r.total_stripes r.stripe_idx
      then (err eof, r)
      else if r.off == length r.buf
      then elim (load_stripe s r) [
        | err e ↦ (err e, r)
        | ok r' ↦
            if length r'.buf == 0
            then (err eof, record r' { stripe_idx = wrap_32 (r'.stripe_idx + 1) })
            else read_buffered r' n
      ]
      else read_buffered r n

  -- `io.ReadAll`, by fuel: the i-th call of `Read` is given a slice of `sizes i` bytes. The bytes
  -- come with the error, other than EOF, that ended the loop.
  unfoldable pub read_all : (ℕ → ℕ) → ℕ → ℕ → S → ObjectReader → Bytes → Bytes × Result (Unit {0})
  read_all sizes zero i s r out = (out, err out_of_fuel)
  read_all sizes (suc fuel) i s r out =
      after_read out (read s r (sizes i)) (λ r' out'. read_all sizes fuel (i + 1) s r' out')

  unfoldable pub read_body : (ℕ → ℕ) → ℕ → S → Body → Bytes × Result (Unit {0})
  unfolding read_all
  read_body sizes fuel s empty_reader = ([], ok tt)
  read_body sizes fuel s (object_reader r) = read_all sizes fuel 0 s r []

  module _ (new_engine : ℤ → ℤ → Result Engine) where
    -- `GetObject` of an object that has shards.
    unfoldable pub open_object : ObjectStore → S → Bytes → List ShardKey → Result (Body × ℤ)
    unfolding encoder
    open_object o s id keys = do
      let last = max_stripe 0 keys
      let stripes = wrap_32 (last + 1)
      let full = to_int64 (wrap_32 (stripes + 2 ^ 32 - 1) * o.stripe_size % 2 ^ 64)
      last_len ← last_stripe_len id last (pos_part (shard_count o.params)) 0 s
      enc ← encoder new_engine o
      ok (
        object_reader (record {
          enc = enc;
          object_id = id;
          params = o.params;
          stripe_size = o.stripe_size;
          total_stripes = stripes;
          stripe_idx = 0;
          buf = [];
          off = 0;
        }),
        add_int full last_len,
      )

    -- The reader and the size that `GetObject` returns.
    unfoldable pub get_object : ObjectStore → S → Bytes → Result (Body × ℤ)
    unfolding open_object
    get_object o s id = do
      keys ← st.list_object_shards s id
      elim keys [
        | [] ↦ elim (st.read_marker s id) [
          | ok meta ↦ ok (empty_reader, meta.size)
          | err e ↦ if is_object_not_found e then err object_not_found else err e
        ]
        | k ∷ ks ↦ open_object o s id (k ∷ ks)
      ]
