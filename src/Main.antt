-- ===== src/Main.antt =====
-- cmd/shardstore/main.go: the subcommands, and the object store that a server makes of its configuration.
pub mod Startup
use shardstore.Common.{
  ℕ, ◌+◌, ◌^◌, ◌≤◌, ◌<◌, ◌≡◌, ◌≢◌, ltb_ℤ, refl, arith, Bytes, List, [], ◌∷◌, ◌||◌, codes, str_eq,
  if◌then◌else◌, ℤ, pos, negsuc, pos_part,
}
use shardstore.Errors.{Result, ok, err, message}
use shardstore.Ec.{Encoder, new_encoder}
use shardstore.Ec.ReedSolomon.{Engine}
use shardstore.Ec.Scheme.{Params}
use shardstore.Ec.Scheme
use shardstore.Ec.Created.{scheme_params}
use shardstore.Ec.Validity
use shardstore.Storage.Object.{
  ObjectStore, new_object_store, encoder, to_ec_params, default_stripe_size,
}
use shardstore.Config.{Config, Flag, parse}
use shardstore.Config.Laws.{config_validate_iff, parse-IsParsed}

-- What the process prints.
pub data Printed : Type 0 where
  usage_text version_text : Printed

-- `run`, with `runServer` as an argument.
unfoldable pub run :
    (List Bytes → Result (Unit {0})) → List Bytes → Result (Unit {0}) × List Printed
run run_server [] = (ok tt, usage_text ∷ [])
run run_server (arg ∷ args) =
    if str_eq arg (codes "server")
    then (run_server args, [])
    else if str_eq arg (codes "version")
    then (ok tt, version_text ∷ [])
    else if str_eq arg (codes "help") || str_eq arg (codes "-h") || str_eq arg (codes "--help")
    then (ok tt, usage_text ∷ [])
    else (err (message "unknown subcommand"), usage_text ∷ [])

-- The object store of `runServer`.
unfoldable pub server_store : Config → ObjectStore
server_store cfg =
    new_object_store
      (record { data_shards = cfg.ec_data_shards; parity_shards = cfg.ec_parity_shards })
      cfg.stripe_size

negative_parity :
    (k m : ℕ) → Scheme.validate (record { data_shards = pos k; parity_shards = negsuc m }) ≢ ok tt
unfolding Scheme.validate Scheme.shard_count
negative_parity k m h = ground arith

negative_data :
    (k : ℕ) (m : ℤ) → Scheme.validate (record { data_shards = negsuc k; parity_shards = m }) ≢ ok tt
unfolding Scheme.validate Scheme.shard_count
negative_data k m h = ground arith

positive_size :
    (n : ℤ)
    → 1 ≤ pos_part n
    → (if ltb_ℤ (pos 0) n then pos_part n else default_stripe_size) ≡ pos_part n
positive_size (pos n) h = ground arith
positive_size (negsuc n) h = ground arith

module _ (new_engine : ℤ → ℤ → Result Engine)
    (creates : (k m : ℕ)
      → 1 ≤ k
      → 1 ≤ m
      → k + m ≤ 256
      → (e : Engine) × (new_engine (pos k) (pos m) ≡ ok e)) where
  made :
      (k m : ℤ)
      → pos_part k + pos_part m < 2 ^ 63
      → Scheme.validate (record { data_shards = k; parity_shards = m }) ≡ ok tt
      → (enc : Encoder) × (new_encoder new_engine (record { data_shards = k; parity_shards = m })
          ≡ ok enc)
  unfolding new_encoder
  made (pos k) (pos m) small valid =
      let (hk, hm, h) =
        (Validity.validate_iff (scheme_params k m) (omega arith, omega arith)
            (omega arith, omega arith)).0
          valid in
      let (e, created) = creates k m hk hm (ground (arith, h, small)) in
      (record { enc = e; parm = scheme_params k m }, rw (valid, created) refl)
  made (pos k) (negsuc m) small valid = absurd (negative_parity k m valid)
  made (negsuc k) m small valid = absurd (negative_data k m valid)

  -- The object store of a server whose configuration Parse returned has the configuration's stripe size,
  -- and its encoder is made without a panic, as long as the Reed-Solomon library makes an engine for every
  -- scheme of one or more data and parity shards that are 256 at most, and the sum of the configured
  -- counts fits 63 bits.
  pub encoder-parse :
      (getenv : Bytes → Bytes) (host : Result Bytes) (parse_flags : List Bytes → Result (List Flag))
      (args : List Bytes) (cfg : Config)
      → parse getenv host parse_flags args ≡ ok cfg
      → pos_part cfg.ec_data_shards + pos_part cfg.ec_parity_shards < 2 ^ 63
      → ((server_store cfg).stripe_size ≡ pos_part cfg.stripe_size)
        × ((enc : Encoder) × (encoder new_engine (server_store cfg) ≡ ok enc))
  unfolding server_store new_object_store encoder to_ec_params
  encoder-parse getenv host parse_flags args cfg h small =
      let w = parse-IsParsed getenv host parse_flags args cfg h in
      let (id, dir, scheme, size) = (config_validate_iff cfg).0 w.valid in
      let (enc, created) = made cfg.ec_data_shards cfg.ec_parity_shards small scheme in
      (positive_size cfg.stripe_size size, (enc, rw created refl))
