-- ===== src/Ec/Scheme.antt =====
-- `Params` of internal/ec/ec.go: the shape of an erasure coding scheme. Counts are Go ints.
use shardstore.Common.{ℤ, pos, ltb_ℤ, add_int}
use shardstore.Common.{if◌then◌else◌}
use shardstore.Errors.{Result, ok, err, message}

pub record Params : Type 0 where
  pub data_shards : ℤ
  pub parity_shards : ℤ

abbrev pub default_params : Params
default_params = record { data_shards = pos 4; parity_shards = pos 2 }

-- `ShardCount`, in 64-bit arithmetic.
unfoldable pub shard_count : Params → ℤ
shard_count p = add_int p.data_shards p.parity_shards

unfoldable pub max_loss : Params → ℤ
max_loss p = p.parity_shards

unfoldable pub validate : Params → Result (Unit {0})
validate p =
    if ltb_ℤ p.data_shards (pos 1)
    then err (message "ec: data shards must be >= 1")
    else if ltb_ℤ p.parity_shards (pos 1)
    then err (message "ec: parity shards must be >= 1")
    else if ltb_ℤ (pos 256) (shard_count p)
    then err (message "ec: total shards exceeds the 256-shard limit of Reed-Solomon")
    else ok tt
