-- ===== src/Storage/Object/Types.antt =====
-- The types of internal/storage/object.go, and the parts of its methods that need no store.
use shardstore.Common.{ℕ, ◌+◌, ◌*◌, ◌^◌, ◌%◌, ltb, if◌then◌else◌, Bool}
use shardstore.Common.{◌||◌, Bytes, List, [], ◌∷◌, ◌++◌, replicate}
use shardstore.Common.{ℤ, pos, pos_part, ltb_ℤ, to_uint64, add_int}
use shardstore.Errors.{Error}
use shardstore.Errors.{is_shard_not_found, is_corrupt_shard}
use shardstore.Ec.Scheme.{Params}
use shardstore.Ec.{Encoder}
use shardstore.Storage.Header.{ShardKey, ShardHeader}

-- `ECParams` of internal/storage/store.go.
pub record EcParams : Type 0 where
  pub data_shards : ℤ
  pub parity_shards : ℤ

unfoldable pub shard_count : EcParams → ℤ
shard_count p = add_int p.data_shards p.parity_shards

unfoldable pub to_ec_params : EcParams → Params
to_ec_params p = record { data_shards = p.data_shards; parity_shards = p.parity_shards }

-- The field `store` is the argument `st` of the methods. The stripe size is positive, as
-- `NewObjectStore` sees to.
pub record ObjectStore : Type 0 where
  pub params : EcParams
  pub stripe_size : ℕ

abbrev pub default_stripe_size : ℕ
default_stripe_size = 8 * 2 ^ 20

unfoldable pub new_object_store : EcParams → ℤ → ObjectStore
new_object_store params stripe_size = record {
  params = params;
  stripe_size = if ltb_ℤ (pos 0) stripe_size then pos_part stripe_size else default_stripe_size;
}

-- `uint16(n)` and `uint32(n)` of a Go int.
abbrev pub to_uint16 : ℤ → ℕ
to_uint16 n = to_uint64 n % 2 ^ 16

abbrev pub wrap_32 : ℕ → ℕ
wrap_32 n = n % 2 ^ 32

abbrev pub key_of : Bytes → ℕ → ℕ → ShardKey
key_of id stripe_idx i = record { object_id = id; stripe_idx = stripe_idx; shard_idx = wrap_32 i }

-- The header that `putStripe` gives to shard `i`, which holds `len` bytes.
abbrev pub header_for : EcParams → Bytes → ℕ → ℕ → ℕ → ℕ → ShardHeader
header_for p id stripe_idx i stripe_len len = record {
  object_id = id;
  stripe_idx = stripe_idx;
  shard_idx = wrap_32 i;
  data_shards = to_uint16 p.data_shards;
  parity_shards = to_uint16 p.parity_shards;
  stripe_len = pos stripe_len;
  data_len = pos len;
  checksum = replicate 32 0;
}

-- A shard that is counted as lost, and not as a failure of the store.
unfoldable pub is_lost : Error → Bool
is_lost e = is_corrupt_shard e || is_shard_not_found e

-- `maxStripe`
unfoldable pub max_stripe : ℕ → List ShardKey → ℕ
max_stripe m [] = m
max_stripe m (k ∷ ks) = max_stripe (if ltb m k.stripe_idx then k.stripe_idx else m) ks

-- What `loadStripe` has gathered so far.
pub record Gathered : Type 0 where
  pub shards : List Bytes
  pub stripe_len : ℤ
  pub valid : ℕ
  pub lost : ℕ

abbrev pub add_valid : Gathered → Bytes → ShardHeader → Gathered
add_valid g d h = record {
  shards = g.shards ++ d ∷ [];
  stripe_len = h.stripe_len;
  valid = g.valid + 1;
  lost = g.lost;
}

abbrev pub add_lost : Gathered → Gathered
add_lost g = record {
  shards = g.shards ++ [] ∷ [];
  stripe_len = g.stripe_len;
  valid = g.valid;
  lost = g.lost + 1;
}

-- `objectReader`; its field `store` is the argument `st` of the methods.
pub record ObjectReader : Type 0 where
  pub enc : Encoder
  pub object_id : Bytes
  pub params : EcParams
  pub stripe_size : ℕ
  pub total_stripes : ℕ
  pub stripe_idx : ℕ
  pub buf : Bytes
  pub off : ℕ

-- The two readers that `GetObject` returns.
pub data Body : Type 0 where
  empty_reader : Body
  object_reader : ObjectReader → Body
