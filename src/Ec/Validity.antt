-- ===== src/Ec/Validity.antt =====
-- Which parameters `Validate` accepts.
use shardstore.Common.{
  ℕ, ◌+◌, ◌^◌, ◌-◌, ◌≤◌, ◌<◌, ◌≡◌, ◌↔◌, ◌⊎◌, arith, ℤ, pos, negsuc, pos_part, add_int, to_int64,
  to_uint64, InInt64,
}
use shardstore.Errors.{ok}
use shardstore.Ec.Scheme.{Params, validate, shard_count}
use shardstore.Ec.Created.{scheme_params}

-- `Validate` accepts, of all parameters whose counts are values of Go's int, negative ones included, exactly those
-- with at least one data shard and at least one parity shard, of which there are at most 256 in all, or so
-- many that the sum does not fit 63 bits.
pub validate_iff :
    (p : Params)
    → InInt64 p.data_shards
    → InInt64 p.parity_shards
    → (validate p ≡ ok tt) ↔ (
        (1 ≤ pos_part p.data_shards)
        × (1 ≤ pos_part p.parity_shards)
        × ((pos_part p.data_shards + pos_part p.parity_shards ≤ 256)
            ⊎ (2 ^ 63 ≤ pos_part p.data_shards + pos_part p.parity_shards)))
unfolding validate shard_count add_int to_int64 to_uint64
validate_iff p hd hp = helper p.data_shards p.parity_shards hd hp
  where
    helper :
        (d q : ℤ)
        → InInt64 d
        → InInt64 q
        → (validate (record { data_shards = d; parity_shards = q }) ≡ ok tt) ↔ (
            (1 ≤ pos_part d)
            × (1 ≤ pos_part q)
            × ((pos_part d + pos_part q ≤ 256) ⊎ (2 ^ 63 ≤ pos_part d + pos_part q)))
    helper (pos k) (pos m) hk hm = ground arith
    helper (pos k) (negsuc m) hk hm = ground arith
    helper (negsuc k) q hk hq = ground arith

-- Where the sum of two positive 64-bit counts does not fit 63 bits, the number of shards wraps: it is
-- negative, 2 ^ 64 less than the sum, and `Validate` accepts the scheme.
pub validate_overflow :
    (k m : ℕ)
    → 1 ≤ k
    → 1 ≤ m
    → k < 2 ^ 63
    → m < 2 ^ 63
    → 2 ^ 63 ≤ k + m
    → (shard_count (scheme_params k m) ≡ negsuc (2 ^ 64 - 1 - (k + m)))
      × (validate (scheme_params k m) ≡ ok tt)
unfolding validate shard_count add_int to_int64 to_uint64
validate_overflow k m hk hm bk bm over = (ground arith, ground arith)
