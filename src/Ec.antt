-- ===== src/Ec.antt =====
-- internal/ec/ec.go: `Encoder` around the Reed-Solomon library.
pub mod Scheme
pub mod ReedSolomon
pub mod Laws
pub mod Created
pub mod Validity
pub mod Cache
use shardstore.Common.{
  ℕ, ◌+◌, ℤ, pos, negsuc, pos_part, neg_part, sub_ℕ, ltb, add_int, ◌==◌, ◌/◌, ◌≡◌,
}
use shardstore.Common.{
  Bool, true, false, if◌then◌else◌, Bytes, List, [], ◌∷◌, ◌++◌, length, drop, replicate,
}
use shardstore.Common.{Option, none, some, ◌&&◌}
use shardstore.Errors.{Error, Result, ok, err, ◌>>=◌, wrap_err, message}
use Scheme.{Params, shard_count, validate}
use ReedSolomon.{Engine}
use mathlib.Core.Option

pub record Encoder : Type 0 where
  pub enc : Engine
  pub parm : Params

-- `reedsolomon.New` is an argument.
module _ (new_engine : ℤ → ℤ → Result Engine) where
  -- `EncoderFor` without its cache.
  unfoldable pub new_encoder : Params → Result Encoder
  new_encoder p = do
    checked ← validate p
    e ← wrap_err "ec: create encoder" (new_engine p.data_shards p.parity_shards)
    ok (record { enc = e; parm = p })

-- a / b on Go ints, for b other than 0: the quotient is cut towards 0.
unfoldable pub div_int : ℤ → ℤ → ℤ
div_int (pos a) (pos b) = pos (a / b)
div_int (pos a) (negsuc b) = sub_ℕ 0 (a / (b + 1))
div_int (negsuc a) (pos b) = sub_ℕ 0 ((a + 1) / b)
div_int (negsuc a) (negsuc b) = pos ((a + 1) / (b + 1))

-- `SplitSize`
unfoldable pub split_size : Encoder → ℤ → ℤ
unfolding div_int
split_size e n =
    if pos_part n + neg_part n == 0
    then pos 0
    else div_int (add_int (add_int n e.parm.data_shards) (negsuc 0)) e.parm.data_shards

-- `Encode`: the data shards, then the parity shards.
unfoldable pub encode : Encoder → Bytes → Result (List Bytes)
encode e stripe =
    if length stripe == 0 then ok (replicate (pos_part (shard_count e.parm)) []) else (do
      shards ← wrap_err "ec: split" (e.enc.split stripe)
      wrap_err "ec: encode" (e.enc.encode shards))

unfoldable pub all_empty : List Bytes → Bool
all_empty [] = true
all_empty (s ∷ shards) = (length s == 0) && all_empty shards

-- `Reconstruct`: an empty shard is a lost one; the shards with the lost ones filled in.
unfoldable pub reconstruct : Encoder → List Bytes → Result (List Bytes)
unfolding all_empty
reconstruct e shards =
    if all_empty shards then ok shards else wrap_err "ec: reconstruct" (e.enc.reconstruct shards)

-- The loop of `ReconstructSome`; `none` is the panic of an index out of range.
unfoldable pub mask : List Bytes → List Bool → Option (List Bytes)
mask [] present = some []
mask (s ∷ shards) [] = none
mask (s ∷ shards) (true ∷ present) = Option.map (λ r. s ∷ r) (mask shards present)
mask (s ∷ shards) (false ∷ present) = Option.map (λ r. [] ∷ r) (mask shards present)

unfoldable pub reconstruct_some : Encoder → List Bytes → List Bool → Option (Result (List Bytes))
unfolding mask reconstruct
reconstruct_some e shards present = Option.map (reconstruct e) (mask shards present)

-- `Verify`
unfoldable pub verify : Encoder → List Bytes → Result Bool
verify e shards = wrap_err "ec: verify" (e.enc.verify shards)

-- `Join`: what `dst` holds afterwards. The engine's output goes to the front of `dst`, which is
-- long enough for it, as the caller is asked to see to.
unfoldable pub join : Encoder → Bytes → List Bytes → ℤ → Result Bytes
join e dst shards size = do
  written ← wrap_err "ec: join" (e.enc.join shards size)
  ok (written ++ drop (length written) dst)

module _ (new_engine : ℤ → ℤ → Result Engine) where
  -- `ShardPayloadLen`
  unfoldable pub shard_payload_len : ℤ → Params → ℤ
  unfolding new_encoder split_size
  shard_payload_len n p = elim (new_encoder new_engine p) [ ok e ↦ split_size e n | err x ↦ pos 0 ]
