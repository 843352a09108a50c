-- ===== src/Ec/Created.antt =====
-- Which schemes `EncoderFor` accepts, and the encoder that it makes.
use shardstore.Common.{ℕ, ◌+◌, ◌≤◌, ◌≡◌, ℤ, pos, arith, add_int-pos}
use shardstore.Errors.{Result, ok}
use shardstore.Ec.Scheme.{Params, shard_count, validate}
use shardstore.Ec.ReedSolomon.{Engine, IsErasureCode}
use shardstore.Ec.{Encoder, new_encoder}

-- A scheme of k data and m parity shards for which the library makes an engine that keeps its
-- documentation.
pub record IsScheme (new_engine : ℤ → ℤ → Result Engine) (k m : ℕ) : Type 0 where
  pub engine : Engine
  pub data_pos : 1 ≤ k
  pub parity_pos : 1 ≤ m
  pub small : k + m ≤ 256
  pub created : new_engine (pos k) (pos m) ≡ ok engine
  pub code : IsErasureCode k m engine

abbrev pub scheme_params : ℕ → ℕ → Params
scheme_params k m = record { data_shards = pos k; parity_shards = pos m }

pub validate_ok : (k m : ℕ) → 1 ≤ k → 1 ≤ m → k + m ≤ 256 → validate (scheme_params k m) ≡ ok tt
unfolding validate shard_count
validate_ok k m hk hm h = rw (add_int-pos k m (omega arith)) (ground arith)

module _ (new_engine : ℤ → ℤ → Result Engine) (k m : ℕ) (w : IsScheme new_engine k m) where
  abbrev pub the_encoder : Encoder
  the_encoder = record { enc = w.engine; parm = scheme_params k m }

  pub new_encoder_ok : new_encoder new_engine (scheme_params k m) ≡ ok the_encoder
  unfolding new_encoder
  new_encoder_ok = rw (validate_ok k m w.data_pos w.parity_pos w.small, w.created)
