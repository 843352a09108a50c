-- ===== src/Examples/Caches.antt =====
-- The cache of `EncoderFor` after one call.
use shardstore.Common.{◌≡◌, []}
use shardstore.Ec.{new_encoder}
use shardstore.Ec.Created.{scheme_params}
use shardstore.Ec.Cache.{encoder_for, empty, call, encoder_for-new_encoder}
use shardstore.Examples.Parity.{new_parity}

-- Two goroutines ask for the same scheme: both load from the empty cache, and the other stores first.
encoder_for-new_encoder_example :
    (encoder_for new_parity []
      (encoder_for new_parity [] [] (scheme_params 2 1)).1
      (scheme_params 2 1)).0
    ≡ new_encoder new_parity (scheme_params 2 1)
encoder_for-new_encoder_example =
    encoder_for-new_encoder new_parity [] (encoder_for new_parity [] [] (scheme_params 2 1)).1
      (scheme_params 2 1) empty (call [] [] empty empty (scheme_params 2 1))
