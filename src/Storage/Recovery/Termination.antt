-- ===== src/Storage/Recovery/Termination.antt =====
-- The rounds of the loop of `PutObject`.
use shardstore.Common.{◌≡◌, refl, Bool, true, false, String}
use shardstore.Errors.{Result, ok, err, out_of_fuel, wrap_err}
use shardstore.Storage.ShardStore.{ShardStore}

-- No round was missing.
abbrev pub ends {ℓ} : {A : Type ℓ} → Result A → Bool
ends (ok a) = true
ends (err out_of_fuel) = false
ends (err _) = true

pub ends-wrap_err : {A : Type 0} (t : String) (x : Result A) → ends (wrap_err t x) ≡ true
ends-wrap_err t (ok a) = refl
ends-wrap_err t (err e) = refl
