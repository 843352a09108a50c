-- ===== src/Errors.antt =====
-- Go errors: the sentinels of internal/storage/header.go, `io.EOF`, other errors by their text (the values
-- that the text interpolates are left out), and wrapping by `fmt.Errorf("…: %w", …)`.
-- Two are no Go errors: `panic` is a panic of the running goroutine, and `out_of_fuel` marks a loop
-- that was given too few rounds.
use shardstore.Common.{Bool, true, false, String, ◌≡◌, refl, ◌⊎◌, inl, inr}

pub data Error : Type 0 where
  shard_not_found corrupt_shard object_not_found unrecoverable eof out_of_fuel : Error
  panic : String → Error
  message : String → Error
  wrap : String → Error → Error

-- `errors.Is(err, ErrShardNotFound)` and its like: the sentinel in the chain of `err`.
unfoldable pub is_shard_not_found : Error → Bool
is_shard_not_found shard_not_found = true
is_shard_not_found (wrap t e) = is_shard_not_found e
is_shard_not_found _ = false

unfoldable pub is_corrupt_shard : Error → Bool
is_corrupt_shard corrupt_shard = true
is_corrupt_shard (wrap t e) = is_corrupt_shard e
is_corrupt_shard _ = false

unfoldable pub is_object_not_found : Error → Bool
is_object_not_found object_not_found = true
is_object_not_found (wrap t e) = is_object_not_found e
is_object_not_found _ = false

-- A Go pair `(value, error)`.
pub data Result {ℓ} (A : Type ℓ) : Type ℓ where
  ok : A → Result A
  err : Error → Result A

infixl 5 ◌>>=◌
abbrev pub ◌>>=◌ {ℓ κ} : {A : Type ℓ} {B : Type κ} → Result A → (A → Result B) → Result B
ok a >>= f = f a
err e >>= f = err e

-- `if err != nil { return fmt.Errorf(text + ": %w", err) }`
abbrev pub wrap_err {ℓ} : {A : Type ℓ} → String → Result A → Result A
wrap_err t (ok a) = ok a
wrap_err t (err e) = err (wrap t e)

-- A step that may fail, and then the rest from the state that it left.
abbrev pub and_then {ℓ κ} :
    {A : Type ℓ} {S B : Type κ} → Result A × S → (A → S → Result B × S) → Result B × S
and_then (ok a, s) f = f a s
and_then (err e, s) f = (err e, s)

-- Wrapping the error of such a step.
abbrev pub wrap_step {ℓ κ} : {A : Type ℓ} {S : Type κ} → String → Result A × S → Result A × S
wrap_step t (ok a, s) = (ok a, s)
wrap_step t (err e, s) = (err (wrap t e), s)

pub Result-cases {ℓ} :
    {A : Type ℓ} (r : Result A) → ((a : A) × (r ≡ ok a)) ⊎ ((e : Error) × (r ≡ err e))
Result-cases (ok a) = inl (a, refl)
Result-cases (err e) = inr (e, refl)
