-- ===== src/Ec/Cache.antt =====
-- `EncoderFor` of internal/ec/ec.go with its cache, a `sync.Map` that all goroutines share.
use shardstore.Common.{
  ◌≡◌, refl, sym, ◌↔◌, arith, ℤ, pos, negsuc, Bool, true, false, ◌&&◌, List, [], Option, none, some,
  All, ◌==◌,
}
use shardstore.Common.Assoc.{Eq, lookup, insert, All-insert, All-lookup}
use shardstore.Errors.{Result, ok, err, wrap}
use shardstore.Ec.Scheme.{Params, validate}
use shardstore.Ec.ReedSolomon.{Engine}
use shardstore.Ec.{Encoder, new_encoder}

abbrev pub eq_ℤ : ℤ → ℤ → Bool
eq_ℤ (pos a) (pos b) = a == b
eq_ℤ (negsuc a) (negsuc b) = a == b
eq_ℤ _ _ = false

eq_ℤ_iff : (a b : ℤ) → (eq_ℤ a b ≡ true) ↔ (a ≡ b)
eq_ℤ_iff (pos a) (pos b) = ground arith
eq_ℤ_iff (pos a) (negsuc b) = ground arith
eq_ℤ_iff (negsuc a) (pos b) = ground arith
eq_ℤ_iff (negsuc a) (negsuc b) = ground arith

-- The keys are compared as structs.
abbrev pub beq_params : Params → Params → Bool
beq_params p q = eq_ℤ p.data_shards q.data_shards && eq_ℤ p.parity_shards q.parity_shards

pub beq_params→eq : (p q : Params) → beq_params p q ≡ true → p ≡ q
beq_params→eq p q h =
    ground (arith, eq_ℤ_iff p.data_shards q.data_shards, eq_ℤ_iff p.parity_shards q.parity_shards)

pub eq→beq_params : (p q : Params) → p ≡ q → beq_params p q ≡ true
eq→beq_params p q h =
    ground (arith, eq_ℤ_iff p.data_shards q.data_shards, eq_ℤ_iff p.parity_shards q.parity_shards)

instance abbrev pub params_eq : Eq Params
params_eq = record { beq = beq_params; beq_iff = λ p q. (beq_params→eq p q, eq→beq_params p q) }

-- `encCache`
abbrev pub Cache : Type 0
Cache = List (Params × Encoder)

-- `encCache.LoadOrStore(p, e)`
unfoldable pub load_or_store : Params → Encoder → Option Encoder → Cache → Encoder × Cache
load_or_store p e (some actual) c = (actual, c)
load_or_store p e none c = (e, insert p e c)

-- What `EncoderFor` does after `Load`: the encoder that it found, and the cache at `LoadOrStore`.
module _ (new_engine : ℤ → ℤ → Result Engine) where
  abbrev pub store_made : Params → Result Engine → Cache → Result Encoder × Cache
  store_made p (err e) c = (err (wrap "ec: create encoder" e), c)
  store_made p (ok enc) c =
      let (actual, c') = load_or_store p (record { enc = enc; parm = p }) (lookup p c) c in
      (ok actual, c')

  abbrev pub after_load : Params → Option Encoder → Cache → Result Encoder × Cache
  after_load p (some e) c = (ok e, c)
  after_load p none c = store_made p (new_engine p.data_shards p.parity_shards) c

  abbrev pub after_validate :
      Params → Result (Unit {0}) → Option Encoder → Cache → Result Encoder × Cache
  after_validate p (err e) found c = (err e, c)
  after_validate p (ok u) found c = after_load p found c

  -- `EncoderFor`: `before` is the cache at `Load`, `c` the cache at `LoadOrStore`, which other goroutines
  -- may have changed in between; the cache that it leaves.
  unfoldable pub encoder_for : Cache → Cache → Params → Result Encoder × Cache
  unfolding load_or_store
  encoder_for before c p = after_validate p (validate p) (lookup p before) c

  -- The caches that calls of EncoderFor lead to, in any interleaving.
  pub data IsReachable : Cache → Type 0 where
    empty : IsReachable []
    call :
        (before c : Cache)
        → IsReachable before
        → IsReachable c
        → (p : Params) → IsReachable (encoder_for before c p).1

  IsMade : Params × Encoder → Type 0
  IsMade (p, e) = new_encoder new_engine p ≡ ok e

  -- What a call gives and leaves is right.
  IsRight : Params → Result Encoder × Cache → Type 0
  IsRight p (r, c) = (r ≡ new_encoder new_engine p) × All IsMade c

  stored-IsRight :
      (p : Params) (e : Encoder) (c : Cache) (o : Option Encoder)
      → IsMade (p, e)
      → All IsMade c
      → lookup p c ≡ o
      → IsRight p (let (actual, c') = load_or_store p e o c in (ok actual, c'))
  unfolding load_or_store IsRight IsMade
  stored-IsRight p e c (some actual) made hc found =
      (sym (All-lookup IsMade p actual c hc found), hc)
  stored-IsRight p e c none made hc found = (sym made, All-insert IsMade p e c made hc)

  after_load-IsRight :
      (p : Params) (u : Unit {0}) (before c : Cache) (o : Option Encoder)
      → validate p ≡ ok u
      → All IsMade before
      → All IsMade c
      → lookup p before ≡ o
      → IsRight p (after_load p o c)
  unfolding IsRight IsMade new_encoder
  after_load-IsRight p u before c (some e) valid hb hc found =
      (sym (All-lookup IsMade p e before hb found), hc)
  after_load-IsRight p u before c none valid hb hc found =
      helper (new_engine p.data_shards p.parity_shards) refl
    where
      helper :
          (r : Result Engine)
          → new_engine p.data_shards p.parity_shards ≡ r
          → IsRight p (store_made p r c)
      helper (err e) same = (rw (valid, same) refl, hc)
      helper (ok enc) same =
          stored-IsRight p (record { enc = enc; parm = p }) c (lookup p c) (rw (valid, same) refl)
            hc refl

  encoder_for-IsRight :
      (before c : Cache) (p : Params)
      → All IsMade before
      → All IsMade c
      → IsRight p (encoder_for before c p)
  unfolding encoder_for IsRight new_encoder
  encoder_for-IsRight before c p hb hc = helper (validate p) refl
    where
      helper :
          (v : Result (Unit {0}))
          → validate p ≡ v
          → IsRight p (after_validate p v (lookup p before) c)
      helper (err e) same = (rw same refl, hc)
      helper (ok u) same = after_load-IsRight p u before c (lookup p before) same hb hc refl

  reachable-IsMade : (c : Cache) → IsReachable c → All IsMade c
  unfolding IsRight
  reachable-IsMade c empty = tt
  reachable-IsMade _ (call before c hb hc p) =
      (encoder_for-IsRight before c p (reachable-IsMade before hb) (reachable-IsMade c hc)).1

  -- Whatever calls of EncoderFor ran before, and whatever calls ran between the Load and the LoadOrStore
  -- of this one, a call gives the encoder, or the error, that it gives without the cache.
  pub encoder_for-new_encoder :
      (before c : Cache) (p : Params)
      → IsReachable before
      → IsReachable c
      → (encoder_for before c p).0 ≡ new_encoder new_engine p
  unfolding IsRight
  encoder_for-new_encoder before c p hb hc =
      (encoder_for-IsRight before c p (reachable-IsMade before hb) (reachable-IsMade c hc)).0
