-- ===== src/Storage/Recovery/Ending/Errors.antt =====
-- The errors that end the loop of `io.ReadAll`.
use shardstore.Common.{
  ℕ, zero, suc, ◌+◌, ◌≡◌, refl, arith, Bool, true, false, inl, inr, Bool-cases, if◌then◌else◌,
}
use shardstore.Common.{ltb, ltb_ℤ, Bytes, pos}
use shardstore.Errors.{
  Error, Result, ok, err, eof, shard_not_found, corrupt_shard, object_not_found, unrecoverable,
  out_of_fuel, panic, message, wrap, Result-cases, ◌>>=◌, wrap_err,
}
use shardstore.Ec.{Encoder, reconstruct}
use shardstore.Storage.Header.{ShardKey}
use shardstore.Storage.ShardStore.{ShardStore}
use shardstore.Storage.Object.{
  ObjectReader, Gathered, EcParams, key_of, is_lost, gather, load_stripe, restore, after_read,
  add_valid, add_lost,
}
use shardstore.Storage.Recovery.Termination.{ends, ends-wrap_err}

ends-bind :
    {A B : Type 0} (x : Result A) (f : A → Result B)
    → ends x ≡ true
    → ((a : A) → ends (f a) ≡ true)
    → ends (x >>= f) ≡ true
ends-bind (ok a) f h k = k a
ends-bind (err e) f h k = ground (arith, h)

ends-restore : (enc : Encoder) (p : EcParams) (g : Gathered) → ends (restore enc p g) ≡ true
unfolding restore
ends-restore enc p g = elim (Bool-cases (ltb_ℤ (pos g.valid) p.data_shards)) [
  | inl few ↦ rw few refl
  | inr enough ↦ rw enough (
      ends-bind _ _ (repaired (ltb 0 g.lost)) λ shards.
        elim (Bool-cases (ltb_ℤ g.stripe_len (pos 0))) [
          | inl negative ↦ rw negative refl
          | inr positive ↦ rw positive (ends-wrap_err _ _)
        ])
]
  where
    repaired :
        (b : Bool)
        → ends (if b then wrap_err "storage: stripe" (reconstruct enc g.shards) else ok g.shards)
          ≡ true
    repaired true = ends-wrap_err _ _
    repaired false = refl

pub ends-after_read :
    (out : Bytes) (e : Error) (r : ObjectReader)
    (rounds : ObjectReader → Bytes → Bytes × Result (Unit {0}))
    → ends {A = Bytes} (err e) ≡ true
    → ends (after_read out (err e, r) rounds).1 ≡ true
ends-after_read out shard_not_found r rounds h = refl
ends-after_read out corrupt_shard r rounds h = refl
ends-after_read out object_not_found r rounds h = refl
ends-after_read out unrecoverable r rounds h = refl
ends-after_read out eof r rounds h = refl
ends-after_read out out_of_fuel r rounds h = h
ends-after_read out (panic t) r rounds h = refl
ends-after_read out (message t) r rounds h = refl
ends-after_read out (wrap t e) r rounds h = refl

module _ {S : Type 0} (st : ShardStore S) (s : S)
    (reads : (k : ShardKey) → ends (st.get_shard s k) ≡ true) where
  ends-gather :
      (id : Bytes) (idx rounds i : ℕ) (g : Gathered) → ends (gather st id idx rounds i g s) ≡ true
  unfolding gather
  ends-gather id idx zero i g = refl
  ends-gather id idx (suc rounds) i g = elim (Result-cases (st.get_shard s (key_of id idx i))) [
    | inl ((d, h), e) ↦ rw (gather, e) (ends-gather id idx rounds (i + 1) (add_valid g d h))
    | inr (x, e) ↦ elim (Bool-cases (is_lost x)) [
      | inl lost ↦ rw (gather, e, lost) (ends-gather id idx rounds (i + 1) (add_lost g))
      | inr fails ↦ rw (gather, e, fails) (rw e at (reads (key_of id idx i)))
    ]
  ]

  pub ends-load_stripe : (r : ObjectReader) → ends (load_stripe st s r) ≡ true
  unfolding load_stripe
  ends-load_stripe r =
      ends-bind _ _ (ends-gather r.object_id r.stripe_idx _ 0 _)
        (λ g. ends-bind _ _ (ends-restore r.enc r.params g) (λ out. refl))
