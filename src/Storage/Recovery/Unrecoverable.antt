-- ===== src/Storage/Recovery/Unrecoverable.antt =====
-- A stripe of which too few shards are left.
use shardstore.Common.{ℕ, zero, suc, ◌+◌, ◌≤◌, ◌<◌, ◌≡◌, refl, ◌∙◌, arith, inl, inr, true, ltb}
use shardstore.Common.{Bytes, [], pos}
use shardstore.Errors.{Result-cases, Error, ok, err, wrap, unrecoverable}
use shardstore.Ec.{Encoder}
use shardstore.Storage.Header.{ShardHeader}
use shardstore.Storage.ShardStore.{ShardStore}
use shardstore.Storage.Object.{
  key_of, is_lost, Gathered, add_valid, add_lost, gather, restore, load_stripe, read,
}
use shardstore.Storage.Recovery.Shards.{count_ok}
use shardstore.Storage.Recovery.Load.{shard_count-params_of, reader_at}

module _ {S : Type 0} (st : ShardStore S) (id : Bytes) (idx : ℕ) (s : S)
    (clear : (i : ℕ) (e : Error)
      → st.get_shard s (key_of id idx i) ≡ err e
      → is_lost e ≡ true) where
  gather-ok :
      (rounds i : ℕ) (g : Gathered) (d : Bytes) (h : ShardHeader)
      → st.get_shard s (key_of id idx i) ≡ ok (d, h)
      → (gather st id idx (suc rounds) i g s ≡ gather st id idx rounds (i + 1) (add_valid g d h) s)
        × (count_ok st id idx s (suc rounds) i ≡ suc (count_ok st id idx s rounds (i + 1)))
  unfolding gather count_ok
  gather-ok rounds i g d h e = (rw (gather, e) refl, rw (count_ok, e) refl)

  gather-err :
      (rounds i : ℕ) (g : Gathered) (x : Error)
      → st.get_shard s (key_of id idx i) ≡ err x
      → (gather st id idx (suc rounds) i g s ≡ gather st id idx rounds (i + 1) (add_lost g) s)
        × (count_ok st id idx s (suc rounds) i ≡ count_ok st id idx s rounds (i + 1))
  unfolding gather count_ok
  gather-err rounds i g x e = (rw (gather, e, clear i x e) refl, rw (count_ok, e) refl)

  -- `loadStripe` counts the shards that it can read.
  gather-valid :
      (rounds i : ℕ) (g : Gathered)
      → (g' : Gathered) × (gather st id idx rounds i g s ≡ ok g')
        × (g'.valid ≡ g.valid + count_ok st id idx s rounds i)
  unfolding gather count_ok
  gather-valid zero i g = (g, refl, omega arith)
  gather-valid (suc rounds) i g = elim (Result-cases (st.get_shard s (key_of id idx i))) [
    | inl ((d, h), got) ↦
        let (g', eq, valid) = gather-valid rounds (i + 1) (add_valid g d h) in
        let (step, count) = gather-ok rounds i g d h got in
        (g', step ∙ eq, omega (arith, valid, count))
    | inr (x, lost) ↦
        let (g', eq, valid) = gather-valid rounds (i + 1) (add_lost g) in
        let (step, count) = gather-err rounds i g x lost in
        (g', step ∙ eq, omega (arith, valid, count))
  ]

  module _ (k m : ℕ) (e : Encoder) (small : k + m ≤ 256) where
    too_few :
        (size total off : ℕ) (buf : Bytes)
        → count_ok st id idx s (k + m) 0 < k
        → load_stripe st s (reader_at k m e id size total idx buf off)
          ≡ err (wrap "storage: stripe" unrecoverable)
    unfolding load_stripe restore
    too_few size total off buf few =
        let start : Gathered = record { shards = []; stripe_len = pos 0; valid = 0; lost = 0 } in
        let (g, gathered, valid) = gather-valid (k + m) 0 start in
        let low : ltb (g.valid + 0) (k + 0) ≡ true = ground (arith, valid) in
        rw (shard_count-params_of k m small, gathered, low) refl

-- When fewer than k shards of the next stripe can be read and every failure to read one says that
-- it is missing or corrupt, `Read` returns an error that wraps `ErrUnrecoverable` and no
-- bytes, and leaves the reader where it was.
pub read_unrecoverable :
    {S : Type 0} (st : ShardStore S) (k m : ℕ) (e : Encoder) (s : S) (id : Bytes)
    (size total idx n : ℕ)
    → k + m ≤ 256
    → idx < total
    → ((i : ℕ) (x : Error) → st.get_shard s (key_of id idx i) ≡ err x → is_lost x ≡ true)
    → count_ok st id idx s (k + m) 0 < k
    → read st s (reader_at k m e id size total idx [] 0) n
      ≡ (err (wrap "storage: stripe" unrecoverable), reader_at k m e id size total idx [] 0)
unfolding read
read_unrecoverable st k m e s id size total idx n small going clear few =
    rw (too_few st id idx s clear k m e small size total 0 [] few) (ground arith)
