-- ===== src/Storage/Recovery/Load.antt =====
-- `loadStripe` gives a stripe back while k of its shards can be read.
use shardstore.Common.{ℕ, ◌+◌, ◌-◌, ◌≤◌, ◌≡◌, arith, inl, inr, false}
use shardstore.Common.{◌==◌, Bytes, List, length, pos, if◌then◌else◌, ltb, Bool-cases}
use shardstore.Common.{add_int-pos}
use shardstore.Errors.{ok}
use shardstore.Ec.{Encoder, reconstruct}
use shardstore.Ec.ReedSolomon.{IsErasureCode}
use shardstore.Ec.Laws.{IsCodeword, reconstruct_lem, join_lem, shard_size, shard_size_bounds}
use shardstore.Storage.ShardStore.{ShardStore}
use shardstore.Storage.Object.{EcParams, shard_count, ObjectReader, restore, load_stripe}
use shardstore.Storage.Recovery.Shards.{
  IntactOrGone, count_ok, found, gather_lem, found-Survives, present-found,
}
use shardstore.Storage.Recovery.Shards.{found_all, count_ok-le}

abbrev pub params_of : ℕ → ℕ → EcParams
params_of k m = record { data_shards = pos k; parity_shards = pos m }

pub shard_count-params_of : (k m : ℕ) → k + m ≤ 256 → shard_count (params_of k m) ≡ pos (k + m)
unfolding shard_count
shard_count-params_of k m h = add_int-pos k m (omega arith)

-- The reader of an object, at some stripe, with some of it in the buffer.
abbrev pub reader_at : ℕ → ℕ → Encoder → Bytes → ℕ → ℕ → ℕ → Bytes → ℕ → ObjectReader
reader_at k m e id stripe_size total idx buf off = record {
  enc = e;
  object_id = id;
  params = params_of k m;
  stripe_size = stripe_size;
  total_stripes = total;
  stripe_idx = idx;
  buf = buf;
  off = off;
}

module _ {S : Type 0} (st : ShardStore S) (k m : ℕ) (e : Encoder) (law : IsErasureCode k m e.enc)
    (hk : 1 ≤ k) where
  -- A stripe of at least one byte of which k shards can be read, the others being lost.
  pub record IsReadable (s : S) (id : Bytes) (idx : ℕ) (stripe : Bytes) : Type 0 where
    pub nonempty : 1 ≤ length stripe
    pub codeword : List Bytes
    pub is_codeword : IsCodeword k m e.enc stripe codeword
    pub shards : IntactOrGone st id idx (length stripe) s 0 codeword
    pub enough : k ≤ count_ok st id idx s (length codeword) 0

  module _ (s : S) (id : Bytes) (idx : ℕ) (stripe : Bytes) (w : IsReadable s id idx stripe) where
    the_count : length w.codeword ≡ k + m
    the_count = w.is_codeword.shape.count_eq

    repaired : reconstruct e (found st id idx s (length w.codeword) 0) ≡ ok w.codeword
    repaired =
        reconstruct_lem k m e law hk stripe w.nonempty w.codeword
          (found st id idx s (length w.codeword) 0) w.is_codeword
          (found-Survives st id idx (length stripe) s 0 w.codeword w.shards)
          (omega (
            arith,
            w.enough,
            present-found st id idx (length stripe) s 0 (shard_size (length stripe) k) w.codeword
                (shard_size_bounds (length stripe) k w.nonempty hk).0 w.is_codeword.shape.size_eq
                w.shards,
          ))

    restore_lem :
        restore e (params_of k m) (record {
          shards = found st id idx s (length w.codeword) 0;
          stripe_len =
              if count_ok st id idx s (length w.codeword) 0 == 0
              then pos 0
              else pos (length stripe);
          valid = 0 + count_ok st id idx s (length w.codeword) 0;
          lost = 0 + (length w.codeword - count_ok st id idx s (length w.codeword) 0);
        })
        ≡ ok stripe
    unfolding restore
    restore_lem =
        let count = count_ok st id idx s (length w.codeword) 0 in
        let some_ok : (count == 0) ≡ false = ground (arith, w.enough) in
        let enough : ltb (0 + count + 0) (k + 0) ≡ false = ground (arith, w.enough) in
        let in_range : ltb (length stripe + 0) 0 ≡ false = ground arith in
        let joined = join_lem k m e law hk stripe w.nonempty w.codeword w.is_codeword in
        elim (Bool-cases (ltb 0 (0 + (length w.codeword - count)))) [
          | inl some_lost ↦ rw (some_ok, enough, some_lost, repaired, in_range, joined)
          | inr none_lost ↦
              let all_ok : count ≡ length w.codeword =
                ground (arith, count_ok-le st id idx s (length w.codeword) 0) in
              let whole = found_all st id idx (length stripe) s 0 w.codeword w.shards all_ok in
              rw (some_ok, enough, none_lost, in_range, whole, joined)
        ]

    pub load_stripe_lem :
        (stripe_size total off : ℕ) (buf : Bytes)
        → k + m ≤ 256
        → load_stripe st s (reader_at k m e id stripe_size total idx buf off)
          ≡ ok (reader_at k m e id stripe_size total idx stripe 0)
    unfolding load_stripe
    load_stripe_lem stripe_size total off buf small = rw (
      shard_count-params_of k m small,
      ← the_count,
      gather_lem st id idx (length stripe) s 0 w.codeword _ w.shards,
      restore_lem,
    )
