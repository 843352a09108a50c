-- ===== src/Storage/Recovery/Damage.antt =====
-- Loss of shards, and what a stored object still gives.
use shardstore.Common.{ℕ, ◌+◌, ◌≤◌, ◌<◌, ◌≡◌, refl, ◌∙◌, arith, inl, inr, ◌⊎◌, Bool-cases, true}
use shardstore.Common.{Bytes, List, [], ◌∷◌, length}
use shardstore.Errors.{
  is_corrupt_shard, is_shard_not_found, Error, Result, ok, err, shard_not_found, corrupt_shard,
  object_not_found, unrecoverable, eof, out_of_fuel, panic, message, wrap,
}
use shardstore.Ec.{Encoder}
use shardstore.Ec.ReedSolomon.{IsErasureCode}
use shardstore.Storage.Header.{ShardKey}
use shardstore.Storage.ShardStore.{ShardStore, IsShardStore, is_there, beq_key}
use shardstore.Storage.Object.{key_of, is_lost}
use shardstore.Storage.Recovery.Shards.{AllIntact, IntactOrGone, count_ok}
use shardstore.Storage.Recovery.Reading.{AllReadable}
use shardstore.Storage.Recovery.Writing.{AllStored}

-- From `s` to `s'` the object `id` lost at most shards, by deletion or by corruption.
pub record IsDamaged {S : Type 0} (st : ShardStore S) (id : Bytes) (s s' : S) : Type 0 where
  pub shards :
      (j : ShardKey)
      → j.object_id ≡ id
      → (st.get_shard s' j ≡ st.get_shard s j)
        ⊎ ((e : Error) × (is_there (st.get_shard s j) ≡ true)
            × (st.get_shard s' j ≡ err e)
            × (is_lost e ≡ true))
  pub marker : st.read_marker s' id ≡ st.read_marker s id

module _ {S : Type 0} (st : ShardStore S) (id : Bytes) (s s' : S)
    (damage : IsDamaged st id s s') where
  IntactOrGone-IsDamaged :
      (idx n i : ℕ) (c : List Bytes) → AllIntact st id idx n s i c → IntactOrGone st id idx n s' i c
  IntactOrGone-IsDamaged idx n i [] t = tt
  IntactOrGone-IsDamaged idx n i (d ∷ c) ((h, e, l), t) =
      elim (damage.shards (key_of id idx i) refl) [
        | inl same ↦ (inl (h, same ∙ e, l), IntactOrGone-IsDamaged idx n (i + 1) c t)
        | inr (x, there, lost, is) ↦ (inr (x, lost, is), IntactOrGone-IsDamaged idx n (i + 1) c t)
      ]

  -- While k shards of every stripe can be read, the object can.
  pub AllReadable-IsDamaged :
      (sha256 : Bytes → Bytes) (law : IsShardStore sha256 st) (k m : ℕ) (e : Encoder)
      (code : IsErasureCode k m e.enc) (hk : 1 ≤ k) (small : k + m ≤ 256) (idx : ℕ)
      (xs : List Bytes)
      → AllStored sha256 st law k m e code hk small s id idx xs
      → ((i : ℕ) → idx ≤ i → i < idx + length xs → k ≤ count_ok st id i s' (k + m) 0)
      → AllReadable st k m e code hk small s' id idx xs
  AllReadable-IsDamaged sha256 law k m e code hk small idx [] w h = tt
  AllReadable-IsDamaged sha256 law k m e code hk small idx (x ∷ xs) (w, ws) h = (
    record {
      nonempty = w.nonempty;
      codeword = w.codeword;
      is_codeword = w.is_codeword;
      shards = IntactOrGone-IsDamaged idx (length x) 0 w.codeword w.shards;
      enough = rw w.is_codeword.shape.count_eq (h idx (omega arith) (omega arith));
    },
    AllReadable-IsDamaged sha256 law k m e code hk small (idx + 1) xs ws
        (λ i lo hi. h i (omega arith) (omega arith)),
  )

pub there_or_not {ℓ} : {A : Type ℓ} (r : Result A) → (is_there r ≡ true) ⊎ (r ≡ err shard_not_found)
there_or_not (ok a) = inl refl
there_or_not (err shard_not_found) = inr refl
there_or_not (err corrupt_shard) = inl refl
there_or_not (err object_not_found) = inl refl
there_or_not (err unrecoverable) = inl refl
there_or_not (err eof) = inl refl
there_or_not (err out_of_fuel) = inl refl
there_or_not (err (panic t)) = inl refl
there_or_not (err (message t)) = inl refl
there_or_not (err (wrap t e)) = inl refl

-- Deleting a shard is damage.
pub IsDamaged-delete_shard :
    {S : Type 0} (sha256 : Bytes → Bytes) (st : ShardStore S) (law : IsShardStore sha256 st)
    (id : Bytes) (s : S) (k : ShardKey)
    → IsDamaged st id s (st.delete_shard s k).1
unfolding is_lost is_corrupt_shard is_shard_not_found
IsDamaged-delete_shard sha256 st law id s k = record {
  shards = λ j mine. elim (Bool-cases (beq_key k j)) [
    | inr differ ↦ inl (law.get-delete s k j ∙ rw differ refl)
    | inl same ↦ elim (there_or_not (st.get_shard s j)) [
      | inl there ↦ inr (shard_not_found, there, law.get-delete s k j ∙ rw same refl, refl)
      | inr gone ↦ inl (law.get-delete s k j ∙ rw (same, gone) refl)
    ]
  ];
  marker = law.read_marker-delete s k id;
}
