-- ===== src/Storage/File/Harmless.antt =====
-- Calls that take at most shards from an object, over a `MemStore`.
use shardstore.Common.{◌≡◌, refl, sym, ap, ◌∙◌, inl, inr, Bool-cases}
use shardstore.Common.{Bytes, List, [], ◌∷◌, length, All, str_eq, str_eq_iff}
use shardstore.Storage.Mem
use shardstore.Storage.Mem.{MemStore, mem_store, eq_len}
use shardstore.Storage.Mem.Laws.{mem_store-IsShardStore}
use shardstore.Storage.ShardStore.{ShardStore, is_there}
use shardstore.Storage.ShardStore.Calls.{Call, put, delete, write, remove, call, calls}
use shardstore.Storage.File.Consistency.{eq_len→eq}
use shardstore.Storage.Recovery.Damage.{IsDamaged, IsDamaged-delete_shard}
use shardstore.Storage.Concurrent.Separate.{IsDamaged-SameOn, call-SameOn_ne}

-- Calls for other objects, whether they fail or not, and deletions of any shards.
abbrev pub IsHarmless : Bytes → Call → Type 0
IsHarmless id (put k h d) = ¬ (k.object_id ≡ id)
IsHarmless id (delete k) = Unit
IsHarmless id (write i meta) = ¬ (i ≡ id)
IsHarmless id (remove i) = ¬ (i ≡ id)

IsDamaged-refl : {S : Type 0} (st : ShardStore S) (id : Bytes) (s : S) → IsDamaged st id s s
IsDamaged-refl st id s = record { shards = λ j mine. inl refl; marker = refl }

IsDamaged-trans :
    {S : Type 0} (st : ShardStore S) (id : Bytes) (s t u : S)
    → IsDamaged st id s t
    → IsDamaged st id t u
    → IsDamaged st id s u
IsDamaged-trans st id s t u a b = record {
  shards = λ j mine. elim (a.shards j mine) [
    | inl same ↦ elim (b.shards j mine) [
      | inl same' ↦ inl (same' ∙ same)
      | inr (e, there, lost, is) ↦ inr (e, sym (ap is_there same) ∙ there, lost, is)
    ]
    | inr (e, there, lost, is) ↦ elim (b.shards j mine) [
      | inl same' ↦ inr (e, there, same' ∙ lost, is)
      | inr (e', there', lost', is') ↦ inr (e', there, lost', is')
    ]
  ];
  marker = b.marker ∙ a.marker;
}

module _ (sha256 : Bytes → Bytes) (id : Bytes) where
  put-IsDamaged :
      (m : MemStore) (c : Call)
      → IsHarmless id c
      → IsDamaged (mem_store sha256) id m (call (mem_store sha256) m c).1
  unfolding Mem.put_shard
  put-IsDamaged m (put k h d) other = elim (Bool-cases (str_eq k.object_id h.object_id)) [
    | inr differ ↦ rw differ (IsDamaged-refl (mem_store sha256) id m)
    | inl same_id ↦ elim (Bool-cases (eq_len h.data_len (length d))) [
      | inr differ ↦ rw (same_id, differ) (IsDamaged-refl (mem_store sha256) id m)
      | inl same_len ↦
          IsDamaged-SameOn sha256 (mem_store sha256) (mem_store-IsShardStore sha256) id m _ (
            call-SameOn_ne sha256 (mem_store sha256) (mem_store-IsShardStore sha256) id (put k h d)
              m
              (
                other,
                (str_eq_iff k.object_id h.object_id).0 same_id,
                eq_len→eq h.data_len (length d) same_len,
              ))
    ]
  ]
  put-IsDamaged m (delete k) t =
      IsDamaged-delete_shard sha256 (mem_store sha256) (mem_store-IsShardStore sha256) id m k
  put-IsDamaged m (write i meta) other =
      IsDamaged-SameOn sha256 (mem_store sha256) (mem_store-IsShardStore sha256) id m _ (
        call-SameOn_ne sha256 (mem_store sha256) (mem_store-IsShardStore sha256) id (write i meta) m
          other)
  put-IsDamaged m (remove i) other =
      IsDamaged-SameOn sha256 (mem_store sha256) (mem_store-IsShardStore sha256) id m _ (
        call-SameOn_ne sha256 (mem_store sha256) (mem_store-IsShardStore sha256) id (remove i) m
          other)

  pub calls-IsDamaged :
      (cs : List Call) (m : MemStore)
      → All (IsHarmless id) cs
      → IsDamaged (mem_store sha256) id m (calls (mem_store sha256) m cs).1
  unfolding calls
  calls-IsDamaged [] m h = IsDamaged-refl (mem_store sha256) id m
  calls-IsDamaged (c ∷ cs) m (w, h) =
      IsDamaged-trans (mem_store sha256) id m (call (mem_store sha256) m c).1 _
        (put-IsDamaged m c w) (calls-IsDamaged cs (call (mem_store sha256) m c).1 h)
