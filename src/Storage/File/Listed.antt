-- ===== src/Storage/File/Listed.antt =====
-- The keys that the walk of a `FileStore` finds, and the largest stripe number of a listing.
use shardstore.Common.{
  ◌≡◌, refl, sym, ap, ◌∙◌, arith, true, Bytes, List, [], ◌∷◌, All, inl, inr, Bool-cases,
}
use shardstore.Common.Assoc.{mem_key}
use shardstore.Common.Search.{has_suffix}
use shardstore.Errors.{ok}
use shardstore.Storage.Header.{ShardKey}
use shardstore.Storage.ShardStore.{key_eq, beq_key, beq_key_iff}
use shardstore.Storage.Mem.{sort_keys, keys_of}
use shardstore.Storage.Mem.Laws.{mem_key-sort_keys, mem_key-keys_of}
use shardstore.Storage.File.{FilePath, FileStore, walk, list_shards, list_object_shards}
use shardstore.Storage.File.Names.{parse-shard_file_name, shard_suffix}
use shardstore.Storage.File.Paths.{IsKey}
use shardstore.Storage.File.Consistency.{IsFile, other, shard, IsConsistent, key_of-shard_file}

module _ (sha256 : Bytes → Bytes) (in_use : Bytes → Type 0) where
  walk-IsKey :
      (files : List (FilePath × Bytes))
      → All (IsFile sha256 in_use) files
      → (ks : List ShardKey) × (walk files ≡ ok ks)
        × ((k : ShardKey) → mem_key k ks ≡ true → IsKey in_use k)
  unfolding walk mem_key
  walk-IsKey [] h = ([], refl, λ k there. absurd (cc there))
  walk-IsKey ((path, content) ∷ files) (other passed, h) =
      let (ks, found, keys) = walk-IsKey files h in (ks, rw (passed, found) refl, keys)
  walk-IsKey ((path, content) ∷ files) (shard f, h) =
      let (ks, found, keys) = walk-IsKey files h in
      let name = (parse-shard_file_name f.key f.key_IsKey.stripe f.key_IsKey.shard).0 in
      let suffix : has_suffix path.name shard_suffix ≡ true =
        ap (λ (p : FilePath). has_suffix p.name shard_suffix) f.path ∙ name in
      (
        f.key ∷ ks,
        rw (suffix, key_of-shard_file sha256 in_use path content f, found) refl,
        λ k there. elim (Bool-cases (beq_key f.key k)) [
          | inl same ↦ rw (sym ((beq_key_iff f.key k).0 same)) f.key_IsKey
          | inr differ ↦ keys k (ground (arith, there, differ))
        ],
      )

  -- Every key that a consistent store lists is one that is in use.
  pub list-IsKey :
      (s : FileStore) (id : Bytes)
      → IsConsistent sha256 in_use s
      → (ks : List ShardKey) × (list_object_shards s id ≡ ok ks)
        × ((k : ShardKey) → mem_key k ks ≡ true → IsKey in_use k)
  unfolding list_object_shards list_shards
  list-IsKey s id h =
      let (ks, found, keys) = walk-IsKey s.files h in
      (
        keys_of id (sort_keys ks),
        rw found refl,
        λ k there.
            keys k
              (ground (arith, there, mem_key-keys_of k id (sort_keys ks), mem_key-sort_keys k ks)),
      )
