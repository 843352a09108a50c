-- ===== src/Storage/Mem/Laws.antt =====
-- `MemStore` keeps the contract of `ShardStore`.
use shardstore.Common.{◌≡◌, ◌⊎◌, refl, ◌&&◌, ◌||◌, Bytes, List, [], ◌∷◌, length}
use shardstore.Common.{
  str_eq, str_eq_iff, str_eq_refl, if◌then◌else◌, pos, arith, Bool-cases, inl, inr,
}
use shardstore.Common.Assoc.{bytes_eq, keys, mem_key}
use shardstore.Common.Assoc.{lookup-insert, lookup-erase, mem_key-keys}
use shardstore.Errors.{Error, ok, err, shard_not_found, corrupt_shard}
use shardstore.Storage.Header.{ShardKey, ShardHeader}
use shardstore.Storage.ShardStore.{IsShardStore, key_eq, beq_key, beq_key_iff, is_there, header_of}
use shardstore.Storage.Mem.{
  MemStore, MemShard, put_shard, get_shard, verify_shard, delete_shard, list_shards,
}
use shardstore.Storage.Mem.{list_object_shards, write_marker, read_marker, remove_marker, mem_store}
use shardstore.Storage.Mem.{insert_key, sort_keys, keys_of, checked_shard}

pub mem_key-insert_key :
    (k j : ShardKey) (ks : List ShardKey)
    → mem_key k (insert_key j ks) ≡ (beq_key j k || mem_key k ks)
unfolding insert_key mem_key
mem_key-insert_key k j [] = refl
mem_key-insert_key k j (i ∷ ks) = ground (arith, mem_key-insert_key k j ks)

pub mem_key-sort_keys :
    (k : ShardKey) (ks : List ShardKey) → mem_key k (sort_keys ks) ≡ mem_key k ks
unfolding sort_keys mem_key
mem_key-sort_keys k [] = refl
mem_key-sort_keys k (j ∷ ks) =
    ground (arith, mem_key-insert_key k j (sort_keys ks), mem_key-sort_keys k ks)

pub mem_key-keys_of :
    (k : ShardKey) (id : Bytes) (ks : List ShardKey)
    → mem_key k (keys_of id ks) ≡ (mem_key k ks && (str_eq id [] || str_eq k.object_id id))
unfolding keys_of mem_key
mem_key-keys_of k id [] = refl
mem_key-keys_of k id (j ∷ ks) = elim (Bool-cases (beq_key j k)) [
  | inl same ↦ ground (arith, beq_key_iff j k, mem_key-keys_of k id ks)
  | inr differ ↦ ground (arith, mem_key-keys_of k id ks)
]

module _ (sha256 : Bytes → Bytes) where
  get-put :
      (s : MemStore) (k : ShardKey) (h : ShardHeader) (d : Bytes) (j : ShardKey)
      → k.object_id ≡ h.object_id
      → h.data_len ≡ pos (length d)
      → get_shard sha256 (put_shard sha256 s k h d).1 j
        ≡ (if beq_key k j then ok (d, record h { checksum = sha256 d }) else get_shard sha256 s j)
  unfolding get_shard put_shard checked_shard
  get-put s k h d j e l =
      let shard : MemShard = record { h = record h { checksum = sha256 d }; payload = d } in
      ground (
        arith,
        str_eq_iff k.object_id h.object_id,
        lookup-insert k j shard s.shards,
        str_eq_refl (sha256 d),
      )

  put_ok :
      (s : MemStore) (k : ShardKey) (h : ShardHeader) (d : Bytes)
      → k.object_id ≡ h.object_id
      → h.data_len ≡ pos (length d)
      → (put_shard sha256 s k h d).0 ≡ ok tt
  unfolding put_shard
  put_ok s k h d e l = rw (e, l, str_eq_refl) (ground arith)

  read_marker-put :
      (s : MemStore) (k : ShardKey) (h : ShardHeader) (d : Bytes) (id : Bytes)
      → read_marker (put_shard sha256 s k h d).1 id ≡ read_marker s id
  unfolding put_shard read_marker
  read_marker-put s k h d id = ground arith

  verify_lem :
      (s : MemStore) (k : ShardKey) → verify_shard sha256 s k ≡ header_of (get_shard sha256 s k)
  unfolding verify_shard get_shard checked_shard
  verify_lem s k = ground arith

  delete_ok :
      (s : MemStore) (k : ShardKey)
      → (delete_shard s k).0
        ≡ (if is_there (get_shard sha256 s k) then ok tt else err shard_not_found)
  unfolding delete_shard get_shard checked_shard
  delete_ok s k = ground arith

  get-delete :
      (s : MemStore) (k j : ShardKey)
      → get_shard sha256 (delete_shard s k).1 j
        ≡ (if beq_key k j then err shard_not_found else get_shard sha256 s j)
  unfolding delete_shard get_shard checked_shard
  get-delete s k j = ground (arith, lookup-erase k j s.shards, beq_key_iff k j)

  read_marker-delete :
      (s : MemStore) (k : ShardKey) (id : Bytes)
      → read_marker (delete_shard s k).1 id ≡ read_marker s id
  unfolding delete_shard read_marker
  read_marker-delete s k id = ground arith

  list_lem :
      (s : MemStore) (id : Bytes)
      → (ks : List ShardKey) × (list_object_shards s id ≡ ok ks)
        × ((k : ShardKey)
            → mem_key k ks
              ≡ (is_there (get_shard sha256 s k) && (str_eq id [] || str_eq k.object_id id)))
  unfolding list_object_shards list_shards get_shard checked_shard
  list_lem s id = (
    keys_of id (sort_keys (keys s.shards)),
    refl,
    λ k. rw (mem_key-keys_of, mem_key-sort_keys, mem_key-keys) (ground arith),
  )

-- The errors of `GetShard`.
pub get_shard-cases :
    (sha256 : Bytes → Bytes) (s : MemStore) (k : ShardKey) (x : Error)
    → get_shard sha256 s k ≡ err x
    → (x ≡ shard_not_found) ⊎ (x ≡ corrupt_shard)
unfolding get_shard checked_shard
get_shard-cases sha256 s k x h = ground arith

-- `MemStore` keeps every law of the `ShardStore` contract.
pub mem_store-IsShardStore : (sha256 : Bytes → Bytes) → IsShardStore sha256 (mem_store sha256)
unfolding write_marker read_marker remove_marker get_shard
mem_store-IsShardStore sha256 = record {
  put_ok = put_ok sha256;
  get-put = get-put sha256;
  read_marker-put = read_marker-put sha256;
  verify_lem = verify_lem sha256;
  delete_ok = delete_ok sha256;
  get-delete = get-delete sha256;
  read_marker-delete = read_marker-delete sha256;
  list_lem = list_lem sha256;
  write_marker_ok = λ s id m. refl;
  read-write_marker = λ s id m j. ground (arith, lookup-insert id j m s.markers);
  get-write_marker = λ s id m k. refl;
  remove_marker_ok = λ s id. refl;
  read-remove_marker = λ s id j. ground (arith, lookup-erase id j s.markers);
  get-remove_marker = λ s id k. refl;
}
