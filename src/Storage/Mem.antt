-- ===== src/Storage/Mem.antt =====
-- `MemStore` of internal/storage/store.go.
pub mod Laws
pub mod Unique
use shardstore.Common.{
  ℕ, ◌≡◌, Bool, true, false, ◌&&◌, ◌||◌, not, Bytes, List, [], ◌∷◌, length, ltb, ◌==◌,
}
use shardstore.Common.{str_eq, str_lt, if◌then◌else◌, Option, none, some, ℤ, pos, String}
use shardstore.Common.Assoc.{Eq, bytes_eq, lookup, insert, erase, keys}
use shardstore.Errors.{
  Error, Result, ok, err, message, shard_not_found, corrupt_shard, object_not_found, ◌>>=◌,
}
use shardstore.Storage.Header.{ShardKey, ShardHeader, ObjectMeta}
use shardstore.Storage.ShardStore.{ShardStore, key_eq}

pub record MemShard : Type 0 where
  pub h : ShardHeader
  pub payload : Bytes

-- Each method holds the lock from its first access to its last, so it is one step.
pub record MemStore : Type 0 where
  pub shards : List (ShardKey × MemShard)
  pub markers : List (Bytes × ObjectMeta)

abbrev pub new_mem_store : MemStore
new_mem_store = record { shards = []; markers = [] }

-- `data_len == int64(len(data))`
abbrev pub eq_len : ℤ → ℕ → Bool
eq_len (pos n) k = n == k
eq_len _ k = false

-- The order by which `ListShards` sorts.
unfoldable pub key_lt : ShardKey → ShardKey → Bool
key_lt a b =
    if not (str_eq a.object_id b.object_id)
    then str_lt a.object_id b.object_id
    else if not (a.stripe_idx == b.stripe_idx)
    then ltb a.stripe_idx b.stripe_idx
    else ltb a.shard_idx b.shard_idx

pub insert_key : ShardKey → List ShardKey → List ShardKey
insert_key k [] = k ∷ []
insert_key k (j ∷ ks) = let rest = insert_key k ks in if key_lt j k then j ∷ rest else k ∷ j ∷ ks

-- `sort.Slice` by `key_lt`.
unfoldable pub sort_keys : List ShardKey → List ShardKey
unfolding insert_key
sort_keys [] = []
sort_keys (k ∷ ks) = insert_key k (sort_keys ks)

-- `for _, k := range all { if objectID == "" || k.ObjectID == objectID { … } }`
unfoldable pub keys_of : Bytes → List ShardKey → List ShardKey
keys_of id [] = []
keys_of id (k ∷ ks) =
    let rest = keys_of id ks in if str_eq id [] || str_eq k.object_id id then k ∷ rest else rest

-- `crypto/sha256` is an argument.
module _ (sha256 : Bytes → Bytes) where
  unfoldable pub put_shard :
      MemStore → ShardKey → ShardHeader → Bytes → Result (Unit {0}) × MemStore
  put_shard s key h d =
      if not (str_eq key.object_id h.object_id)
      then (err (message "storage: key/header object id mismatch"), s)
      else if not (eq_len h.data_len (length d))
      then (err (message "storage: payload len != header DataLen"), s)
      else (
        ok tt,
        record s {
          shards =
              insert key (record { h = record h { checksum = sha256 d }; payload = d }) s.shards;
        },
      )

  checked_shard : Option MemShard → Result MemShard
  checked_shard none = err shard_not_found
  checked_shard (some x) =
      if not (str_eq (sha256 x.payload) x.h.checksum) then err corrupt_shard else ok x

  -- With `ErrCorruptShard` the source also returns the header, which no caller reads.
  unfoldable pub get_shard : MemStore → ShardKey → Result (Bytes × ShardHeader)
  unfolding checked_shard
  get_shard s key = do x ← checked_shard (lookup key s.shards); ok (x.payload, x.h)

  unfoldable pub verify_shard : MemStore → ShardKey → Result ShardHeader
  unfolding checked_shard
  verify_shard s key = do x ← checked_shard (lookup key s.shards); ok x.h

unfoldable pub delete_shard : MemStore → ShardKey → Result (Unit {0}) × MemStore
delete_shard s key = elim (lookup key s.shards) [
  | none ↦ (err shard_not_found, s)
  | some x ↦ (ok tt, record s { shards = erase key s.shards })
]

unfoldable pub list_shards : MemStore → Result (List ShardKey)
unfolding sort_keys
list_shards s = ok (sort_keys (keys s.shards))

unfoldable pub list_object_shards : MemStore → Bytes → Result (List ShardKey)
unfolding list_shards keys_of
list_object_shards s id = do all ← list_shards s; ok (keys_of id all)

unfoldable pub write_marker : MemStore → Bytes → ObjectMeta → Result (Unit {0}) × MemStore
write_marker s id meta = (ok tt, record s { markers = insert id meta s.markers })

unfoldable pub read_marker : MemStore → Bytes → Result ObjectMeta
read_marker s id = elim (lookup id s.markers) [ none ↦ err object_not_found | some m ↦ ok m ]

unfoldable pub remove_marker : MemStore → Bytes → Result (Unit {0}) × MemStore
remove_marker s id = (ok tt, record s { markers = erase id s.markers })

abbrev pub mem_store : (Bytes → Bytes) → ShardStore MemStore
mem_store sha256 = record {
  put_shard = put_shard sha256;
  get_shard = get_shard sha256;
  verify_shard = verify_shard sha256;
  delete_shard = delete_shard;
  list_shards = list_shards;
  list_object_shards = list_object_shards;
  write_marker = write_marker;
  read_marker = read_marker;
  remove_marker = remove_marker;
}
