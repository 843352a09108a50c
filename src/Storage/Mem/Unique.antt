-- ===== src/Storage/Mem/Unique.antt =====
-- The listing of a `MemStore`, and `DeleteObject` on it.
use shardstore.Common.{
  ◌≤◌, ◌≡◌, refl, ◌∙◌, arith, ◌||◌, Bool, true, false, Bytes, List, [], ◌∷◌, ℤ, length, str_eq,
  if◌then◌else◌, Bool-cases, inl, inr, Option, none, some,
}
use shardstore.Common.Assoc.{
  mem_key, IsUnique, IsUnique-insert, IsUnique-erase, lookup, erase, keys,
}
use shardstore.Errors.{Result, ok, err, object_not_found, shard_not_found}
use shardstore.Ec.ReedSolomon.{Engine}
use shardstore.Storage.Header.{ShardKey, ShardHeader}
use shardstore.Storage.ShardStore.{key_eq, beq_key_iff}
use shardstore.Storage.Object.{ObjectStore, delete_object, get_object}
use shardstore.Storage.Mem.{
  MemStore, MemShard, new_mem_store, mem_store, eq_len, sort_keys, insert_key, keys_of, key_lt,
  put_shard, delete_shard, write_marker, remove_marker, list_shards, list_object_shards,
}
use shardstore.Storage.Mem.Laws.{
  mem_key-insert_key, mem_key-sort_keys, mem_key-keys_of, mem_store-IsShardStore,
}
use mathlib.Core.Path.{subst}
use shardstore.Storage.Recovery.Cleanup.{ListsOnce}
use shardstore.Storage.Recovery.Deleting.{get_object-delete_object, IsGone}
use shardstore.Storage.ShardStore.Calls.{Call, put, delete, write, remove, call, calls}

IsUnique-if :
    (b : Bool) (ks js : List ShardKey) → IsUnique ks → IsUnique js → IsUnique (if b then ks else js)
IsUnique-if true ks js hk hj = hk
IsUnique-if false ks js hk hj = hj

IsUnique-insert_key :
    (k : ShardKey) (ks : List ShardKey)
    → mem_key k ks ≡ false
    → IsUnique ks
    → IsUnique (insert_key k ks)
unfolding insert_key mem_key IsUnique
IsUnique-insert_key k [] new u = (refl, tt)
IsUnique-insert_key k (j ∷ ks) new (first, u) =
    let rest = IsUnique-insert_key k ks (ground (arith, new)) u in
    let later : mem_key j (insert_key k ks) ≡ false =
      ground (arith, mem_key-insert_key j k ks, new, first, beq_key_iff k j, beq_key_iff j k) in
    IsUnique-if (key_lt j k) (j ∷ insert_key k ks) (k ∷ j ∷ ks) (later, rest) (new, (first, u))

IsUnique-sort_keys : (ks : List ShardKey) → IsUnique ks → IsUnique (sort_keys ks)
unfolding sort_keys IsUnique
IsUnique-sort_keys [] u = tt
IsUnique-sort_keys (k ∷ ks) (new, u) =
    IsUnique-insert_key k (sort_keys ks) (mem_key-sort_keys k ks ∙ new) (IsUnique-sort_keys ks u)

IsUnique-keys_of : (id : Bytes) (ks : List ShardKey) → IsUnique ks → IsUnique (keys_of id ks)
unfolding keys_of IsUnique
IsUnique-keys_of id [] u = tt
IsUnique-keys_of id (k ∷ ks) (new, u) =
    let rest = IsUnique-keys_of id ks u in
    IsUnique-if (str_eq id [] || str_eq k.object_id id) (k ∷ keys_of id ks) (keys_of id ks)
      (mem_key-keys_of k id ks ∙ rw new refl, rest) rest

module _ (sha256 : Bytes → Bytes) where
  abbrev pub HasUniqueKeys : MemStore → Type 0
  HasUniqueKeys s = IsUnique (keys s.shards)

  put_shard-HasUniqueKeys :
      (s : MemStore) (k : ShardKey) (h : ShardHeader) (d : Bytes)
      → HasUniqueKeys s
      → HasUniqueKeys (put_shard sha256 s k h d).1
  unfolding put_shard
  put_shard-HasUniqueKeys s k h d u = elim (Bool-cases (str_eq k.object_id h.object_id)) [
    | inr differ ↦ rw differ u
    | inl same ↦ elim (Bool-cases (eq_len h.data_len (length d))) [
      | inr differ ↦ rw (same, differ) u
      | inl long ↦
          let shard : MemShard = record { h = record h { checksum = sha256 d }; payload = d } in
          rw (same, long) (IsUnique-insert k shard s.shards u)
    ]
  ]

  delete_shard-HasUniqueKeys :
      (s : MemStore) (k : ShardKey) → HasUniqueKeys s → HasUniqueKeys (delete_shard s k).1
  unfolding delete_shard
  delete_shard-HasUniqueKeys s k u = helper (lookup k s.shards)
    where
      helper :
          (o : Option MemShard)
          → IsUnique (
              keys
                (elim o as (λ x. Result (Unit {0}) × MemStore) [
                  | none ↦ (err shard_not_found, s)
                  | some x ↦ (ok tt, record s { shards = erase k s.shards })
                ]).1.shards)
      helper none = u
      helper (some x) = IsUnique-erase k s.shards u

  call-HasUniqueKeys :
      (s : MemStore) (c : Call) → HasUniqueKeys s → HasUniqueKeys (call (mem_store sha256) s c).1
  unfolding write_marker remove_marker
  call-HasUniqueKeys s (put k h d) u = put_shard-HasUniqueKeys s k h d u
  call-HasUniqueKeys s (delete k) u = delete_shard-HasUniqueKeys s k u
  call-HasUniqueKeys s (write id meta) u = u
  call-HasUniqueKeys s (remove id) u = u

  calls-HasUniqueKeys :
      (cs : List Call) (s : MemStore)
      → HasUniqueKeys s
      → HasUniqueKeys (calls (mem_store sha256) s cs).1
  unfolding calls
  calls-HasUniqueKeys [] s u = u
  calls-HasUniqueKeys (c ∷ cs) s u =
      calls-HasUniqueKeys cs (call (mem_store sha256) s c).1 (call-HasUniqueKeys s c u)

  IsUnique-listed :
      (s : MemStore) (id : Bytes)
      → HasUniqueKeys s
      → IsUnique (keys_of id (sort_keys (keys s.shards)))
  IsUnique-listed s id u =
      IsUnique-keys_of id (sort_keys (keys s.shards)) (IsUnique-sort_keys (keys s.shards) u)

  pub mem_store-ListsOnce : ListsOnce (mem_store sha256) HasUniqueKeys
  unfolding list_object_shards list_shards
  mem_store-ListsOnce = record {
    unique = λ s id ks u listed. subst IsUnique (ground (arith, listed)) (IsUnique-listed s id u);
    kept = call-HasUniqueKeys;
  }

  -- On a `MemStore` that any calls of PutShard, DeleteShard, WriteMarker and RemoveMarker made of a new
  -- one, `DeleteObject` of an id that is not empty succeeds, leaves no shard and no marker of the object
  -- and those of the others as they were, and `GetObject` of the id then says that there is no such object.
  pub delete_object-calls :
      (new_engine : ℤ → ℤ → Result Engine) (o : ObjectStore) (cs : List Call) (id : Bytes)
      → 1 ≤ length id
      → (s' : MemStore) × ((delete_object
              (mem_store sha256)
              (calls (mem_store sha256) new_mem_store cs).1
              id
            ≡ (ok tt, s'))
          × ((get_object (mem_store sha256) new_engine o s' id ≡ err object_not_found)
              × IsGone sha256
                  (mem_store sha256)
                  (mem_store-IsShardStore sha256)
                  id
                  (calls (mem_store sha256) new_mem_store cs).1
                  s'))
  unfolding list_object_shards list_shards keys IsUnique
  delete_object-calls new_engine o cs id some_id =
      let s = (calls (mem_store sha256) new_mem_store cs).1 in
      let u = calls-HasUniqueKeys cs new_mem_store tt in
      get_object-delete_object sha256 (mem_store sha256) (mem_store-IsShardStore sha256) new_engine
        o s id (keys_of id (sort_keys (keys s.shards))) some_id refl (IsUnique-listed s id u)
