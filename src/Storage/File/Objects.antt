-- ===== src/Storage/File/Objects.antt =====
-- `PutObject` and `GetObject` of internal/storage/object.go over a `FileStore`.
use shardstore.Common.{ℕ, ◌+◌, ◌^◌, ◌≤◌, ◌<◌, ◌≡◌, sym, ap, ◌∙◌, arith}
use shardstore.Common.{Bytes, List, ◌++◌, length, ℤ, pos, All, InInt64}
use shardstore.Errors.{Result, ok, err, shard_not_found}
use shardstore.Ec.ReedSolomon.{Engine}
use shardstore.Ec.Created.{IsScheme}
use shardstore.Storage.Header.{ShardKey}
use shardstore.Storage.Mem.{MemStore, new_mem_store, mem_store}
use shardstore.Storage.Mem.Laws.{mem_store-IsShardStore}
use shardstore.Storage.File.{FileStore, new_file_store, file_store, get_shard}
use shardstore.Storage.File.Paths.{IsApart, IsKey}
use shardstore.Storage.ShardStore.Calls.{Call, calls}
use shardstore.Storage.File.Calls.{IsCall}
use shardstore.Storage.File.Uploads.{IsName, put_plan-IsCall}
use shardstore.Storage.File.Alike.{Alike, Same, new-Alike, follow-Same, calls-Same}
use shardstore.Storage.File.Downloads.{Alike-LooksSame, HasNoShards-Alike, count_ok-Alike}
use shardstore.Storage.File.Harmless.{IsHarmless, calls-IsDamaged}
use shardstore.Storage.Object.{Body, put_object, get_object, read_body}
use shardstore.Storage.Recovery.Shards.{count_ok}
use shardstore.Storage.Recovery.Body.{get_object-IsBodyOf}
use shardstore.Storage.Recovery.SameObject.{get_object_same, read_body_same}
use shardstore.Storage.Recovery.Putting.{store_of, stripes_of, put_object_lem}
use shardstore.Storage.Recovery.Objects.{get_object-put_object}
use shardstore.Storage.Concurrent.Plan.{put_plan}
use shardstore.Storage.Concurrent.Planned.{put_object-put_plan}

module _ (sha256 : Bytes → Bytes) (digest : (d : Bytes) → length (sha256 d) ≡ 32)
    (in_use : Bytes → Type 0) (apart : IsApart sha256 in_use) (new_engine : ℤ → ℤ → Result Engine)
    (k m : ℕ) (w : IsScheme new_engine k m) (size : ℕ) (positive : 1 ≤ size) where
  -- `PutObject` over stores that are alike.
  pub put_object-Same :
      (s : FileStore) (t : MemStore) (id r : Bytes) (n : ℤ)
      → Alike sha256 in_use s t
      → IsName in_use id
      → InInt64 n
      → Same sha256 in_use
          (put_object (file_store sha256) new_engine (store_of k m size) s id r n)
          (put_object (mem_store sha256) new_engine (store_of k m size) t id r n)
  put_object-Same s t id r n a named hn =
      rw
        (
          put_object-put_plan (file_store sha256) new_engine (store_of k m size) s id r n,
          put_object-put_plan (mem_store sha256) new_engine (store_of k m size) t id r n,
        )
        (follow-Same sha256 in_use apart (put_plan new_engine (store_of k m size) id r n).0 _ s t a
          (put_plan-IsCall sha256 digest in_use k m id named new_engine w size positive r n hn))

  -- A `PutObject` of all of `d` after some calls on a new `FileStore`, and calls after it.
  abbrev store_after : List Call → FileStore
  store_after before = (calls (file_store sha256) new_file_store before).1

  abbrev put_after : List Call → Bytes → Bytes → Bytes → Result (Unit {0}) × FileStore
  put_after before id d rest =
      put_object (file_store sha256) new_engine (store_of k m size) (store_after before) id
        (d ++ rest) (pos (length d))

  abbrev left_after : List Call → Bytes → Bytes → Bytes → List Call → FileStore
  left_after before id d rest after =
      (calls (file_store sha256) (put_after before id d rest).1 after).1

  -- Let a `FileStore` be what any calls of its methods made of a new one, and let an id of 1 to 65535 bytes have
  -- no shards there. Then `PutObject` of `d` under this id succeeds, for a scheme for which the library keeps
  -- its documentation and stripes of at least one byte. Let any calls follow that delete shards or are for
  -- other objects, such that k shards of each stripe are left. Then `GetObject` returns the size of `d`, and
  -- reading its body to the end, through buffers of any positive sizes, gives `d` and no error. Digests have 32
  -- bytes, no two ids in use have digests that agree in the first 20, and the keys, headers and metadata of
  -- the calls are of ids in use and hold values that their formats can hold. `d` is shorter than 2 ^ 63 bytes
  -- and makes fewer than 2 ^ 32 stripes; fuel above its length is enough.
  pub get_object-calls-put_object :
      (before : List Call) (id d rest : Bytes) (after : List Call)
      → IsName in_use id
      → All (IsCall sha256 in_use) before
      → All (IsCall sha256 in_use) after
      → All (IsHarmless id) after
      → ((j : ShardKey)
          → IsKey in_use j
          → j.object_id ≡ id
          → get_shard sha256 (store_after before) j ≡ err shard_not_found)
      → length d < 2 ^ 63
      → length (stripes_of size d) < 2 ^ 32
      → ((i : ℕ)
          → i < length (stripes_of size d)
          → k ≤ count_ok (file_store sha256) id i (left_after before id d rest after) (k + m) 0)
      → (sizes : ℕ → ℕ) → ((i : ℕ) → 1 ≤ sizes i)
      → (fuel : ℕ) → length d < fuel
      → ((put_after before id d rest).0 ≡ ok tt)
        × (body : Body) × (get_object
              (file_store sha256)
              new_engine
              (store_of k m size)
              (left_after before id d rest after)
              id
            ≡ ok (body, pos (length d)))
        × (read_body (file_store sha256) sizes fuel (left_after before id d rest after) body
            ≡ (d, ok tt))
  get_object-calls-put_object before id d rest after named hb ha harmless none small few left sizes
        some_room fuel enough =
      let law = mem_store-IsShardStore sha256 in
      let m₀ = (calls (mem_store sha256) new_mem_store before).1 in
      let a₀ =
        calls-Same sha256 in_use apart before new_file_store new_mem_store (new-Alike sha256 in_use)
          hb in
      let (m₁, put, w') =
        put_object_lem sha256 (mem_store sha256) law new_engine k m w size positive m₀ id d rest
          named.id_pos few in
      let (same, a₁) =
        put_object-Same (store_after before) m₀ id (d ++ rest) (pos (length d)) a₀ named
          (small, omega arith) in
      let a₁' : Alike sha256 in_use (put_after before id d rest).1 m₁ = rw put at a₁ in
      let m₂ = (calls (mem_store sha256) m₁ after).1 in
      let s₂ = left_after before id d rest after in
      let a₂ = calls-Same sha256 in_use apart after (put_after before id d rest).1 m₁ a₁' ha in
      let (body, got, bytes) =
        get_object-put_object sha256 (mem_store sha256) law new_engine k m w size positive m₀ m₁ m₂
          id d rest named.id_pos
          (HasNoShards-Alike sha256 in_use apart (store_after before) m₀ a₀ id named.used none)
          small few put (calls-IsDamaged sha256 id after m₁ harmless)
          (λ i h.
            let count =
              count_ok-Alike sha256 in_use apart s₂ m₂ a₂ id named.used i (k + m) (omega arith) in
            rw (sym count) (left i h))
          sizes some_room fuel enough in
      let looks = Alike-LooksSame sha256 in_use apart s₂ m₂ a₂ id named.used in
      let is_body =
        get_object-IsBodyOf (mem_store sha256) id m₂ new_engine (store_of k m size) body
          (pos (length d)) got in
      (
        same ∙ ap (λ t. t.0) put,
        body,
        get_object_same (file_store sha256) (mem_store sha256) id s₂ m₂ looks new_engine
              (store_of k m size)
            ∙ got,
        read_body_same (file_store sha256) (mem_store sha256) id s₂ m₂ looks sizes fuel body is_body
            ∙ bytes,
      )
