-- ===== src/Storage/File/Refinement.antt =====
-- `FileStore` and `MemStore` under the same calls.
use shardstore.Common.{
  ◌≡◌, refl, sym, ap, ◌∙◌, arith, false, ◌&&◌, Bytes, List, [], ◌∷◌, length, pos, inl, inr,
  Bool-cases,
}
use shardstore.Common.{All, str_eq, str_eq_iff}
use shardstore.Common.Assoc.{mem_key, lookup}
use shardstore.Errors.{ok}
use shardstore.Storage.Header.{ShardKey, ShardHeader}
use shardstore.Storage.Header.RoundTrip.{IsEncodable}
use shardstore.Storage.ShardStore.{key_eq, header_of}
use shardstore.Storage.Mem
use shardstore.Storage.Mem.{MemStore, new_mem_store, mem_store, eq_len}
use shardstore.Storage.Mem.Laws.{mem_store-IsShardStore}
use shardstore.Storage.File.{
  FileStore, new_file_store, file_store, get_shard, verify_shard, list_object_shards, read_marker,
  put_shard, write_marker,
}
use shardstore.Storage.File.Paths.{IsApart, IsKey}
use shardstore.Storage.File.Laws.{get-put, get_shard-delete, delete_ok}
use shardstore.Storage.File.Markers.{
  get_shard-write_marker, get_shard-remove_marker, remove_marker_ok, read_marker-put,
  read_marker-delete, read-write_marker, read-remove_marker,
}
use shardstore.Storage.ShardStore.Calls.{Call, put, delete, write, remove, call, calls}
use shardstore.Storage.File.Calls.{IsCall}
use shardstore.Storage.File.Consistency.{
  IsConsistent, verify_lem, list_lem, eq_len→eq, put_shard-IsConsistent, delete_shard-IsConsistent,
  write_marker-IsConsistent, remove_marker-IsConsistent,
}

module _ (sha256 : Bytes → Bytes) (in_use : Bytes → Type 0) where
  -- Nothing that can be read tells the two stores apart.
  pub record Agree (s : FileStore) (m : MemStore) : Type 0 where
    pub consistent : IsConsistent sha256 in_use s
    pub get :
        (k : ShardKey) → IsKey in_use k → get_shard sha256 s k ≡ (mem_store sha256).get_shard m k
    pub read :
        (id : Bytes) → in_use id → read_marker sha256 s id ≡ (mem_store sha256).read_marker m id

  pub record SameReads (s : FileStore) (m : MemStore) : Type 0 where
    pub get :
        (k : ShardKey) → IsKey in_use k → get_shard sha256 s k ≡ (mem_store sha256).get_shard m k
    pub verify :
        (k : ShardKey)
        → IsKey in_use k
        → verify_shard sha256 s k ≡ (mem_store sha256).verify_shard m k
    pub read :
        (id : Bytes) → in_use id → read_marker sha256 s id ≡ (mem_store sha256).read_marker m id
    pub list :
        (id : Bytes)
        → (ks : List ShardKey) × ((js : List ShardKey) × ((list_object_shards s id ≡ ok ks)
              × (((mem_store sha256).list_object_shards m id ≡ ok js)
                  × ((k : ShardKey) → IsKey in_use k → mem_key k ks ≡ mem_key k js))))

  pub SameReads-Agree :
      (s : FileStore) (m : MemStore) → IsApart sha256 in_use → Agree s m → SameReads s m
  SameReads-Agree s m apart a =
      let mem = mem_store-IsShardStore sha256 in
      record {
        get = a.get;
        read = a.read;
        verify = λ k hk.
            verify_lem sha256 in_use s k hk a.consistent
            ∙ (ap header_of (a.get k hk) ∙ sym (mem.verify_lem m k));
        list = λ id.
            let (ks, listed, here) = list_lem sha256 in_use apart s id a.consistent in
            let (js, found, there) = mem.list_lem m id in
            (
              ks,
              (js, (listed, (found, λ k hk. here k hk ∙ (rw (a.get k hk) refl ∙ sym (there k))))),
            );
      }

  -- What a call on each of two stores that agree has to show.
  abbrev pub Simulated : FileStore → MemStore → Call → Type 0
  Simulated s m c =
      let t = call (file_store sha256) s c in
      let n = call (mem_store sha256) m c in (t.0 ≡ n.0) × Agree t.1 n.1

  module _ (apart : IsApart sha256 in_use) (s : FileStore) (m : MemStore) (a : Agree s m) where
    put_refused :
        (k : ShardKey) (h : ShardHeader) (d : Bytes)
        → (str_eq k.object_id h.object_id && eq_len h.data_len (length d)) ≡ false
        → Simulated s m (put k h d)
    unfolding put_shard Mem.put_shard
    put_refused k h d bad = elim (Bool-cases (str_eq k.object_id h.object_id)) [
      | inr differ ↦ rw differ (refl, a)
      | inl same ↦
          let long : eq_len h.data_len (length d) ≡ false = ground (arith, bad, same) in
          rw (same, long) (refl, a)
    ]

    put_stored :
        (k : ShardKey) (h : ShardHeader) (d : Bytes)
        → IsKey in_use k
        → IsEncodable (record h { checksum = sha256 d })
        → k.object_id ≡ h.object_id
        → h.data_len ≡ pos (length d)
        → Simulated s m (put k h d)
    put_stored k h d hk w id len =
        let mem = mem_store-IsShardStore sha256 in
        (
          (get-put sha256 in_use apart s k k h d hk hk id len w).0
              ∙ sym (mem.put_ok m k h d id len),
          record {
            consistent = put_shard-IsConsistent sha256 in_use s k h d hk w a.consistent;
            get = λ j hj.
                (get-put sha256 in_use apart s k j h d hk hj id len w).1
                ∙ (rw (a.get j hj) refl ∙ sym (mem.get-put m k h d j id len));
            read = λ i hi.
                read_marker-put sha256 in_use apart s k h d i hk id len w
                ∙ (a.read i hi ∙ sym (mem.read_marker-put m k h d i));
          },
        )

    pub simulated : (c : Call) → IsCall sha256 in_use c → Simulated s m c
    unfolding Mem.write_marker write_marker
    simulated (put k h d) (hk, w) =
        elim (Bool-cases (str_eq k.object_id h.object_id && eq_len h.data_len (length d))) [
          | inr bad ↦ put_refused k h d bad
          | inl good ↦
              put_stored k h d hk w ((str_eq_iff k.object_id h.object_id).0 (ground (arith, good)))
                (eq_len→eq h.data_len (length d) (ground (arith, good)))
        ]
    simulated (delete k) hk =
        let mem = mem_store-IsShardStore sha256 in
        (
          delete_ok sha256 in_use apart s k ∙ (rw (a.get k hk) refl ∙ sym (mem.delete_ok m k)),
          record {
            consistent = delete_shard-IsConsistent sha256 in_use s k a.consistent;
            get = λ j hj.
                get_shard-delete sha256 in_use apart s k j hk hj
                ∙ (rw (a.get j hj) refl ∙ sym (mem.get-delete m k j));
            read = λ i hi.
                read_marker-delete sha256 in_use apart s k i hk
                ∙ (a.read i hi ∙ sym (mem.read_marker-delete m k i));
          },
        )
    simulated (write id meta) (hi, (x, (y, w))) =
        let mem = mem_store-IsShardStore sha256 in
        (
          refl,
          record {
            consistent = write_marker-IsConsistent sha256 in_use s id meta a.consistent;
            get = λ j hj.
                get_shard-write_marker sha256 in_use apart s id j meta hj
                ∙ (a.get j hj ∙ sym (mem.get-write_marker m id meta j));
            read = λ i hj.
                read-write_marker sha256 in_use apart s id i x y meta hi hj w
                ∙ (rw (a.read i hj) refl ∙ sym (mem.read-write_marker m id meta i));
          },
        )
    simulated (remove id) hi =
        let mem = mem_store-IsShardStore sha256 in
        (
          remove_marker_ok sha256 in_use apart s id ∙ sym (mem.remove_marker_ok m id),
          record {
            consistent = remove_marker-IsConsistent sha256 in_use s id a.consistent;
            get = λ j hj.
                get_shard-remove_marker sha256 in_use apart s id j hj
                ∙ (a.get j hj ∙ sym (mem.get-remove_marker m id j));
            read = λ i hj.
                read-remove_marker sha256 in_use apart s id i hi hj
                ∙ (rw (a.read i hj) refl ∙ sym (mem.read-remove_marker m id i));
          },
        )

  pub new-Agree : Agree new_file_store new_mem_store
  unfolding get_shard read_marker Mem.get_shard Mem.read_marker lookup
  new-Agree = record { consistent = tt; get = λ k hk. refl; read = λ id hi. refl }

  pub calls-Agree :
      (cs : List Call) (s : FileStore) (m : MemStore)
      → IsApart sha256 in_use
      → Agree s m
      → All (IsCall sha256 in_use) cs
      → ((calls (file_store sha256) s cs).0 ≡ (calls (mem_store sha256) m cs).0)
        × Agree (calls (file_store sha256) s cs).1 (calls (mem_store sha256) m cs).1
  unfolding calls
  calls-Agree [] s m apart a h = (refl, a)
  calls-Agree (c ∷ cs) s m apart a (hc, h) =
      let (same, agree) = simulated apart s m a c hc in
      let (rest, final) =
        calls-Agree cs (call (file_store sha256) s c).1 (call (mem_store sha256) m c).1 apart agree
          h in
      (cc (same, rest), final)

  -- Any calls of the methods that change a store, made one after the other on a new `FileStore` and on a
  -- new `MemStore`, have the same results, and after them the reads agree: `GetShard` and `VerifyShard`
  -- of every key, `ReadMarker` of every id, and `ListObjectShards` of every id, which succeeds on both
  -- and lists the same keys. The keys and ids are those in use, no two of which have digests that agree
  -- in the first 20 bytes, and the headers and metadata hold values that their formats can hold.
  pub calls_lem :
      (cs : List Call)
      → IsApart sha256 in_use
      → All (IsCall sha256 in_use) cs
      → ((calls (file_store sha256) new_file_store cs).0
          ≡ (calls (mem_store sha256) new_mem_store cs).0)
        × SameReads
            (calls (file_store sha256) new_file_store cs).1
            (calls (mem_store sha256) new_mem_store cs).1
  calls_lem cs apart h =
      let (same, agree) = calls-Agree cs new_file_store new_mem_store apart new-Agree h in
      (same, SameReads-Agree _ _ apart agree)
