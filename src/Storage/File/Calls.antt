-- ===== src/Storage/File/Calls.antt =====
-- What sequences of calls keep of a `FileStore`.
use shardstore.Common.{Bytes, List, [], ◌∷◌, ℕ, All}
use shardstore.Storage.Header.RoundTrip.{IsEncodable}
use shardstore.Storage.Header.Marker.{IsEncodableMeta}
use shardstore.Storage.ShardStore.Calls.{Call, put, delete, write, remove, call, calls}
use shardstore.Storage.File.{FileStore, file_store}
use shardstore.Storage.File.Paths.{IsKey}
use shardstore.Storage.File.Consistency.{
  IsConsistent, put_shard-IsConsistent, delete_shard-IsConsistent, write_marker-IsConsistent,
  remove_marker-IsConsistent,
}

module _ (sha256 : Bytes → Bytes) (in_use : Bytes → Type 0) where
  -- The ids are in use, and the numbers are values of their Go types that the formats can hold.
  abbrev pub IsCall : Call → Type 0
  IsCall (put k h d) = IsKey in_use k × IsEncodable (record h { checksum = sha256 d })
  IsCall (delete k) = IsKey in_use k
  IsCall (write id meta) = in_use id × ((k : ℕ) × ((m : ℕ) × IsEncodableMeta k m meta))
  IsCall (remove id) = in_use id

  call-IsConsistent :
      (s : FileStore) (c : Call)
      → IsCall c
      → IsConsistent sha256 in_use s
      → IsConsistent sha256 in_use (call (file_store sha256) s c).1
  call-IsConsistent s (put k h d) (hk, w) = put_shard-IsConsistent sha256 in_use s k h d hk w
  call-IsConsistent s (delete k) hk = delete_shard-IsConsistent sha256 in_use s k
  call-IsConsistent s (write id meta) w = write_marker-IsConsistent sha256 in_use s id meta
  call-IsConsistent s (remove id) hi = remove_marker-IsConsistent sha256 in_use s id

  -- A `FileStore` in which each file whose name has the suffix .shard is at the path of a key, an id in
  -- use with uint32 indices, and holds a header with the id of that key, the length of the payload and its
  -- checksum, and then the whole payload, is still one after any calls of PutShard, DeleteShard, WriteMarker and RemoveMarker, whether they fail or not, that are
  -- given ids in use, and headers and metadata that hold values that their formats can hold.
  pub calls-IsConsistent :
      (cs : List Call) (s : FileStore)
      → All IsCall cs
      → IsConsistent sha256 in_use s
      → IsConsistent sha256 in_use (calls (file_store sha256) s cs).1
  unfolding calls
  calls-IsConsistent [] s h c = c
  calls-IsConsistent (x ∷ cs) s (hx, h) c =
      calls-IsConsistent cs (call (file_store sha256) s x).1 h (call-IsConsistent s x hx c)
