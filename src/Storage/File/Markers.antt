-- ===== src/Storage/File/Markers.antt =====
-- What the operations of `FileStore` do to the markers that can be read.
use shardstore.Common.{ℕ, ◌≡◌, refl, ap, ◌∙◌, arith, Bytes, [], ◌++◌, length, pos}
use shardstore.Common.{none, some, if◌then◌else◌, str_eq, str_eq_iff}
use shardstore.Common.Assoc.{lookup, erase, lookup-insert}
use shardstore.Errors.{ok, err, shard_not_found, object_not_found}
use shardstore.Storage.Header.{
  ShardKey, ShardHeader, ObjectMeta, encode_object_meta, decode_object_meta,
}
use shardstore.Storage.Header.RoundTrip.{IsEncodable, decode-encode_shard_header}
use shardstore.Storage.Header.Marker.{IsEncodableMeta, decode-encode_object_meta}
use shardstore.Storage.File.{
  path_eq, FileStore, shard_path, marker_path, beq_path, put_shard, get_shard, delete_shard,
  write_marker, read_marker, remove_marker,
}
use shardstore.Storage.File.Paths.{
  IsApart, IsKey, beq_path-marker_path, beq_path-other, beq_path-other', marker_file_name_lem,
}
use mathlib.Core.List.{append-nil}
use shardstore.Storage.File.Laws.{read_if, lookup-removed, removed_result, put_shard_ok}

module _ (sha256 : Bytes → Bytes) (in_use : Bytes → Type 0) (apart : IsApart sha256 in_use) where
  -- The marker files are no shards' files.
  pub get_shard-write_marker :
      (s : FileStore) (id : Bytes) (j : ShardKey) (meta : ObjectMeta)
      → IsKey in_use j
      → get_shard sha256 (write_marker sha256 s id meta).1 j ≡ get_shard sha256 s j
  unfolding get_shard write_marker
  get_shard-write_marker s id j meta hj =
      let other =
        beq_path-other sha256 j hj.stripe hj.shard (marker_path sha256 id) marker_file_name_lem in
      rw
        (
          lookup-insert (marker_path sha256 id) (shard_path sha256 j) (encode_object_meta meta)
              s.files,
          other,
        )
        refl

  pub get_shard-remove_marker :
      (s : FileStore) (id : Bytes) (j : ShardKey)
      → IsKey in_use j
      → get_shard sha256 (remove_marker sha256 s id).1 j ≡ get_shard sha256 s j
  unfolding get_shard remove_marker
  get_shard-remove_marker s id j hj =
      let other =
        beq_path-other sha256 j hj.stripe hj.shard (marker_path sha256 id) marker_file_name_lem in
      rw (lookup-removed (marker_path sha256 id) (shard_path sha256 j) (ok tt) s, other) refl

  pub remove_marker_ok : (s : FileStore) (id : Bytes) → (remove_marker sha256 s id).0 ≡ ok tt
  unfolding remove_marker
  remove_marker_ok s id =
      removed_result (lookup (marker_path sha256 id) s.files) (ok tt) s
        (record s { files = erase (marker_path sha256 id) s.files })
      ∙ ground arith

  pub read_marker-put :
      (s : FileStore) (k : ShardKey) (h : ShardHeader) (d id : Bytes)
      → IsKey in_use k
      → k.object_id ≡ h.object_id
      → h.data_len ≡ pos (length d)
      → IsEncodable (record h { checksum = sha256 d })
      → read_marker sha256 (put_shard sha256 s k h d).1 id ≡ read_marker sha256 s id
  unfolding read_marker
  read_marker-put s k h d id hk same len w =
      let (header, encoded, decoded) =
        decode-encode_shard_header (record h { checksum = sha256 d }) d w in
      let stored = put_shard_ok sha256 in_use apart s k h d header same len encoded in
      let other =
        beq_path-other' sha256 k hk.stripe hk.shard (marker_path sha256 id) marker_file_name_lem in
      rw
        (
          stored,
          lookup-insert (shard_path sha256 k) (marker_path sha256 id) (header ++ d) s.files,
          other,
        )
        refl

  pub read_marker-delete :
      (s : FileStore) (k : ShardKey) (id : Bytes)
      → IsKey in_use k
      → read_marker sha256 (delete_shard sha256 s k).1 id ≡ read_marker sha256 s id
  unfolding read_marker delete_shard
  read_marker-delete s k id hk =
      let other =
        beq_path-other' sha256 k hk.stripe hk.shard (marker_path sha256 id) marker_file_name_lem in
      rw
        (
          lookup-removed (shard_path sha256 k) (marker_path sha256 id) (err shard_not_found) s,
          other,
        )
        refl

  beq_marker :
      (a b : Bytes)
      → in_use a
      → in_use b
      → beq_path (marker_path sha256 a) (marker_path sha256 b) ≡ str_eq a b
  beq_marker a b ha hb =
      beq_path-marker_path sha256 in_use apart a b ha hb (str_eq a b) (str_eq_iff a b).0
        (str_eq_iff a b).1

  -- A marker is read back as it was written, and the others as they were.
  pub read-write_marker :
      (s : FileStore) (id j : Bytes) (k m : ℕ) (meta : ObjectMeta)
      → in_use id
      → in_use j
      → IsEncodableMeta k m meta
      → read_marker sha256 (write_marker sha256 s id meta).1 j
        ≡ (if str_eq id j then ok meta else read_marker sha256 s j)
  unfolding read_marker write_marker
  read-write_marker s id j k m meta hi hj w =
      let decoded = rw append-nil at (decode-encode_object_meta k m meta [] w) in
      rw
        (
          lookup-insert (marker_path sha256 id) (marker_path sha256 j) (encode_object_meta meta)
              s.files,
          beq_marker id j hi hj,
        )
        (read_if decode_object_meta object_not_found (str_eq id j) (some (encode_object_meta meta))
            (lookup (marker_path sha256 j) s.files)
          ∙ ap (λ t. if str_eq id j then t else read_marker sha256 s j) decoded)

  pub read-remove_marker :
      (s : FileStore) (id j : Bytes)
      → in_use id
      → in_use j
      → read_marker sha256 (remove_marker sha256 s id).1 j
        ≡ (if str_eq id j then err object_not_found else read_marker sha256 s j)
  unfolding read_marker remove_marker
  read-remove_marker s id j hi hj =
      rw
        (
          lookup-removed (marker_path sha256 id) (marker_path sha256 j) (ok tt) s,
          beq_marker id j hi hj,
        )
        (read_if decode_object_meta object_not_found (str_eq id j) none
          (lookup (marker_path sha256 j) s.files))
