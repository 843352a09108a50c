-- ===== src/Storage/File/Consistency.antt =====
-- The states that the operations of `FileStore` reach: what a shard's file holds, and what the walk finds.
use shardstore.Common.{
  ℕ, ◌≡◌, refl, sym, ap, ◌∙◌, arith, true, false, ◌&&◌, ◌||◌, Bytes, List, [], ◌∷◌, ◌++◌, length, ℤ,
  pos, negsuc, inl, inr, Bool-cases,
}
use shardstore.Common.{
  All, Option, none, some, str_eq, str_eq_iff, str_eq_refl, take_all, take, ◌==◌,
}
use shardstore.Common.Assoc.{lookup, erase, is_some, mem_key, All-insert, All-erase, All-lookup}
use shardstore.Common.Search.{has_suffix}
use shardstore.Errors.{Result, ok, err, shard_not_found, ◌>>=◌}
use shardstore.Storage.Header.{
  ShardKey, ShardHeader, ObjectMeta, encode_object_meta, decode_shard_header,
}
use shardstore.Storage.Header.RoundTrip.{IsEncodable, decode-encode_shard_header}
use shardstore.Storage.ShardStore.{key_eq, is_there, header_of}
use shardstore.Storage.Mem.{eq_len, sort_keys, keys_of}
use shardstore.Storage.Mem.Laws.{mem_key-sort_keys, mem_key-keys_of}
use shardstore.Storage.File.{
  FilePath, path_eq, FileStore, resolve_object_id, key_of_file, walk, list_shards,
  list_object_shards, shard_path, marker_path, removed, put_shard, delete_shard, write_marker,
  remove_marker, decode_shard, hash_shard, get_shard, verify_shard, read_file,
}
use shardstore.Storage.File.Names.{parse-shard_file_name, shard_suffix}
use shardstore.Storage.File.Paths.{
  marker_file_name_lem, IsApart, IsKey, beq_path-shard_path, beq_path-other,
}
use shardstore.Storage.File.Laws.{is_there-get_shard}

pub eq_len→eq : (z : ℤ) (n : ℕ) → eq_len z n ≡ true → z ≡ pos n
eq_len→eq (pos m) n h = ap pos (ground arith)
eq_len→eq (negsuc m) n h = absurd (ground arith)

module _ (sha256 : Bytes → Bytes) (in_use : Bytes → Type 0) where
  -- A shard's file is at the path of its key, with a header of the same id and the whole payload, and
  -- its checksum is the payload's. The indices of the header may be others than those of the key.
  pub record IsShardFile (file : FilePath × Bytes) : Type 0 where
    pub key : ShardKey
    pub header : ShardHeader
    pub bytes : Bytes
    pub key_IsKey : IsKey in_use key
    pub path : file.0 ≡ shard_path sha256 key
    pub decoded : decode_shard_header file.1 ≡ ok (header, bytes)
    pub id : header.object_id ≡ key.object_id
    pub len : header.data_len ≡ pos (length bytes)
    pub sum : header.checksum ≡ sha256 bytes

  -- Every file is a marker's or another that the walk passes over, or a shard's.
  pub data IsFile (file : FilePath × Bytes) : Type 0 where
    other : has_suffix file.0.name shard_suffix ≡ false → IsFile file
    shard : IsShardFile file → IsFile file

  abbrev pub IsConsistent : FileStore → Type 0
  IsConsistent s = All IsFile s.files

  pub key_of-shard_file :
      (path : FilePath) (content : Bytes) (f : IsShardFile (path, content))
      → key_of_file path content ≡ ok f.key
  unfolding key_of_file resolve_object_id
  key_of-shard_file path content f =
      let name = (parse-shard_file_name f.key f.key_IsKey.stripe f.key_IsKey.shard).1 in
      rw (f.path, name, f.decoded) (ground (arith, f.id))

  -- A shard that is there has its whole payload, so it is read in full and its hash agrees.
  decode-shard_file :
      (path : FilePath) (content : Bytes) (f : IsShardFile (path, content))
      → decode_shard sha256 content ≡ ok (f.bytes, f.header)
  unfolding decode_shard
  decode-shard_file path content f =
      let whole : take (length f.bytes) f.bytes ≡ f.bytes =
        take_all {A = ℕ} (length f.bytes) f.bytes (omega arith) in
      let same : (length f.bytes == length f.bytes) ≡ true = ground arith in
      rw (f.decoded, f.len, whole, same, f.sum, str_eq_refl) refl

  hash-shard_file :
      (path : FilePath) (content : Bytes) (f : IsShardFile (path, content))
      → hash_shard sha256 content ≡ ok f.header
  unfolding hash_shard
  hash-shard_file path content f =
      let whole : take (length f.bytes) f.bytes ≡ f.bytes =
        take_all {A = ℕ} (length f.bytes) f.bytes (omega arith) in
      rw (f.decoded, f.len, whole, f.sum, str_eq_refl) refl

  -- What the walk finds are the keys of the files that are there.
  module _ (apart : IsApart sha256 in_use) where
    walk_lem :
        (files : List (FilePath × Bytes))
        → All IsFile files
        → (ks : List ShardKey) × (walk files ≡ ok ks)
          × ((k : ShardKey)
              → IsKey in_use k
              → mem_key k ks ≡ is_some (lookup (shard_path sha256 k) files))
    unfolding walk mem_key lookup
    walk_lem [] h = ([], refl, λ k hk. refl)
    walk_lem ((path, content) ∷ files) (other passed, h) =
        let (ks, found, here) = walk_lem files h in
        (
          ks,
          rw (passed, found) refl,
          λ k hk. rw (beq_path-other sha256 k hk.stripe hk.shard path passed, here k hk) refl,
        )
    walk_lem ((path, content) ∷ files) (shard f, h) =
        let (ks, found, here) = walk_lem files h in
        let name = (parse-shard_file_name f.key f.key_IsKey.stripe f.key_IsKey.shard).0 in
        let suffix : has_suffix path.name shard_suffix ≡ true =
          ap (λ (p : FilePath). has_suffix p.name shard_suffix) f.path ∙ name in
        (
          f.key ∷ ks,
          rw (suffix, key_of-shard_file path content f, found) refl,
          λ k hk.
              rw (f.path, beq_path-shard_path sha256 in_use apart f.key k f.key_IsKey hk, here k hk)
                (ground arith),
        )

    -- In a consistent store `ListObjectShards` succeeds, and lists the shards of the object that are there.
    pub list_lem :
        (s : FileStore) (id : Bytes)
        → IsConsistent s
        → (ks : List ShardKey) × (list_object_shards s id ≡ ok ks)
          × ((k : ShardKey)
              → IsKey in_use k
              → mem_key k ks
                ≡ (is_there (get_shard sha256 s k) && (str_eq id [] || str_eq k.object_id id)))
    unfolding list_object_shards list_shards
    list_lem s id h =
        let (ks, found, here) = walk_lem s.files h in
        (
          keys_of id (sort_keys ks),
          rw found refl,
          λ k hk.
              rw (mem_key-keys_of, mem_key-sort_keys, here k hk, is_there-get_shard sha256 s k)
                refl,
        )

  -- In a consistent store `VerifyShard` says what `GetShard` says.
  pub verify_lem :
      (s : FileStore) (k : ShardKey)
      → IsKey in_use k
      → IsConsistent s
      → verify_shard sha256 s k ≡ header_of (get_shard sha256 s k)
  unfolding verify_shard get_shard
  verify_lem s k hk h = helper (lookup (shard_path sha256 k) s.files) refl
    where
      file :
          (content : Bytes)
          → IsFile (shard_path sha256 k, content)
          → hash_shard sha256 content ≡ header_of (decode_shard sha256 content)
      file content (other passed) =
          absurd (cc (passed, (parse-shard_file_name k hk.stripe hk.shard).0))
      file content (shard f) =
          rw
            (
              hash-shard_file (shard_path sha256 k) content f,
              decode-shard_file (shard_path sha256 k) content f,
            )
            refl

      helper :
          (o : Option Bytes)
          → lookup (shard_path sha256 k) s.files ≡ o
          → (read_file o shard_not_found >>= hash_shard sha256)
            ≡ header_of (read_file o shard_not_found >>= decode_shard sha256)
      helper none e = refl
      helper (some content) e =
          file content (All-lookup IsFile (shard_path sha256 k) content s.files h e)

  -- Every operation keeps a consistent store consistent.
  pub put_shard-IsConsistent :
      (s : FileStore) (k : ShardKey) (h : ShardHeader) (d : Bytes)
      → IsKey in_use k
      → IsEncodable (record h { checksum = sha256 d })
      → IsConsistent s
      → IsConsistent (put_shard sha256 s k h d).1
  unfolding put_shard
  put_shard-IsConsistent s k h d hk w c = elim (Bool-cases (str_eq k.object_id h.object_id)) [
    | inr differ ↦ rw differ c
    | inl same_id ↦ elim (Bool-cases (eq_len h.data_len (length d))) [
      | inr differ ↦ rw (same_id, differ) c
      | inl same_len ↦
          let full = record h { checksum = sha256 d } in
          let (header, encoded, decoded) = decode-encode_shard_header full d w in
          let file : IsShardFile (shard_path sha256 k, header ++ d) = record {
            key = k;
            header = full;
            bytes = d;
            key_IsKey = hk;
            path = refl;
            decoded = decoded;
            id = sym ((str_eq_iff k.object_id h.object_id).0 same_id);
            len = eq_len→eq h.data_len (length d) same_len;
            sum = refl;
          } in
          rw (same_id, same_len, encoded)
            (All-insert IsFile (shard_path sha256 k) (header ++ d) s.files (shard file) c)
    ]
  ]

  removed-IsConsistent :
      (s : FileStore) (p : FilePath) (missing : Result (Unit {0})) (o : Option Bytes)
      → IsConsistent s
      → IsConsistent (removed o missing s (record s { files = erase p s.files })).1
  removed-IsConsistent s p missing none c = c
  removed-IsConsistent s p missing (some content) c = All-erase IsFile p s.files c

  pub delete_shard-IsConsistent :
      (s : FileStore) (k : ShardKey) → IsConsistent s → IsConsistent (delete_shard sha256 s k).1
  unfolding delete_shard
  delete_shard-IsConsistent s k =
      removed-IsConsistent s (shard_path sha256 k) (err shard_not_found)
        (lookup (shard_path sha256 k) s.files)

  pub remove_marker-IsConsistent :
      (s : FileStore) (id : Bytes) → IsConsistent s → IsConsistent (remove_marker sha256 s id).1
  unfolding remove_marker
  remove_marker-IsConsistent s id =
      removed-IsConsistent s (marker_path sha256 id) (ok tt)
        (lookup (marker_path sha256 id) s.files)

  pub write_marker-IsConsistent :
      (s : FileStore) (id : Bytes) (meta : ObjectMeta)
      → IsConsistent s
      → IsConsistent (write_marker sha256 s id meta).1
  unfolding write_marker
  write_marker-IsConsistent s id meta c =
      All-insert IsFile (marker_path sha256 id) (encode_object_meta meta) s.files
        (other marker_file_name_lem) c
