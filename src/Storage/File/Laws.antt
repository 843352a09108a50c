-- ===== src/Storage/File/Laws.antt =====
-- What the operations of `FileStore` do to the shards that can be read.
use shardstore.Common.{
  ℕ, ◌≡◌, refl, sym, ap, ◌∙◌, arith, Bool, true, false, Bytes, ◌++◌, length, pos, inl, inr,
  Bool-cases,
}
use shardstore.Common.{
  Option, none, some, if◌then◌else◌, str_eq, str_eq_iff, str_eq_refl, take_all, take, ◌==◌,
}
use shardstore.Common.Assoc.{lookup, insert, erase, is_some, lookup-insert, lookup-erase}
use shardstore.Errors.{Error, Result, ok, err, shard_not_found, ◌>>=◌}
use shardstore.Storage.Header.{ShardKey, ShardHeader, encode_shard_header, decode_shard_header}
use shardstore.Storage.Header.RoundTrip.{IsEncodable, decode-encode_shard_header}
use shardstore.Storage.ShardStore.{beq_key, is_there}
use shardstore.Storage.Mem.{eq_len}
use shardstore.Storage.File.{
  FilePath, path_eq, FileStore, read_file, removed, shard_path, beq_path, beq_path→eq, decode_shard,
  put_shard, get_shard, delete_shard,
}
use shardstore.Storage.File.Paths.{IsApart, IsKey, beq_path-shard_path}

-- Reading one of two files.
pub read_if :
    {A : Type 0} (f : Bytes → Result A) (e : Error) (b : Bool) (o o' : Option Bytes)
    → (read_file (if b then o else o') e >>= f)
      ≡ (if b then (read_file o e >>= f) else (read_file o' e >>= f))
read_if f e true o o' = refl
read_if f e false o o' = refl

-- The files after `os.Remove`.
pub lookup-removed :
    (p q : FilePath) (missing : Result (Unit {0})) (s : FileStore)
    → lookup q (removed (lookup p s.files) missing s (record s { files = erase p s.files })).1.files
      ≡ (if beq_path p q then none else lookup q s.files)
lookup-removed p q missing s = helper (lookup p s.files) refl
  where
    helper :
        (o : Option Bytes)
        → lookup p s.files ≡ o
        → lookup q (removed o missing s (record s { files = erase p s.files })).1.files
          ≡ (if beq_path p q then none else lookup q s.files)
    helper none e = elim (Bool-cases (beq_path p q)) [
      | inl h ↦
          let same : p ≡ q = beq_path→eq p q h in rw h (ap (λ t. lookup t s.files) (sym same) ∙ e)
      | inr h ↦ rw h refl
    ]
    helper (some c) e = lookup-erase p q s.files

pub removed_result :
    {A : Type 0} (o : Option Bytes) (missing : Result (Unit {0})) (old new : A)
    → (removed o missing old new).0 ≡ (if is_some o then ok tt else missing)
removed_result none missing old new = refl
removed_result (some c) missing old new = refl

module _ (sha256 : Bytes → Bytes) where
  -- A header and a payload of its length, checksum included, are read back.
  decode_shard-append :
      (h : ShardHeader) (d header : Bytes)
      → h.data_len ≡ pos (length d)
      → h.checksum ≡ sha256 d
      → decode_shard_header (header ++ d) ≡ ok (h, d)
      → decode_shard sha256 (header ++ d) ≡ ok (d, h)
  unfolding decode_shard
  decode_shard-append h d header len sum read =
      let whole : take (length d) d ≡ d = take_all {A = ℕ} (length d) d (omega arith) in
      let same : (length d == length d) ≡ true = ground arith in
      rw (read, len, whole, same, sum, str_eq_refl) refl

  pub is_there-decode_shard : (content : Bytes) → is_there (decode_shard sha256 content) ≡ true
  unfolding decode_shard
  is_there-decode_shard content = ground arith

  -- Whether a shard is there is whether its file is.
  pub is_there-get_shard :
      (s : FileStore) (k : ShardKey)
      → is_there (get_shard sha256 s k) ≡ is_some (lookup (shard_path sha256 k) s.files)
  unfolding get_shard
  is_there-get_shard s k = helper (lookup (shard_path sha256 k) s.files)
    where
      helper :
          (o : Option Bytes)
          → is_there (read_file o shard_not_found >>= decode_shard sha256) ≡ is_some o
      helper none = refl
      helper (some c) = is_there-decode_shard c

  module _ (in_use : Bytes → Type 0) (apart : IsApart sha256 in_use) where
    get_shard-insert :
        (s : FileStore) (k j : ShardKey) (content : Bytes)
        → IsKey in_use k
        → IsKey in_use j
        → get_shard sha256 (record s { files = insert (shard_path sha256 k) content s.files }) j
          ≡ (if beq_key k j then decode_shard sha256 content else get_shard sha256 s j)
    unfolding get_shard
    get_shard-insert s k j content hk hj =
        let path = beq_path-shard_path sha256 in_use apart k j hk hj in
        rw (lookup-insert (shard_path sha256 k) (shard_path sha256 j) content s.files, path)
          (read_if (decode_shard sha256) shard_not_found (beq_key k j) (some content)
            (lookup (shard_path sha256 j) s.files))

    pub put_shard_ok :
        (s : FileStore) (k : ShardKey) (h : ShardHeader) (d header : Bytes)
        → k.object_id ≡ h.object_id
        → h.data_len ≡ pos (length d)
        → encode_shard_header (record h { checksum = sha256 d }) ≡ ok header
        → put_shard sha256 s k h d
          ≡ (ok tt, record s { files = insert (shard_path sha256 k) (header ++ d) s.files })
    unfolding put_shard
    put_shard_ok s k h d header id len encoded =
        let same_id : str_eq k.object_id h.object_id ≡ true =
          (str_eq_iff k.object_id h.object_id).1 id in
        let same_len : eq_len h.data_len (length d) ≡ true = rw len (ground arith) in
        rw (same_id, same_len, encoded) refl

    -- A shard is read back as it was put, with its checksum, and the others as they were.
    pub get-put :
        (s : FileStore) (k j : ShardKey) (h : ShardHeader) (d : Bytes)
        → IsKey in_use k
        → IsKey in_use j
        → k.object_id ≡ h.object_id
        → h.data_len ≡ pos (length d)
        → IsEncodable (record h { checksum = sha256 d })
        → ((put_shard sha256 s k h d).0 ≡ ok tt)
          × (get_shard sha256 (put_shard sha256 s k h d).1 j ≡ (
              if beq_key k j
              then ok (d, record h { checksum = sha256 d })
              else get_shard sha256 s j))
    get-put s k j h d hk hj id len w =
        let full = record h { checksum = sha256 d } in
        let (header, encoded, decoded) = decode-encode_shard_header full d w in
        let stored = put_shard_ok s k h d header id len encoded in
        let read = decode_shard-append full d header len refl decoded in
        (
          ap (λ t. t.0) stored,
          ap (λ t. get_shard sha256 t.1 j) stored
              ∙ (get_shard-insert s k j (header ++ d) hk hj
                  ∙ ap (λ t. if beq_key k j then t else get_shard sha256 s j) read),
        )

    pub get_shard-delete :
        (s : FileStore) (k j : ShardKey)
        → IsKey in_use k
        → IsKey in_use j
        → get_shard sha256 (delete_shard sha256 s k).1 j
          ≡ (if beq_key k j then err shard_not_found else get_shard sha256 s j)
    unfolding delete_shard get_shard
    get_shard-delete s k j hk hj =
        let path = beq_path-shard_path sha256 in_use apart k j hk hj in
        rw
          (lookup-removed (shard_path sha256 k) (shard_path sha256 j) (err shard_not_found) s, path)
          (read_if (decode_shard sha256) shard_not_found (beq_key k j) none
            (lookup (shard_path sha256 j) s.files))

    -- Deleting a shard fails only when it is not there.
    pub delete_ok :
        (s : FileStore) (k : ShardKey)
        → (delete_shard sha256 s k).0
          ≡ (if is_there (get_shard sha256 s k) then ok tt else err shard_not_found)
    unfolding delete_shard
    delete_ok s k = rw (is_there-get_shard s k) (
        removed_result (lookup (shard_path sha256 k) s.files) (err shard_not_found) s
          (record s { files = erase (shard_path sha256 k) s.files }))
