-- ===== src/Storage/File.antt =====
-- `FileStore` of internal/storage/store.go.
pub mod Names
pub mod Paths
pub mod Laws
pub mod Markers
pub mod Consistency
pub mod Calls
pub mod Uploads
pub mod Listed
pub mod Alike
pub mod Downloads
pub mod Objects
pub mod Harmless
pub mod Refinement
pub mod Undecodable
pub mod Torn
use shardstore.Common.{
  ℕ, ◌+◌, ◌-◌, ◌≡◌, Bool, true, false, ◌&&◌, ◌||◌, not, Bytes, List, [], ◌∷◌, ◌++◌, length, take,
  concat, map, ◌==◌, codes,
}
use shardstore.Common.{
  str_eq, str_eq_iff, str_lt, Option, none, some, if◌then◌else◌, ℤ, pos, pos_part, arith,
}
use shardstore.Common.Search.{has_suffix}
use shardstore.Common.Digits.{format_hex}
use shardstore.Common.Assoc.{Eq, lookup, insert, erase}
use shardstore.Errors.{
  Error, Result, ok, err, message, wrap_err, shard_not_found, corrupt_shard, object_not_found,
  ◌>>=◌,
}
use shardstore.Storage.Header.{
  ShardKey, ShardHeader, ObjectMeta, encode_shard_header, decode_shard_header, encode_object_meta,
  decode_object_meta,
}
use shardstore.Storage.ShardStore.{ShardStore}
use shardstore.Storage.Mem.{eq_len, sort_keys, keys_of}
use shardstore.Storage.File.Names.{shard_file_name, parse_shard_file_name, shard_suffix}

-- A file below the root: its directory and its name in there.
pub record FilePath : Type 0 where
  pub dir : Bytes
  pub name : Bytes

abbrev pub beq_path : FilePath → FilePath → Bool
beq_path a b = str_eq a.dir b.dir && str_eq a.name b.name

pub beq_path→eq : (a b : FilePath) → beq_path a b ≡ true → a ≡ b
beq_path→eq a b h = ground (arith, str_eq_iff a.dir b.dir, str_eq_iff a.name b.name)

pub eq→beq_path : (a b : FilePath) → a ≡ b → beq_path a b ≡ true
eq→beq_path a b h = ground (arith, str_eq_iff a.dir b.dir, str_eq_iff a.name b.name)

instance abbrev pub path_eq : Eq FilePath
path_eq = record { beq = beq_path; beq_iff = λ a b. (beq_path→eq a b, eq→beq_path a b) }

-- The files that stand below the root, with their contents. A file that is there can be read and
-- written: the only error of the file system is that a file does not exist.
pub record FileStore : Type 0 where
  pub files : List (FilePath × Bytes)

abbrev pub new_file_store : FileStore
new_file_store = record { files = [] }

-- `markerFileName`
abbrev pub marker_file_name : Bytes
marker_file_name = codes ".meta"

-- The file of a shard, when its header can be encoded. It is written whole: a crash between the
-- writes of the header and of the payload leaves another state.
abbrev pub write_shard : FilePath → Result Bytes → Bytes → FileStore → Result (Unit {0}) × FileStore
write_shard path (err e) d s = (err e, s)
write_shard path (ok header) d s = (ok tt, record s { files = insert path (header ++ d) s.files })

abbrev pub read_file : Option Bytes → Error → Result Bytes
read_file none e = err e
read_file (some content) e = ok content

-- The error of `os.Remove`, when there is one.
abbrev pub removed : {A : Type 0} → Option Bytes → Result (Unit {0}) → A → A → Result (Unit {0}) × A
removed none missing old new = (missing, old)
removed (some content) missing old new = (ok tt, new)

-- `resolveObjectID`: the id in the header of a shard's file.
unfoldable pub resolve_object_id : Bytes → Result Bytes
resolve_object_id content = do
  (h, r) ← wrap_err "storage: decode header for id resolution" (decode_shard_header content)
  ok h.object_id

-- A shard's file of the walk of `ListShards`: its key, by its name and its header.
unfoldable pub key_of_file : FilePath → Bytes → Result ShardKey
unfolding resolve_object_id
key_of_file path content = do
  key ← parse_shard_file_name path.name
  id ← resolve_object_id content
  ok (record key { object_id = id })

abbrev pub cons_key : Result ShardKey → Result (List ShardKey) → Result (List ShardKey)
cons_key (err e) rest = err e
cons_key (ok key) (err e) = err e
cons_key (ok key) (ok keys) = ok (key ∷ keys)

-- The walk, in the order of the list; the first error ends it.
unfoldable pub walk : List (FilePath × Bytes) → Result (List ShardKey)
unfolding key_of_file
walk [] = ok []
walk ((path, content) ∷ files) =
    let rest = walk files in
    if not (has_suffix path.name shard_suffix)
    then rest
    else cons_key (key_of_file path content) rest

unfoldable pub list_shards : FileStore → Result (List ShardKey)
unfolding walk
list_shards s = do keys ← wrap_err "storage: walk" (walk s.files); ok (sort_keys keys)

unfoldable pub list_object_shards : FileStore → Bytes → Result (List ShardKey)
unfolding list_shards
list_object_shards s id = do all ← list_shards s; ok (keys_of id all)

module _ (sha256 : Bytes → Bytes) where
  -- `objectDir`, below the root: hex.EncodeToString of the digest's first 20 bytes.
  unfoldable pub object_dir : Bytes → Bytes
  object_dir id = concat (map (format_hex 2) (take 20 (sha256 id)))

  abbrev pub shard_path : ShardKey → FilePath
  shard_path key = record { dir = object_dir key.object_id; name = shard_file_name key }

  abbrev pub marker_path : Bytes → FilePath
  marker_path id = record { dir = object_dir id; name = marker_file_name }

  unfoldable pub put_shard :
      FileStore → ShardKey → ShardHeader → Bytes → Result (Unit {0}) × FileStore
  put_shard s key h d =
      if not (str_eq key.object_id h.object_id)
      then (err (message "storage: key/header object id mismatch"), s)
      else if not (eq_len h.data_len (length d))
      then (err (message "storage: payload len != header DataLen"), s)
      else write_shard (shard_path key) (encode_shard_header (record h { checksum = sha256 d })) d s

  -- The payload behind the header: `io.ReadAll(io.LimitReader(fh, h.DataLen))`.
  abbrev pub payload : ShardHeader → Bytes → Bytes
  payload h r = take (pos_part h.data_len) r

  -- What `GetShard` makes of a file's content.
  unfoldable pub decode_shard : Bytes → Result (Bytes × ShardHeader)
  decode_shard content = do
    (h, r) ← wrap_err "storage: decode header" (decode_shard_header content)
    if not (eq_len h.data_len (length (payload h r)))
        then err (message "storage: short payload")
        else if not (str_eq (sha256 (payload h r)) h.checksum)
        then err corrupt_shard
        else ok (payload h r, h)

  unfoldable pub get_shard : FileStore → ShardKey → Result (Bytes × ShardHeader)
  unfolding decode_shard
  get_shard s key = do
    content ← read_file (lookup (shard_path key) s.files) shard_not_found
    decode_shard content

  -- What `VerifyShard` makes of it: the length is not checked.
  unfoldable pub hash_shard : Bytes → Result ShardHeader
  hash_shard content = do
    (h, r) ← wrap_err "storage: decode header" (decode_shard_header content)
    if not (str_eq (sha256 (payload h r)) h.checksum) then err corrupt_shard else ok h

  unfoldable pub verify_shard : FileStore → ShardKey → Result ShardHeader
  unfolding hash_shard
  verify_shard s key = do
    content ← read_file (lookup (shard_path key) s.files) shard_not_found
    hash_shard content

  unfoldable pub delete_shard : FileStore → ShardKey → Result (Unit {0}) × FileStore
  delete_shard s key =
      removed (lookup (shard_path key) s.files) (err shard_not_found) s
        (record s { files = erase (shard_path key) s.files })

  unfoldable pub write_marker : FileStore → Bytes → ObjectMeta → Result (Unit {0}) × FileStore
  write_marker s id meta =
      (ok tt, record s { files = insert (marker_path id) (encode_object_meta meta) s.files })

  unfoldable pub read_marker : FileStore → Bytes → Result ObjectMeta
  read_marker s id = do
    content ← read_file (lookup (marker_path id) s.files) object_not_found
    decode_object_meta content

  unfoldable pub remove_marker : FileStore → Bytes → Result (Unit {0}) × FileStore
  remove_marker s id =
      removed (lookup (marker_path id) s.files) (ok tt) s
        (record s { files = erase (marker_path id) s.files })

  abbrev pub file_store : ShardStore FileStore
  file_store = record {
    put_shard = put_shard;
    get_shard = get_shard;
    verify_shard = verify_shard;
    delete_shard = delete_shard;
    list_shards = list_shards;
    list_object_shards = list_object_shards;
    write_marker = write_marker;
    read_marker = read_marker;
    remove_marker = remove_marker;
  }
