-- ===== src/Storage/Header.antt =====
-- internal/storage/header.go: shard keys, shard headers, object markers and their on-disk formats.
pub mod RoundTrip
pub mod Marker
pub mod Prefix
pub mod Canonical
use shardstore.Common.{
  ℕ, zero, suc, ◌+◌, ◌^◌, ◌≤◌, ◌<◌, ◌≡◌, String, Bytes, codes, List, [], ◌∷◌, ◌++◌,
}
use shardstore.Common.{
  length, le_bytes, str_eq, ltb, ◌==◌, ◌||◌, ℤ, pos, to_uint64, to_int64, InInt64,
}
use shardstore.Common.{if◌then◌else◌, ◌≢◌, not}
use shardstore.Errors.{Error, Result, ok, err, message, ◌>>=◌, wrap_err}
use shardstore.Reader.{read_full, read_uint}
use shardstore.Ec.Scheme.{Params}

unfoldable pub shard_magic : Bytes
shard_magic = codes "SHARSH01"

unfoldable pub object_magic : Bytes
object_magic = codes "SHAROBJ1"

abbrev pub shard_ver : ℕ
shard_ver = 1

abbrev pub object_ver : ℕ
object_ver = 1

-- `StripeIdx` and `ShardIdx` are uint32.
pub record ShardKey : Type 0 where
  pub object_id : Bytes
  pub stripe_idx : ℕ
  pub shard_idx : ℕ

-- uint32 indices, uint16 shard counts, int64 lengths, a 32-byte checksum.
pub record ShardHeader : Type 0 where
  pub object_id : Bytes
  pub stripe_idx : ℕ
  pub shard_idx : ℕ
  pub data_shards : ℕ
  pub parity_shards : ℕ
  pub stripe_len : ℤ
  pub data_len : ℤ
  pub checksum : Bytes

-- `ShardHeader.Params`
unfoldable pub header_params : ShardHeader → Params
header_params h = record { data_shards = pos h.data_shards; parity_shards = pos h.parity_shards }

-- What `encodeShardHeader` writes once its checks have passed.
unfoldable pub shard_header_bytes : ShardHeader → Bytes
shard_header_bytes h =
    shard_magic
    ++ (le_bytes 2 shard_ver
        ++ (le_bytes 2 (length h.object_id)
            ++ (h.object_id
                ++ (le_bytes 4 h.stripe_idx
                    ++ (le_bytes 4 h.shard_idx
                        ++ (le_bytes 2 h.data_shards
                            ++ (le_bytes 2 h.parity_shards
                                ++ (le_bytes 8 (to_uint64 h.stripe_len)
                                    ++ (le_bytes 8 (to_uint64 h.data_len) ++ h.checksum)))))))))

unfoldable pub encode_shard_header : ShardHeader → Result Bytes
encode_shard_header h =
    if length h.object_id == 0
    then err (message "storage: shard header: empty object id")
    else if ltb h.data_shards 1 || ltb h.parity_shards 1
    then err (message "storage: shard header: invalid EC params")
    else if ltb 65535 (length h.object_id)
    then err (message "storage: shard header: object id too long")
    else ok (shard_header_bytes h)

-- The fields behind the object id.
unfoldable pub decode_header_fields : Bytes → Bytes → Result (ShardHeader × Bytes)
decode_header_fields obj_id r = do
  (stripe_idx, r) ← wrap_err "storage: read header field" (read_uint 4 r)
  (shard_idx, r) ← wrap_err "storage: read header field" (read_uint 4 r)
  (data_shards, r) ← wrap_err "storage: read header field" (read_uint 2 r)
  (parity_shards, r) ← wrap_err "storage: read header field" (read_uint 2 r)
  (stripe_len, r) ← wrap_err "storage: read length field" (read_uint 8 r)
  (data_len, r) ← wrap_err "storage: read length field" (read_uint 8 r)
  (checksum, r) ← wrap_err "storage: read checksum" (read_full 32 r)
  ok (
    record {
      object_id = obj_id;
      stripe_idx = stripe_idx;
      shard_idx = shard_idx;
      data_shards = data_shards;
      parity_shards = parity_shards;
      stripe_len = to_int64 stripe_len;
      data_len = to_int64 data_len;
      checksum = checksum;
    },
    r,
  )

-- The version and the object id, behind the magic.
unfoldable pub decode_versioned : Bytes → Result (ShardHeader × Bytes)
decode_versioned r = do
  (ver, r) ← wrap_err "storage: read version" (read_uint 2 r)
  if ver == shard_ver
      then (do
        (obj_len, r) ← wrap_err "storage: read object id length" (read_uint 2 r)
        (obj_id, r) ← wrap_err "storage: read object id" (read_full obj_len r)
        decode_header_fields obj_id r)
      else err (message "storage: unsupported shard version")

-- The header, and what the reader still holds behind it.
unfoldable pub decode_shard_header : Bytes → Result (ShardHeader × Bytes)
decode_shard_header r = do
  (magic, r) ← wrap_err "storage: read magic" (read_full 8 r)
  if str_eq magic shard_magic then decode_versioned r else err (message "storage: bad shard magic")

-- The marker of an object: `Size` is int64, `Stripes` is uint32.
pub record ObjectMeta : Type 0 where
  pub size : ℤ
  pub stripes : ℕ
  pub params : Params

unfoldable pub encode_object_meta : ObjectMeta → Bytes
encode_object_meta m =
    object_magic
    ++ (le_bytes 2 object_ver
        ++ (le_bytes 8 (to_uint64 m.size)
            ++ (le_bytes 4 m.stripes
                ++ (le_bytes 2 (to_uint64 m.params.data_shards)
                    ++ le_bytes 2 (to_uint64 m.params.parity_shards)))))

unfoldable pub decode_meta_fields : Bytes → Result ObjectMeta
decode_meta_fields r = do
  (size, r) ← wrap_err "storage: read object size" (read_uint 8 r)
  (stripes, r) ← wrap_err "storage: read stripe count" (read_uint 4 r)
  (k, r) ← wrap_err "storage: read data shards" (read_uint 2 r)
  (parity, r) ← wrap_err "storage: read parity shards" (read_uint 2 r)
  ok (record {
    size = to_int64 size;
    stripes = stripes;
    params = record { data_shards = pos k; parity_shards = pos parity };
  })

unfoldable pub decode_object_meta : Bytes → Result ObjectMeta
unfolding decode_meta_fields
decode_object_meta r = do
  (magic, r) ← wrap_err "storage: read object meta magic" (read_full 8 r)
  if str_eq magic object_magic
      then (do
        (ver, r) ← wrap_err "storage: read object meta version" (read_uint 2 r)
        if ver == object_ver
            then decode_meta_fields r
            else err (message "storage: unsupported object meta version"))
      else err (message "storage: bad object meta magic")
