-- ===== src/Storage/Header/RoundTrip.antt =====
-- Headers and markers read back as they were written.
use shardstore.Common.{◌^◌, ◌≤◌, ◌<◌, ◌≡◌, refl, Bytes, ◌++◌, length, arith}
use shardstore.Common.{le_bytes, str_eq_refl, to_uint64, InInt64, to_int64-to_uint64}
use shardstore.Common.{to_uint64-lt, String}
use shardstore.Errors.{Result, ok, wrap_err}
use shardstore.Reader.{read_full-append, read_uint-le_bytes}
use shardstore.Storage.Header.{ShardHeader, shard_magic, shard_ver}
use shardstore.Storage.Header.{shard_header_bytes, encode_shard_header, decode_shard_header}
use shardstore.Storage.Header.{decode_header_fields, decode_versioned}
use mathlib.Core.List.{append_assoc}

-- The values that Go's types of the fields hold, and what `encodeShardHeader` asks for.
pub record IsEncodable (h : ShardHeader) : Type 0 where
  pub id_pos : 1 ≤ length h.object_id
  pub id_le : length h.object_id ≤ 65535
  pub stripe_idx : h.stripe_idx < 2 ^ 32
  pub shard_idx : h.shard_idx < 2 ^ 32
  pub data_pos : 1 ≤ h.data_shards
  pub data_lt : h.data_shards < 2 ^ 16
  pub parity_pos : 1 ≤ h.parity_shards
  pub parity_lt : h.parity_shards < 2 ^ 16
  pub stripe_len : InInt64 h.stripe_len
  pub data_len : InInt64 h.data_len
  pub checksum : length h.checksum ≡ 32

wrap_ok {ℓ} : {A : Type ℓ} (t : String) {r : Result A} {a : A} → r ≡ ok a → wrap_err t r ≡ ok a
wrap_ok t e = rw e

module _ (h : ShardHeader) (w : IsEncodable h) (rest : Bytes) where
  decode_header_fields-append :
      decode_header_fields h.object_id (
        le_bytes 4 h.stripe_idx
        ++ (le_bytes 4 h.shard_idx
            ++ (le_bytes 2 h.data_shards
                ++ (le_bytes 2 h.parity_shards
                    ++ (le_bytes 8 (to_uint64 h.stripe_len)
                        ++ (le_bytes 8 (to_uint64 h.data_len) ++ (h.checksum ++ rest)))))))
      ≡ ok (h, rest)
  unfolding decode_header_fields
  decode_header_fields-append = rw (
    read_uint-le_bytes 4 h.stripe_idx _ (omega (arith, w.stripe_idx)),
    read_uint-le_bytes 4 h.shard_idx _ (omega (arith, w.shard_idx)),
    read_uint-le_bytes 2 h.data_shards _ (omega (arith, w.data_lt)),
    read_uint-le_bytes 2 h.parity_shards _ (omega (arith, w.parity_lt)),
    read_uint-le_bytes 8 (to_uint64 h.stripe_len) _ (omega (arith, to_uint64-lt h.stripe_len)),
    read_uint-le_bytes 8 (to_uint64 h.data_len) _ (omega (arith, to_uint64-lt h.data_len)),
    read_full-append 32 h.checksum rest w.checksum,
    to_int64-to_uint64 h.stripe_len w.stripe_len,
    to_int64-to_uint64 h.data_len w.data_len,
  )

  decode-shard_header_bytes : decode_shard_header (shard_header_bytes h ++ rest) ≡ ok (h, rest)
  unfolding decode_shard_header decode_versioned shard_header_bytes
  decode-shard_header_bytes = simp append_assoc (
      rw (
        read_full-append 8 shard_magic _ (unfold shard_magic in refl),
        str_eq_refl,
        read_uint-le_bytes 2 shard_ver _ (omega arith),
        read_uint-le_bytes 2 (length h.object_id) _ (omega (arith, w.id_le)),
        read_full-append (length h.object_id) h.object_id _ refl,
        decode_header_fields-append,
      ))

encode_shard_header_ok :
    (h : ShardHeader) → IsEncodable h → encode_shard_header h ≡ ok (shard_header_bytes h)
unfolding encode_shard_header
encode_shard_header_ok h w = ground arith

-- A header that holds values of its Go types, a non-empty id of at most 65535 bytes and positive
-- shard counts is encoded without error, and `decodeShardHeader` reads it back from the encoding
-- followed by any bytes, and leaves those bytes in the reader.
pub decode-encode_shard_header :
    (h : ShardHeader) (rest : Bytes)
    → IsEncodable h
    → (bs : Bytes) × (encode_shard_header h ≡ ok bs)
      × (decode_shard_header (bs ++ rest) ≡ ok (h, rest))
decode-encode_shard_header h rest w =
    (shard_header_bytes h, encode_shard_header_ok h w, decode-shard_header_bytes h w rest)
