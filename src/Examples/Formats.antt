-- ===== src/Examples/Formats.antt =====
-- A shard header, a marker and schemes.
use shardstore.Common.{
  ◌^◌, ◌≡◌, ◌↔◌, ◌≤◌, ◌+◌, ◌-◌, refl, arith, Bytes, [], ◌∷◌, ◌++◌, replicate, pos, negsuc, codes,
  ◌⊎◌,
}
use shardstore.Common.{Bool, true, ◌&&◌, ltb, to_uint64, All, IsByte, le_bytes, le_bytes-IsByte}
use shardstore.Errors.{ok}
use shardstore.Ec.Scheme.{validate, shard_count}
use shardstore.Ec.Created.{scheme_params}
use shardstore.Ec.Validity.{validate_iff, validate_overflow}
use shardstore.Storage.Header.{
  ShardHeader, ObjectMeta, encode_shard_header, decode_shard_header, encode_object_meta,
  decode_object_meta,
}
use shardstore.Storage.Header.RoundTrip.{IsEncodable, decode-encode_shard_header}
use shardstore.Storage.Header.{shard_header_bytes, shard_magic}
use shardstore.Storage.Header.Canonical.{IsHeader, shard_header_bytes-decode}
use shardstore.Storage.Header.Marker.{IsEncodableMeta, decode-encode_object_meta}

abbrev a_header : ShardHeader
a_header = record {
  object_id = codes "b/k";
  stripe_idx = 1;
  shard_idx = 2;
  data_shards = 4;
  parity_shards = 2;
  stripe_len = pos 9;
  data_len = pos 3;
  checksum = replicate 32 7;
}

a_header-IsEncodable : IsEncodable a_header
a_header-IsEncodable = record {
  id_pos = omega arith;
  id_le = omega arith;
  stripe_idx = omega arith;
  shard_idx = omega arith;
  data_pos = omega arith;
  data_lt = omega arith;
  parity_pos = omega arith;
  parity_lt = omega arith;
  stripe_len = (omega arith, omega arith);
  data_len = (omega arith, omega arith);
  checksum = refl;
}

decode-encode_shard_header_example :
    (bs : Bytes) × (encode_shard_header a_header ≡ ok bs)
    × (decode_shard_header (bs ++ 1 ∷ 2 ∷ []) ≡ ok (a_header, 1 ∷ 2 ∷ []))
decode-encode_shard_header_example =
    decode-encode_shard_header a_header (1 ∷ 2 ∷ []) a_header-IsEncodable

abbrev a_meta : ObjectMeta
a_meta = record { size = pos 13; stripes = 4; params = scheme_params 4 2 }

a_meta-IsEncodableMeta : IsEncodableMeta 4 2 a_meta
a_meta-IsEncodableMeta = record {
  size = (omega arith, omega arith);
  stripes = omega arith;
  params = refl;
  data_lt = omega arith;
  parity_lt = omega arith;
}

decode-encode_object_meta_example : decode_object_meta (encode_object_meta a_meta ++ []) ≡ ok a_meta
decode-encode_object_meta_example = decode-encode_object_meta 4 2 a_meta [] a_meta-IsEncodableMeta

validate_iff_example :
    (validate (scheme_params 255 2) ≡ ok tt)
    ↔ ((1 ≤ 255) × (1 ≤ 2) × ((255 + 2 ≤ 256) ⊎ (2 ^ 63 ≤ 255 + 2)))
validate_iff_example =
    validate_iff (scheme_params 255 2) (omega arith, omega arith) (omega arith, omega arith)

validate_overflow_example :
    (shard_count (scheme_params (2 ^ 63 - 1) 1) ≡ negsuc (2 ^ 63 - 1))
    × (validate (scheme_params (2 ^ 63 - 1) 1) ≡ ok tt)
validate_overflow_example =
    validate_overflow (2 ^ 63 - 1) 1 (omega arith) (omega arith) (omega arith) (omega arith)
      (omega arith)

-- A test for byte strings.
abbrev are_bytes : Bytes → Bool
are_bytes [] = true
are_bytes (b ∷ bs) = ltb b 256 && are_bytes bs

are_bytes→All : (bs : Bytes) → are_bytes bs ≡ true → All IsByte bs
are_bytes→All [] h = tt
are_bytes→All (b ∷ bs) h = (ground (arith, h), are_bytes→All bs (ground (arith, h)))

a_header_bytes : All IsByte (shard_header_bytes a_header ++ 1 ∷ 2 ∷ [])
unfolding shard_header_bytes shard_magic le_bytes to_uint64
a_header_bytes = are_bytes→All (shard_header_bytes a_header ++ 1 ∷ 2 ∷ []) refl

a_header_decoded :
    decode_shard_header (shard_header_bytes a_header ++ 1 ∷ 2 ∷ []) ≡ ok (a_header, 1 ∷ 2 ∷ [])
unfolding shard_header_bytes decode_shard_header shardstore.Reader.read_full shard_magic le_bytes
    shardstore.Common.str_eq shardstore.Storage.Header.decode_versioned shardstore.Reader.read_uint
    shardstore.Common.from_le shardstore.Storage.Header.decode_header_fields
    shardstore.Common.to_int64 to_uint64
a_header_decoded = refl

shard_header_bytes-decode_example :
    (shard_header_bytes a_header ++ 1 ∷ 2 ∷ [] ≡ shard_header_bytes a_header ++ 1 ∷ 2 ∷ [])
    × IsHeader a_header
shard_header_bytes-decode_example =
    shard_header_bytes-decode (shard_header_bytes a_header ++ 1 ∷ 2 ∷ []) a_header (1 ∷ 2 ∷ [])
      a_header_bytes a_header_decoded
