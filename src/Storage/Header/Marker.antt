-- ===== src/Storage/Header/Marker.antt =====
-- Object markers read back as they were written.
use shardstore.Common.{ℕ, ◌^◌, ◌<◌, ◌≡◌, refl, sym, ap, Bytes, ◌++◌, arith, pos}
use shardstore.Common.{le_bytes, str_eq_refl, to_uint64, InInt64, to_int64-to_uint64, to_uint64-lt}
use shardstore.Errors.{ok}
use shardstore.Reader.{read_full-append, read_uint-le_bytes}
use shardstore.Ec.Created.{scheme_params}
use shardstore.Storage.Header.{
  ObjectMeta, object_magic, object_ver, encode_object_meta, decode_meta_fields, decode_object_meta,
}
use mathlib.Core.List.{append_assoc}

-- What Go's types of the fields hold, for a scheme whose counts fit 16 bits.
pub record IsEncodableMeta (k m : ℕ) (meta : ObjectMeta) : Type 0 where
  pub size : InInt64 meta.size
  pub stripes : meta.stripes < 2 ^ 32
  pub params : meta.params ≡ scheme_params k m
  pub data_lt : k < 2 ^ 16
  pub parity_lt : m < 2 ^ 16

module _ (k m : ℕ) (meta : ObjectMeta) (w : IsEncodableMeta k m meta) (rest : Bytes) where
  decode_meta_fields-append :
      decode_meta_fields (
        le_bytes 8 (to_uint64 meta.size)
        ++ (le_bytes 4 meta.stripes ++ (le_bytes 2 k ++ (le_bytes 2 m ++ rest))))
      ≡ ok meta
  unfolding decode_meta_fields
  decode_meta_fields-append =
      rw
        (
          read_uint-le_bytes 8 (to_uint64 meta.size) _ (omega (arith, to_uint64-lt meta.size)),
          read_uint-le_bytes 4 meta.stripes _ (omega (arith, w.stripes)),
          read_uint-le_bytes 2 k _ (omega (arith, w.data_lt)),
          read_uint-le_bytes 2 m _ (omega (arith, w.parity_lt)),
          to_int64-to_uint64 meta.size w.size,
        )
        (ap (λ p. ok (record meta { params = p })) (sym w.params))

  to_uint64-small : (n : ℕ) → n < 2 ^ 16 → to_uint64 (pos n) ≡ n
  unfolding to_uint64
  to_uint64-small n h = omega arith

-- A marker that holds values of its Go types and shard counts below 2 ^ 16 is read back by
-- `decodeObjectMeta` from what `encodeObjectMeta` writes, whatever bytes follow.
pub decode-encode_object_meta :
    (k m : ℕ) (meta : ObjectMeta) (rest : Bytes)
    → IsEncodableMeta k m meta
    → decode_object_meta (encode_object_meta meta ++ rest) ≡ ok meta
unfolding decode_object_meta encode_object_meta
decode-encode_object_meta k m meta rest w = simp append_assoc (
    rw
      (
        read_full-append 8 object_magic _ (unfold object_magic in refl),
        str_eq_refl,
        read_uint-le_bytes 2 object_ver _ (omega arith),
        w.params,
        to_uint64-small k m meta w rest k w.data_lt,
        to_uint64-small k m meta w rest m w.parity_lt,
        decode_meta_fields-append k m meta w rest,
      )
      (ap (λ p. ok (record meta { params = p })) w.params))
