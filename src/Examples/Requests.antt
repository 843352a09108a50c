-- ===== src/Examples/Requests.antt =====
-- Requests to a `MemStore`, with two data shards and one parity shard and stripes of four bytes.
use shardstore.Common.{ℕ, zero, suc, ◌≤◌, ◌<◌, ◌≡◌, refl, arith, false, add_int, str_eq, some, none}
use shardstore.Common.{Bytes, [], ◌∷◌, length, pos, codes}
use shardstore.Common.Assoc.{lookup, insert, erase, keys}
use shardstore.Common.Search.{trim_prefix, has_prefix, has_suffix, contains}
use shardstore.Errors.{ok, err, object_not_found, is_object_not_found}
use shardstore.Ec.{new_encoder, encode}
use shardstore.Ec.Scheme.{validate}
use shardstore.Reader.{read_full}
use shardstore.Storage.Header.{ShardKey}
use shardstore.Storage.Mem.{
  MemStore, new_mem_store, get_shard, put_shard, delete_shard, write_marker, read_marker,
  list_object_shards, list_shards, sort_keys, keys_of, key_lt,
}
use shardstore.Storage.Mem.Laws.{mem_store-IsShardStore}
use shardstore.Storage.Object.{empty_reader, put_object, get_object, put_stripe, to_ec_params}
use shardstore.Storage.Recovery.Shards.{count_ok}
use shardstore.Storage.Recovery.Putting.{store_of, stripes_of}
use shardstore.Storage.Recovery.Stripes.{chunks}
use shardstore.Storage.Recovery.Damage.{IsDamaged-delete_shard}
use shardstore.Storage.Recovery.RoundTrip.{HasNoShards}
use shardstore.Api.Paths.{
  parse_path_values, cut_slash, object_id, bucket_marker_id, validate_bucket_name, all_bucket_chars,
  is_bucket_char,
}
use shardstore.Api.Http.{
  Request, Writer, new_writer, raw, write, write_header, write_xml_error, etag,
}
use shardstore.Api.Names.{
  IsSegment, parse_path_values_drop, object_id_inj, object_id-validate_bucket_name,
}
use shardstore.Api.Buckets.{handle_create_bucket, handle_head_bucket}
use shardstore.Api.Objects.{handle_put_object, handle_get_object, handle_head_object, size_headers}
use shardstore.Api.Responses.{IsObjectPath, handle_get_object-handle_put_object}
use shardstore.Api.Lifecycle.{handle_head_bucket-handle_create_bucket}
use shardstore.Examples.Parity.{parity_scheme, new_parity}
use shardstore.Examples.Objects.{digest, st}

abbrev pub bkt : Bytes
bkt = codes "bkt"

abbrev pub key : Bytes
key = codes "key"

abbrev pub bucket_request : Request
bucket_request = record {
  method = codes "PUT";
  query = [];
  path = codes "/bkt";
  range = [];
  content_length = pos 0;
  body = [];
  id = none;
}

abbrev pub put_request : Request
put_request = record {
  method = codes "PUT";
  query = [];
  path = codes "/bkt/key";
  range = [];
  content_length = pos 13;
  body = codes "hello, shards";
  id = none;
}

abbrev get_request : Request
get_request = record {
  method = codes "GET";
  query = [];
  path = codes "/bkt/key";
  range = [];
  content_length = pos 0;
  body = [];
  id = none;
}

bkt-IsSegment : IsSegment bkt
bkt-IsSegment = (refl, (refl, (refl, tt)))

pub key-IsSegment : IsSegment key
key-IsSegment = (refl, (refl, (refl, tt)))

put_request-IsObjectPath : IsObjectPath put_request.path bkt key
put_request-IsObjectPath = record {
  path_eq = refl;
  bucket = bkt-IsSegment;
  object = key-IsSegment;
  bucket_pos = omega arith;
  object_pos = omega arith;
}

pub bkt-validate_bucket_name : validate_bucket_name bkt ≡ ok tt
unfolding validate_bucket_name all_bucket_chars is_bucket_char has_prefix has_suffix contains
bkt-validate_bucket_name = refl

pub no_bucket :
    get_object st new_parity (store_of 2 1 4) new_mem_store (bucket_marker_id bkt)
    ≡ err object_not_found
unfolding get_object list_object_shards list_shards sort_keys keys_of keys key_lt read_marker lookup
    is_object_not_found
no_bucket = refl

pub no_shards : HasNoShards st (bucket_marker_id bkt) new_mem_store
unfolding get_shard lookup
no_shards j mine = refl

parse_path_values_drop_example : parse_path_values (codes "/bkt/bkt/key") ≡ (bkt, key)
parse_path_values_drop_example = parse_path_values_drop bkt bkt key bkt-IsSegment bkt-IsSegment

object_id_inj_example : (bkt ≡ bkt) × (key ≡ key)
object_id_inj_example = object_id_inj bkt bkt key key bkt-IsSegment bkt-IsSegment refl

object_id-validate_bucket_name_example :
    IsSegment bkt
    × (has_prefix (object_id bkt key) (codes "__bucket__/") ≡ false)
    × (has_prefix (object_id bkt key) (codes "__multipart__/") ≡ false)
object_id-validate_bucket_name_example =
    object_id-validate_bucket_name bkt key bkt-validate_bucket_name

handle_head_bucket-handle_create_bucket_example :
    (s' : MemStore) × (handle_create_bucket st new_parity
        (store_of 2 1 4)
        new_writer
        bucket_request
        new_mem_store
      ≡ (write_header 200 new_writer, s'))
    × (handle_head_bucket st new_parity (store_of 2 1 4) new_writer bucket_request s'
        ≡ (write_header 200 new_writer, s'))
    × (handle_create_bucket st new_parity (store_of 2 1 4) new_writer bucket_request s' ≡ (
      write_xml_error 409 "BucketAlreadyOwnedByYou" "Bucket already exists" bucket_request
          new_writer,
      s',
    ))
handle_head_bucket-handle_create_bucket_example =
    handle_head_bucket-handle_create_bucket digest st (mem_store-IsShardStore digest) new_parity 2 1
      parity_scheme 4 (omega arith) new_mem_store bucket_request bkt refl bkt-validate_bucket_name
      no_shards no_bucket

-- The store with the bucket, the store with the object, and that store with a shard lost.
abbrev pub bucket_store : MemStore
bucket_store =
    (put_object st new_parity (store_of 2 1 4) new_mem_store (bucket_marker_id bkt) [] (pos 0)).1

abbrev answer : Writer × MemStore
answer = handle_put_object st new_parity (store_of 2 1 4) new_writer put_request bucket_store

abbrev lost_key : ShardKey
lost_key = record { object_id = object_id bkt key; stripe_idx = 2; shard_idx = 1 }

abbrev damaged_store : MemStore
damaged_store = (delete_shard answer.1 lost_key).1

pub bucket_before :
    get_object st new_parity (store_of 2 1 4) bucket_store (bucket_marker_id bkt)
    ≡ ok (empty_reader, pos 0)
unfolding get_object list_object_shards list_shards sort_keys keys_of keys key_lt read_marker
    put_object new_encoder validate to_ec_params shardstore.Ec.Scheme.shard_count add_int read_full
    put_stripe encode put_shard str_eq write_marker insert lookup
bucket_before = refl

bucket_after :
    get_object st new_parity (store_of 2 1 4) damaged_store (bucket_marker_id bkt)
    ≡ ok (empty_reader, pos 0)
unfolding get_object list_object_shards list_shards sort_keys keys_of keys key_lt read_marker
    put_object new_encoder validate to_ec_params shardstore.Ec.Scheme.shard_count add_int read_full
    put_stripe encode put_shard str_eq write_marker insert lookup handle_put_object
    parse_path_values trim_prefix has_prefix cut_slash delete_shard erase
bucket_after = refl

fresh : HasNoShards st (object_id bkt key) bucket_store
unfolding get_shard put_object new_encoder validate to_ec_params shardstore.Ec.Scheme.shard_count
    add_int read_full put_stripe encode put_shard str_eq write_marker insert lookup
fresh j mine = refl

enough_left :
    (i : ℕ)
    → i < length (stripes_of 4 (codes "hello, shards"))
    → 2 ≤ count_ok st (object_id bkt key) i damaged_store 3 0
unfolding count_ok get_shard chunks get_object list_object_shards list_shards sort_keys keys_of keys
    key_lt read_marker put_object new_encoder validate to_ec_params shardstore.Ec.Scheme.shard_count
    add_int read_full put_stripe encode put_shard str_eq write_marker insert lookup
    handle_put_object parse_path_values trim_prefix has_prefix cut_slash delete_shard erase
enough_left zero h = omega arith
enough_left (suc zero) h = omega arith
enough_left (suc (suc zero)) h = omega arith
enough_left (suc (suc (suc zero))) h = omega arith
enough_left (suc (suc (suc (suc i)))) h = absurd (omega arith)

handle_get_object-handle_put_object_example :
    (answer.0.sent ≡ some (200, (codes "ETag", etag (pos 13)) ∷ []))
    × (handle_get_object st new_parity
          (store_of 2 1 4)
          (λ i. 3)
          14
          new_writer
          get_request
          damaged_store
        ≡ (
          write (raw (codes "hello, shards")) (size_headers (pos 13) (write_header 200 new_writer)),
          damaged_store,
        ))
    × ((handle_get_object st new_parity
          (store_of 2 1 4)
          (λ i. 3)
          14
          new_writer
          get_request
          damaged_store).0.sent
        ≡ some (200, []))
    × (handle_head_object st new_parity (store_of 2 1 4) new_writer get_request damaged_store
        ≡ (write_header 200 (size_headers (pos 13) new_writer), damaged_store))
unfolding chunks
handle_get_object-handle_put_object_example =
    handle_get_object-handle_put_object digest st (mem_store-IsShardStore digest) new_parity 2 1
      parity_scheme 4 (omega arith) bucket_store answer.1 damaged_store put_request get_request
      answer.0 bkt key (codes "hello, shards") [] (empty_reader, pos 0) (empty_reader, pos 0)
      put_request-IsObjectPath put_request-IsObjectPath refl refl refl bucket_before fresh
      (omega arith) (omega arith) refl
      (IsDamaged-delete_shard digest st (mem_store-IsShardStore digest) (object_id bkt key) answer.1
        lost_key)
      enough_left bucket_after (λ i. 3) (λ i. omega arith) 14 (omega arith)
