-- ===== src/Examples/Listings.antt =====
-- Listings, and requests that the server routes.
use shardstore.Common.{
  ℕ, ◌≡◌, refl, arith, ◌&&◌, Bool, true, Bytes, List, [], ◌∷◌, pos, ℤ, codes, map, Option, none,
  some, str_eq,
}
use shardstore.Common.Assoc.{mem_key, keys, bytes_eq, lookup}
use shardstore.Common.Atoi.{atoi}
use shardstore.Common.Search.{has_prefix}
use shardstore.Errors.{Result, ok, err, shard_not_found, object_not_found}
use shardstore.Storage.Header.{ShardKey}
use shardstore.Storage.Mem.{MemStore, new_mem_store, get_shard, read_marker}
use shardstore.Storage.Mem.Laws.{mem_store-IsShardStore}
use shardstore.Storage.Object.{put_object, get_object}
use shardstore.Storage.Recovery.Putting.{store_of}
use shardstore.Api.Paths.{object_id}
use shardstore.Api.Types.{ListedObject}
use shardstore.Api.Http.{Request, new_writer, write_header, write_xml_error}
use shardstore.Api.Buckets.{handle_create_bucket}
use shardstore.Api.Objects.{
  handle_put_object, handle_get_object, handle_head_object, handle_delete_object,
}
use shardstore.Api.Multipart.{handle_multipart_operations}
use shardstore.Api.Listing.{collect, listed_object, handle_list_objects_v2}
use shardstore.Api.Listing.Contents.{has_shard, collect_lem}
use shardstore.Api.Listing.Keys.{is_ok}
use shardstore.Api.Listing.Empty.{handle_list_objects_v2-handle_create_bucket}
use shardstore.Api.Server.{Surroundings, method_not_allowed, serve_mux}
use shardstore.Api.Server.Routing.{IsOtherMethod, serve_mux_object}
use shardstore.Examples.Parity.{parity_scheme, new_parity}
use shardstore.Examples.Objects.{digest, st}
use shardstore.Examples.Requests.{
  bkt, key, bucket_request, put_request, key-IsSegment, bkt-validate_bucket_name, no_bucket,
}

abbrev values : List (Bytes × ListedObject) → List ListedObject
values [] = []
values ((k, x) ∷ m) = x ∷ values m

abbrev list_request : Request
list_request = record {
  method = codes "GET";
  query = [];
  path = codes "/bkt";
  range = [];
  content_length = pos 0;
  body = [];
  id = none;
}

no_shard : (j : ShardKey) → get_shard digest new_mem_store j ≡ err shard_not_found
unfolding get_shard lookup
no_shard j = refl

no_empty_marker : read_marker new_mem_store [] ≡ err object_not_found
unfolding read_marker lookup
no_empty_marker = refl

handle_list_objects_v2-handle_create_bucket_example :
    (s' : MemStore) × (handle_create_bucket st new_parity
        (store_of 2 1 4)
        new_writer
        bucket_request
        new_mem_store
      ≡ (write_header 200 new_writer, s'))
    × (handle_list_objects_v2 st new_parity
          (store_of 2 1 4)
          (codes "node")
          values
          new_writer
          list_request
          s'
        ≡ (
          write_xml_error 500 "InternalError" "Failed to list objects" list_request new_writer,
          s',
        ))
handle_list_objects_v2-handle_create_bucket_example =
    handle_list_objects_v2-handle_create_bucket digest st (mem_store-IsShardStore digest) new_parity
      2 1 parity_scheme 4 (omega arith) (codes "node") values new_mem_store bucket_request
      list_request bkt refl refl bkt-validate_bucket_name no_shard no_empty_marker no_bucket

-- A store with an object, and one shard of each of two objects.
abbrev object_store : MemStore
object_store =
    (put_object st new_parity (store_of 2 1 4) new_mem_store (object_id bkt key) (codes "hello")
      (pos 5)).1

abbrev some_keys : List ShardKey
some_keys =
    record { object_id = object_id bkt key; stripe_idx = 0; shard_idx = 0 }
    ∷ record { object_id = codes "bkt/lost"; stripe_idx = 0; shard_idx = 0 }
    ∷ []

abbrev collected : List (Bytes × ListedObject)
collected = (key, listed_object (codes "node") key (pos 5)) ∷ []

collect_runs :
    collect st new_parity (store_of 2 1 4) (codes "node") bkt [] object_store some_keys []
    ≡ ok collected
unfolding collect shardstore.Api.Listing.listed_key has_prefix str_eq get_object
    shardstore.Storage.Mem.list_object_shards keys put_object shardstore.Ec.new_encoder
    shardstore.Ec.Scheme.validate shardstore.Storage.Object.to_ec_params
    shardstore.Ec.Scheme.shard_count shardstore.Common.add_int shardstore.Reader.read_full
    shardstore.Storage.Object.put_stripe shardstore.Ec.encode shardstore.Storage.Mem.put_shard
    shardstore.Storage.Mem.write_marker shardstore.Common.Assoc.insert lookup
    shardstore.Common.str_lt shardstore.Common.Digits.format_int
    shardstore.Common.Search.trim_prefix shardstore.Errors.is_object_not_found
    shardstore.Storage.Mem.key_lt shardstore.Storage.Mem.keys_of shardstore.Storage.Mem.list_shards
    shardstore.Storage.Mem.sort_keys shardstore.Storage.Object.encoder
    shardstore.Storage.Object.last_stripe_len shardstore.Storage.Object.open_object
    shardstore.Storage.Object.max_stripe shardstore.Storage.Object.shard_count
    shardstore.Storage.Mem.verify_shard shardstore.Storage.Mem.read_marker
collect_runs = refl

collect_lem_example : mem_key key (keys collected) ≡ (
    has_shard (object_id bkt key) some_keys
    && (has_prefix key []
        && is_ok (get_object st new_parity (store_of 2 1 4) object_store (object_id bkt key))))
collect_lem_example =
    collect_lem st new_parity (store_of 2 1 4) (codes "node") bkt [] bkt-validate_bucket_name
      object_store key some_keys collected collect_runs

abbrev pub surroundings : Surroundings
surroundings = record {
  node = codes "node";
  order = values;
  unmarshal = λ b. none;
  sizes = λ i. 3;
  fuel = 14;
  new_id = codes "u";
  mux_answer = λ x r w. w;
}

-- A part of an upload, by PUT.
abbrev part_request : Request
part_request = record put_request {
  query = (codes "uploadId", codes "u") ∷ (codes "partNumber", codes "1") ∷ [];
}

serve_mux_object_example :
    (serve_mux st new_parity
        (store_of 2 1 4)
        surroundings
        new_writer
        (record part_request { method = codes "PUT" })
        new_mem_store
      ≡ handle_put_object st new_parity
          (store_of 2 1 4)
          new_writer
          (record part_request { method = codes "PUT" })
          new_mem_store)
    × (serve_mux st new_parity
          (store_of 2 1 4)
          surroundings
          new_writer
          (record part_request { method = codes "GET" })
          new_mem_store
        ≡ handle_get_object st new_parity
            (store_of 2 1 4)
            (λ i. 3)
            14
            new_writer
            (record part_request { method = codes "GET" })
            new_mem_store)
    × (serve_mux st new_parity
          (store_of 2 1 4)
          surroundings
          new_writer
          (record part_request { method = codes "HEAD" })
          new_mem_store
        ≡ handle_head_object st new_parity
            (store_of 2 1 4)
            new_writer
            (record part_request { method = codes "HEAD" })
            new_mem_store)
    × (serve_mux st new_parity
          (store_of 2 1 4)
          surroundings
          new_writer
          (record part_request { method = codes "DELETE" })
          new_mem_store
        ≡ handle_delete_object st new_parity
            (store_of 2 1 4)
            new_writer
            (record part_request { method = codes "DELETE" })
            new_mem_store)
    × (serve_mux st new_parity
          (store_of 2 1 4)
          surroundings
          new_writer
          (record part_request { method = codes "POST" })
          new_mem_store
        ≡ handle_multipart_operations st new_parity
            (λ b. none)
            atoi
            (store_of 2 1 4)
            (λ i. 3)
            14
            (codes "u")
            new_writer
            (record part_request { method = codes "POST" })
            new_mem_store)
    × ((m : Bytes)
        → IsOtherMethod m
        → serve_mux st new_parity
            (store_of 2 1 4)
            surroundings
            new_writer
            (record part_request { method = m })
            new_mem_store
          ≡ (
            surroundings.mux_answer method_not_allowed
                (record part_request { method = m })
                new_writer,
            new_mem_store,
          ))
unfolding str_eq
serve_mux_object_example =
    serve_mux_object st new_parity (store_of 2 1 4) surroundings new_writer part_request
      new_mem_store bkt key refl bkt-validate_bucket_name key-IsSegment refl refl
