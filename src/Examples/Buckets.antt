-- ===== src/Examples/Buckets.antt =====
-- A bucket in a `MemStore`, and its deletion.
use shardstore.Common.{ℕ, ◌≡◌, ◌≢◌, refl, Bytes, ◌∷◌, pos, add_int, str_eq}
use shardstore.Common.Assoc.{lookup, insert}
use shardstore.Ec.{new_encoder, encode}
use shardstore.Ec.Scheme.{validate}
use shardstore.Reader.{read_full}
use shardstore.Storage.Header.{ShardKey}
use shardstore.Storage.Mem.{MemStore, get_shard, put_shard, write_marker}
use shardstore.Storage.Mem.Laws.{mem_store-IsShardStore}
use shardstore.Storage.Object.{put_object, put_stripe, to_ec_params, empty_reader}
use shardstore.Storage.Recovery.Putting.{store_of}
use shardstore.Storage.Recovery.RoundTrip.{HasNoShards}
use shardstore.Api.Paths.{bucket_marker_id, slash}
use shardstore.Api.Http.{Request, new_writer, write_header}
use shardstore.Api.Buckets.{handle_delete_bucket, handle_head_bucket}
use shardstore.Api.Objects.{
  handle_put_object, handle_get_object, handle_head_object, handle_delete_object,
}
use shardstore.Api.Responses.{IsObjectPath}
use shardstore.Api.Deleted.{no_such_bucket, handle_object-handle_delete_bucket}
use shardstore.Examples.Parity.{new_parity}
use shardstore.Examples.Objects.{digest, st}
use shardstore.Examples.Requests.{
  bkt, bucket_request, bucket_store, bucket_before, bkt-validate_bucket_name,
}

no_shards : HasNoShards st (bucket_marker_id bkt) bucket_store
unfolding get_shard put_object new_encoder validate to_ec_params shardstore.Ec.Scheme.shard_count
    add_int read_full put_stripe encode put_shard str_eq write_marker insert lookup
no_shards j mine = refl

handle_object-handle_delete_bucket_example :
    (s' : MemStore) × (handle_delete_bucket st new_parity
        (store_of 2 1 4)
        new_writer
        bucket_request
        bucket_store
      ≡ (write_header 204 new_writer, s'))
    × ((r : Request) (ob : Bytes) (sizes : ℕ → ℕ) (fuel : ℕ)
        → IsObjectPath r.path bkt ob
        → (handle_put_object st new_parity (store_of 2 1 4) new_writer r s'
            ≡ (no_such_bucket r, s'))
          × (handle_get_object st new_parity (store_of 2 1 4) sizes fuel new_writer r s'
              ≡ (no_such_bucket r, s'))
          × (handle_head_object st new_parity (store_of 2 1 4) new_writer r s'
              ≡ (no_such_bucket r, s'))
          × (handle_delete_object st new_parity (store_of 2 1 4) new_writer r s'
              ≡ (no_such_bucket r, s')))
    × ((r : Request)
        → r.path ≡ slash ∷ bkt
        → (handle_head_bucket st new_parity (store_of 2 1 4) new_writer r s'
            ≡ (no_such_bucket r, s'))
          × (handle_delete_bucket st new_parity (store_of 2 1 4) new_writer r s'
              ≡ (no_such_bucket r, s')))
    × ((j : ShardKey)
        → j.object_id ≢ bucket_marker_id bkt
        → (st.get_shard s' j ≡ st.get_shard bucket_store j)
          × (st.read_marker s' j.object_id ≡ st.read_marker bucket_store j.object_id))
handle_object-handle_delete_bucket_example =
    handle_object-handle_delete_bucket digest st (mem_store-IsShardStore digest) new_parity
      (store_of 2 1 4) bucket_store bucket_request bkt (empty_reader, pos 0) refl
      bkt-validate_bucket_name no_shards bucket_before
