-- ===== src/Api/Deleted.antt =====
-- What is left of a bucket that was deleted.
use shardstore.Common.{
  ◌≤◌, ◌≡◌, ◌∙◌, ◌≢◌, sym, ℕ, ap, refl, arith, Bytes, [], ◌∷◌, ℤ, codes, some, false, length,
}
use shardstore.Common.Assoc.{insert, IsUnique}
use shardstore.Errors.{Result, ok, is_object_not_found}
use shardstore.Ec.ReedSolomon.{Engine}
use shardstore.Storage.Header.{ShardKey}
use shardstore.Storage.ShardStore.{ShardStore, IsShardStore, key_eq}
use shardstore.Storage.Object.{ObjectStore, Body, get_object, delete_object}
use shardstore.Storage.Recovery.RoundTrip.{HasNoShards}
use shardstore.Storage.Recovery.Deleting.{get_object-delete_object}
use shardstore.Storage.Recovery.Cleanup.{str_eq-≢, listed_none}
use shardstore.Api.Paths.{validate_bucket_name, bucket_marker_id, slash}
use shardstore.Api.Http.{
  Request, Writer, new_writer, error_document, request_id, write_header, write_xml_error,
}
use shardstore.Api.Buckets.{handle_delete_bucket, handle_head_bucket}
use shardstore.Api.Objects.{
  handle_put_object, handle_get_object, handle_head_object, handle_delete_object,
}
use shardstore.Api.Lifecycle.{parsed, named}
use shardstore.Api.Responses.{IsObjectPath, object_no_bucket}

-- The response that says that there is no such bucket, as it is sent.
abbrev pub no_such_bucket : Request → Writer
no_such_bucket r = record {
  headers = (codes "Content-Type", codes "application/xml") ∷ [];
  sent = some (404, (codes "Content-Type", codes "application/xml") ∷ []);
  body =
      error_document (record {
        code = "NoSuchBucket";
        message = "Bucket does not exist";
        resource = r.path;
        request_id = request_id r;
      })
      ∷ [];
  aborted = false;
}

no_such_bucket_lem :
    (r : Request)
    → write_xml_error 404 "NoSuchBucket" "Bucket does not exist" r new_writer ≡ no_such_bucket r
unfolding insert
no_such_bucket_lem r = refl

module _ {S : Type 0} (sha256 : Bytes → Bytes) (st : ShardStore S) (law : IsShardStore sha256 st)
    (new_engine : ℤ → ℤ → Result Engine) (o : ObjectStore) where
  delete_reply :
      (s s' : S) (r : Request) (b : Bytes) (x : Body × ℤ)
      → r.path ≡ slash ∷ b
      → validate_bucket_name b ≡ ok tt
      → get_object st new_engine o s (bucket_marker_id b) ≡ ok x
      → delete_object st s (bucket_marker_id b) ≡ (ok tt, s')
      → handle_delete_bucket st new_engine o new_writer r s ≡ (write_header 204 new_writer, s')
  unfolding handle_delete_bucket
  delete_reply s s' r b x path valid there deleted =
      rw (parsed r.path b path valid, named r.path b path valid, there, deleted) refl

  -- Over a store that keeps the contract: let the marker of a bucket with a valid name be there, without shards.
  -- A DELETE of the bucket is answered with status 204. In the store that it leaves, every PUT, GET, HEAD and
  -- DELETE of an object of the bucket is answered with status 404 and an error document with the code
  -- NoSuchBucket and the path and the id of the request, and does not change the store; so are HEAD and DELETE
  -- of the bucket. The shards and the markers of all objects, the bucket's included, are still there.
  pub handle_object-handle_delete_bucket :
      (s : S) (dr : Request) (b : Bytes) (x : Body × ℤ)
      → dr.path ≡ slash ∷ b
      → validate_bucket_name b ≡ ok tt
      → HasNoShards st (bucket_marker_id b) s
      → get_object st new_engine o s (bucket_marker_id b) ≡ ok x
      → (s' : S) × (handle_delete_bucket st new_engine o new_writer dr s
          ≡ (write_header 204 new_writer, s'))
        × ((r : Request) (ob : Bytes) (sizes : ℕ → ℕ) (fuel : ℕ)
            → IsObjectPath r.path b ob
            → (handle_put_object st new_engine o new_writer r s' ≡ (no_such_bucket r, s'))
              × (handle_get_object st new_engine o sizes fuel new_writer r s'
                  ≡ (no_such_bucket r, s'))
              × (handle_head_object st new_engine o new_writer r s' ≡ (no_such_bucket r, s'))
              × (handle_delete_object st new_engine o new_writer r s' ≡ (no_such_bucket r, s')))
        × ((r : Request)
            → r.path ≡ slash ∷ b
            → (handle_head_bucket st new_engine o new_writer r s' ≡ (no_such_bucket r, s'))
              × (handle_delete_bucket st new_engine o new_writer r s' ≡ (no_such_bucket r, s')))
        × ((j : ShardKey)
            → j.object_id ≢ bucket_marker_id b
            → (st.get_shard s' j ≡ st.get_shard s j)
              × (st.read_marker s' j.object_id ≡ st.read_marker s j.object_id))
  unfolding handle_head_bucket handle_delete_bucket is_object_not_found IsUnique
  handle_object-handle_delete_bucket s dr b x path valid fresh there =
      let id = bucket_marker_id b in
      let some_id : 1 ≤ length id = omega arith in
      let (s', (deleted, (gone, w))) =
        get_object-delete_object sha256 st law new_engine o s id [] some_id
          (listed_none sha256 st law s id some_id fresh) tt in
      (
        s',
        delete_reply s s' dr b x path valid there deleted,
        (λ r ob sizes fuel p.
            rw (sym (no_such_bucket_lem r))
              (object_no_bucket st new_engine o sizes fuel new_writer r s' b ob p gone)),
        (λ r p. (
          rw (parsed r.path b p valid, named r.path b p valid, gone)
              (ap (λ t. (t, s')) (no_such_bucket_lem r)),
          rw (parsed r.path b p valid, named r.path b p valid, gone)
              (ap (λ t. (t, s')) (no_such_bucket_lem r)),
        )),
        (λ j other. (
          w.shards j ∙ rw (str_eq-≢ j.object_id id other) refl,
          w.markers j.object_id ∙ rw (str_eq-≢ id j.object_id (λ e. other (sym e))) refl,
        )),
      )
