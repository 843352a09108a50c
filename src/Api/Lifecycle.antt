-- ===== src/Api/Lifecycle.antt =====
-- Buckets, from their creation on.
use shardstore.Common.{
  ℕ, ◌≤◌, ◌≡◌, refl, ap, arith, ◌==◌, false, Bytes, [], ◌∷◌, ℤ, pos, length, inl,
}
use shardstore.Errors.{Result, ok, err, object_not_found, is_object_not_found}
use shardstore.Ec.ReedSolomon.{Engine}
use shardstore.Ec.Created.{IsScheme}
use shardstore.Storage.ShardStore.{ShardStore, IsShardStore}
use shardstore.Storage.Object.{ObjectStore, Body, put_object, get_object}
use shardstore.Storage.Recovery.Putting.{store_of, stripes_of, length-chunks}
use shardstore.Storage.Recovery.Damage.{IsDamaged}
use shardstore.Storage.Recovery.RoundTrip.{HasNoShards}
use shardstore.Storage.Recovery.Objects.{get_object-put_object, read_marker-put_object}
use shardstore.Api.Paths.{parse_path_values, validate_bucket_name, bucket_marker_id, slash}
use shardstore.Api.Http.{Request, Writer, new_writer, write_xml_error, write_header}
use shardstore.Api.Names.{parse-bucket, valid_chars, object_id-validate_bucket_name}
use shardstore.Api.Buckets.{handle_create_bucket, handle_head_bucket}

unchanged : {S : Type 0} (st : ShardStore S) (id : Bytes) (s : S) → IsDamaged st id s s
unchanged st id s = record { shards = λ j mine. inl refl; marker = refl }

module _ (p b : Bytes) (path : p ≡ slash ∷ b) (valid : validate_bucket_name b ≡ ok tt) where
  pub parsed : (parse_path_values p).0 ≡ b
  parsed = rw path (ap (λ t. t.0) (parse-bucket b (object_id-validate_bucket_name b [] valid).0))

  pub named : (length b == 0) ≡ false
  named = ground (arith, (valid_chars b valid).0)

module _ {S : Type 0} (st : ShardStore S) (new_engine : ℤ → ℤ → Result Engine) (o : ObjectStore)
    (r : Request) (b : Bytes) (path : r.path ≡ slash ∷ b) (valid : validate_bucket_name b ≡ ok tt)
    (w : Writer) where
  pub create_new :
      (s s' : S)
      → get_object st new_engine o s (bucket_marker_id b) ≡ err object_not_found
      → put_object st new_engine o s (bucket_marker_id b) [] (pos 0) ≡ (ok tt, s')
      → handle_create_bucket st new_engine o w r s ≡ (write_header 200 w, s')
  unfolding handle_create_bucket is_object_not_found
  create_new s s' missing put =
      rw (parsed r.path b path valid, named r.path b path valid, valid, missing, put) refl

  create_again :
      (s : S) (x : Body × ℤ)
      → get_object st new_engine o s (bucket_marker_id b) ≡ ok x
      → (handle_create_bucket st new_engine o w r s
          ≡ (write_xml_error 409 "BucketAlreadyOwnedByYou" "Bucket already exists" r w, s))
        × (handle_head_bucket st new_engine o w r s ≡ (write_header 200 w, s))
  unfolding handle_create_bucket handle_head_bucket
  create_again s x there = (
    rw (parsed r.path b path valid, named r.path b path valid, valid, there) refl,
    rw (parsed r.path b path valid, named r.path b path valid, there) refl,
  )

module _ {S : Type 0} (sha256 : Bytes → Bytes) (st : ShardStore S) (law : IsShardStore sha256 st)
    (new_engine : ℤ → ℤ → Result Engine) (k m : ℕ) (w : IsScheme new_engine k m) (size : ℕ)
    (positive : 1 ≤ size) where
  pub marker_stored :
      (s s' : S) (id : Bytes)
      → 1 ≤ length id
      → HasNoShards st id s
      → put_object st new_engine (store_of k m size) s id [] (pos 0) ≡ (ok tt, s')
      → (body : Body) × (get_object st new_engine (store_of k m size) s' id ≡ ok (body, pos 0))
  marker_stored s s' id hid fresh put =
      let none : length (stripes_of size []) ≤ 0 = length-chunks 0 size [] in
      let (body, got, all) =
        get_object-put_object sha256 st law new_engine k m w size positive s s' s' id [] [] hid
          fresh (omega arith) (omega (arith, none)) put (unchanged st id s')
          (λ i h. absurd (omega (arith, none))) (λ i. 1) (λ i. omega arith) 1 (omega arith) in
      (body, got)

  -- Over a store that keeps the contract, a scheme for which the library keeps its documentation,
  -- and stripes of at least one byte: a
  -- PUT of a valid bucket name whose marker is not there, nor shards of it, is answered with status 200; in the
  -- store that it leaves, a HEAD of the bucket is answered with status 200, and the same PUT with status
  -- 409 and the code BucketAlreadyOwnedByYou, and these two do not change the store.
  pub handle_head_bucket-handle_create_bucket :
      (s : S) (r : Request) (b : Bytes)
      → r.path ≡ slash ∷ b
      → validate_bucket_name b ≡ ok tt
      → HasNoShards st (bucket_marker_id b) s
      → get_object st new_engine (store_of k m size) s (bucket_marker_id b) ≡ err object_not_found
      → (s' : S) × (handle_create_bucket st new_engine (store_of k m size) new_writer r s
          ≡ (write_header 200 new_writer, s'))
        × (handle_head_bucket st new_engine (store_of k m size) new_writer r s'
            ≡ (write_header 200 new_writer, s'))
        × (handle_create_bucket st new_engine (store_of k m size) new_writer r s' ≡ (
          write_xml_error 409 "BucketAlreadyOwnedByYou" "Bucket already exists" r new_writer,
          s',
        ))
  handle_head_bucket-handle_create_bucket s r b path valid fresh missing =
      let o = store_of k m size in
      let id = bucket_marker_id b in
      let none : length (stripes_of size []) ≤ 0 = length-chunks 0 size [] in
      let hid : 1 ≤ length id = omega arith in
      let (s', put, marker) =
        read_marker-put_object sha256 st law new_engine k m w size positive s id [] [] hid
          (omega (arith, none)) in
      let (body, got) = marker_stored s s' id hid fresh put in
      let (again, head) =
        create_again st new_engine o r b path valid new_writer s' (body, pos 0) got in
      (s', create_new st new_engine o r b path valid new_writer s s' missing put, head, again)
