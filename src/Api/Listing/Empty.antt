-- ===== src/Api/Listing/Empty.antt =====
-- Listing a bucket of a store without shards.
use shardstore.Common.{ℕ, ◌≤◌, ◌≡◌, refl, ◌∙◌, arith, Bytes, List, [], ◌∷◌, ℤ, pos, length, str_eq}
use shardstore.Common.Assoc.{no_members}
use shardstore.Errors.{Result, ok, err, object_not_found, shard_not_found}
use shardstore.Ec.ReedSolomon.{Engine}
use shardstore.Ec.Created.{IsScheme}
use shardstore.Storage.Header.{ShardKey}
use shardstore.Storage.ShardStore.{ShardStore, IsShardStore, key_eq}
use shardstore.Storage.Object.{ObjectStore, Body, get_object, object_shards}
use shardstore.Storage.Recovery.Putting.{store_of, stripes_of, length-chunks}
use shardstore.Storage.Recovery.Objects.{IsPut-put_object, read_marker-put_object}
use shardstore.Api.Paths.{validate_bucket_name, bucket_marker_id, slash}
use shardstore.Api.Types.{ListedObject}
use shardstore.Api.Http.{Request, new_writer, write_xml_error, write_header}
use shardstore.Api.Buckets.{handle_create_bucket}
use shardstore.Api.Listing.{handle_list_objects_v2}
use shardstore.Api.Lifecycle.{parsed, named, create_new, marker_stored}

module _ {S : Type 0} (sha256 : Bytes → Bytes) (st : ShardStore S)
    (law : IsShardStore sha256 st) where
  object_shards_none :
      (s : S)
      → ((k : ShardKey) → st.get_shard s k ≡ err shard_not_found)
      → st.read_marker s [] ≡ err object_not_found
      → object_shards st s [] ≡ err object_not_found
  unfolding object_shards
  object_shards_none s none missing =
      let (ks, listed, here) = law.list_lem s [] in
      let empty : ks ≡ [] = no_members ks (λ k. here k ∙ rw (none k) refl) in
      rw (listed, empty, missing) refl

  list_empty :
      (new_engine : ℤ → ℤ → Result Engine) (o : ObjectStore) (node : Bytes)
      (order : List (Bytes × ListedObject) → List ListedObject) (s : S) (r : Request) (b : Bytes)
      (x : Body × ℤ)
      → r.path ≡ slash ∷ b
      → validate_bucket_name b ≡ ok tt
      → ((k : ShardKey) → st.get_shard s k ≡ err shard_not_found)
      → st.read_marker s [] ≡ err object_not_found
      → get_object st new_engine o s (bucket_marker_id b) ≡ ok x
      → handle_list_objects_v2 st new_engine o node order new_writer r s
        ≡ (write_xml_error 500 "InternalError" "Failed to list objects" r new_writer, s)
  unfolding handle_list_objects_v2
  list_empty new_engine o node order s r b x path valid none missing there =
      rw
        (
          parsed r.path b path valid,
          named r.path b path valid,
          there,
          object_shards_none s none missing,
        )
        refl

  module _ (new_engine : ℤ → ℤ → Result Engine) (k m : ℕ) (w : IsScheme new_engine k m) (size : ℕ)
      (positive : 1 ≤ size) where
    -- Over a store that keeps the contract, a scheme for which the library keeps its documentation, and
    -- stripes of at least one byte: in a store without any shards, where the marker of the bucket and the
    -- marker of the empty id are not there, a PUT of a valid bucket name is answered with status 200, and
    -- then a GET of the bucket, whatever its query, with status 500 and not with an empty listing.
    pub handle_list_objects_v2-handle_create_bucket :
        (node : Bytes) (order : List (Bytes × ListedObject) → List ListedObject) (s : S)
        (r r' : Request) (b : Bytes)
        → r.path ≡ slash ∷ b
        → r'.path ≡ slash ∷ b
        → validate_bucket_name b ≡ ok tt
        → ((j : ShardKey) → st.get_shard s j ≡ err shard_not_found)
        → st.read_marker s [] ≡ err object_not_found
        → get_object st new_engine (store_of k m size) s (bucket_marker_id b) ≡ err object_not_found
        → (s' : S) × (handle_create_bucket st new_engine (store_of k m size) new_writer r s
            ≡ (write_header 200 new_writer, s'))
          × (handle_list_objects_v2 st new_engine (store_of k m size) node order new_writer r' s'
              ≡ (write_xml_error 500 "InternalError" "Failed to list objects" r' new_writer, s'))
    unfolding str_eq
    handle_list_objects_v2-handle_create_bucket node order s r r' b path path' valid none no_marker
          missing =
        let o = store_of k m size in
        let id = bucket_marker_id b in
        let stripes : length (stripes_of size []) ≤ 0 = length-chunks 0 size [] in
        let hid : 1 ≤ length id = omega arith in
        let (s', put, marker) =
          read_marker-put_object sha256 st law new_engine k m w size positive s id [] [] hid
            (omega (arith, stripes)) in
        let written =
          IsPut-put_object sha256 st law new_engine k m w size positive s s' id [] [] hid
            (omega (arith, stripes)) put in
        let (body, got) =
          marker_stored sha256 st law new_engine k m w size positive s s' id hid (λ j mine. none j)
            put in
        (
          s',
          create_new st new_engine o r b path valid new_writer s s' missing put,
          list_empty new_engine o node order s' r' b (body, pos 0) path' valid
              (λ j. written.shards j (λ (same, lo, hi). omega (arith, hi, stripes)) ∙ none j)
              (written.markers [] ∙ no_marker) got,
        )
