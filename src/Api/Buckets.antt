-- ===== src/Api/Buckets.antt =====
-- The handlers of buckets: `PUT`, `DELETE` and `HEAD /{bucket}`.
use shardstore.Common.{String, ◌==◌, ℤ, pos, [], length, if◌then◌else◌}
use shardstore.Errors.{Error, Result, ok, err, panic, message, is_object_not_found}
use shardstore.Ec.ReedSolomon.{Engine}
use shardstore.Storage.ShardStore.{ShardStore}
use shardstore.Storage.Object.{ObjectStore, Body, put_object, get_object, delete_object}
use shardstore.Api.Paths.{parse_path_values, validate_bucket_name, bucket_marker_id}
use shardstore.Api.Http.{Request, Writer, write_header, write_xml_error, abort}

-- The check that the bucket exists, with which the handlers begin: what `GetObject` of its marker
-- says decides whether the handler goes on.
abbrev pub require_bucket :
    {S : Type 0} → Result (Body × ℤ) → Writer → Request → S → Writer × S → Writer × S
require_bucket (ok x) w r s rest = rest
require_bucket (err (panic t)) w r s rest = (abort w, s)
require_bucket (err e) w r s rest =
    if is_object_not_found e
    then (write_xml_error 404 "NoSuchBucket" "Bucket does not exist" r w, s)
    else (write_xml_error 500 "InternalError" "Failed to check bucket" r w, s)

-- The answer to a step that changed the store, or failed.
abbrev pub done_or_500 :
    {S : Type 0} → String → Request → Writer → Writer → Result (Unit {0}) × S → Writer × S
done_or_500 failed r w good (ok t, s) = (good, s)
done_or_500 failed r w good (err e, s) = (write_xml_error 500 "InternalError" failed r w, s)

-- Creating a bucket, after the check that it is not there.
abbrev pub create_if_absent :
    {S : Type 0} → Result (Body × ℤ) → Writer → Request → S → Writer × S → Writer × S
create_if_absent (ok x) w r s create =
    (write_xml_error 409 "BucketAlreadyOwnedByYou" "Bucket already exists" r w, s)
create_if_absent (err (panic t)) w r s create = (abort w, s)
create_if_absent (err e) w r s create =
    if is_object_not_found e
    then create
    else (write_xml_error 500 "InternalError" "Failed to check bucket" r w, s)

-- A name that is no bucket name is refused with the text of the error.
abbrev pub error_text : Error → String
error_text (message t) = t
error_text e = ""

abbrev pub require_name :
    {S : Type 0} → Result (Unit {0}) → Writer → Request → S → Writer × S → Writer × S
require_name (ok t) w r s rest = rest
require_name (err e) w r s rest = (write_xml_error 400 "InvalidArgument" (error_text e) r w, s)

module _ {S : Type 0} (st : ShardStore S) (new_engine : ℤ → ℤ → Result Engine)
    (o : ObjectStore) where
  unfoldable pub handle_create_bucket : Writer → Request → S → Writer × S
  handle_create_bucket w r s =
      let bucket = (parse_path_values r.path).0 in
      let id = bucket_marker_id bucket in
      if length bucket == 0
      then (write_xml_error 400 "InvalidArgument" "Bucket name cannot be empty" r w, s)
      else require_name (validate_bucket_name bucket) w r s (
          create_if_absent (get_object st new_engine o s id) w r s (
            done_or_500 "Failed to create bucket" r w (write_header 200 w)
              (put_object st new_engine o s id [] (pos 0))))

  unfoldable pub handle_delete_bucket : Writer → Request → S → Writer × S
  handle_delete_bucket w r s =
      let bucket = (parse_path_values r.path).0 in
      let id = bucket_marker_id bucket in
      if length bucket == 0
      then (write_xml_error 400 "InvalidArgument" "Bucket name cannot be empty" r w, s)
      else require_bucket (get_object st new_engine o s id) w r s
          (done_or_500 "Failed to delete bucket" r w (write_header 204 w) (delete_object st s id))

  unfoldable pub handle_head_bucket : Writer → Request → S → Writer × S
  handle_head_bucket w r s =
      let bucket = (parse_path_values r.path).0 in
      if length bucket == 0
      then (write_xml_error 400 "InvalidArgument" "Bucket name cannot be empty" r w, s)
      else require_bucket (get_object st new_engine o s (bucket_marker_id bucket)) w r s
          (write_header 200 w, s)
