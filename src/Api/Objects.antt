-- ===== src/Api/Objects.antt =====
-- The handlers of objects: `PUT`, `GET`, `HEAD` and `DELETE /{bucket}/{object}`.
use shardstore.Common.{
  ℕ, ◌==◌, ◌||◌, ℤ, pos, negsuc, Bytes, ◌++◌, length, if◌then◌else◌, codes, add_int, ltb_ℤ,
}
use shardstore.Errors.{Result, ok, err, panic, is_object_not_found}
use shardstore.Ec.ReedSolomon.{Engine}
use shardstore.Storage.ShardStore.{ShardStore}
use shardstore.Storage.Object.{ObjectStore, Body, put_object, get_object, delete_object, read_body}
use shardstore.Api.Paths.{parse_path_values, bucket_marker_id, object_id}
use shardstore.Common.Digits.{format_int}
use shardstore.Api.Http.{
  Request, Writer, raw, set_header, write_header, write, write_xml_error, abort, etag,
}
use shardstore.Api.Buckets.{require_bucket, done_or_500}

-- The check that the object exists: what `GetObject` says, and the rest of the handler.
abbrev pub require_object :
    {S : Type 0} → Result (Body × ℤ) → Writer → Request → S → (Body → ℤ → Writer × S) → Writer × S
require_object (ok (body, size)) w r s rest = rest body size
require_object (err (panic t)) w r s rest = (abort w, s)
require_object (err e) w r s rest =
    if is_object_not_found e
    then (write_xml_error 404 "NoSuchKey" "Object does not exist" r w, s)
    else (write_xml_error 500 "InternalError" "Failed to get object" r w, s)

-- The answer to `DeleteObject`.
abbrev pub deleted : {S : Type 0} → Request → Writer → Result (Unit {0}) × S → Writer × S
deleted r w (ok t, s) = (write_header 204 w, s)
deleted r w (err e, s) =
    if is_object_not_found e
    then (write_xml_error 404 "NoSuchKey" "Object does not exist" r w, s)
    else (write_xml_error 500 "InternalError" "Failed to delete object" r w, s)

-- `io.Copy(w, reader)` after the status was sent, all its writes as one. Its error is dropped; a panic
-- of the reader is not.
abbrev pub copied : Writer → Bytes × Result (Unit {0}) → Writer
copied w (bytes, err (panic t)) = abort (write (raw bytes) w)
copied w (bytes, x) = write (raw bytes) w

abbrev pub size_headers : ℤ → Writer → Writer
size_headers size w =
    set_header "Content-Type" (codes "application/octet-stream")
      (set_header "ETag" (etag size) (set_header "Content-Length" (format_int 10 size) w))

abbrev pub content_range : ℤ → Bytes
content_range size =
    codes "bytes 0-"
    ++ (format_int 10 (add_int size (negsuc 0)) ++ (codes "/" ++ format_int 10 size))

module _ {S : Type 0} (st : ShardStore S) (new_engine : ℤ → ℤ → Result Engine)
    (o : ObjectStore) where
  -- The part that the handlers share: the path and the bucket, and then the rest of the handler.
  abbrev pub with_object : Writer → Request → S → (Bytes → Writer × S) → Writer × S
  with_object w r s rest =
      let (bucket, object) = parse_path_values r.path in
      if (length bucket == 0) || (length object == 0)
      then (write_xml_error 400 "InvalidArgument" "Bucket and object required" r w, s)
      else require_bucket (get_object st new_engine o s (bucket_marker_id bucket)) w r s
          (rest (object_id bucket object))

  unfoldable pub handle_put_object : Writer → Request → S → Writer × S
  handle_put_object w r s = with_object w r s λ id.
      if ltb_ℤ r.content_length (pos 0)
      then (write_xml_error 411 "MissingContentLength" "Content-Length required" r w, s)
      else done_or_500 "Failed to put object" r w
          (write_header 200 (set_header "ETag" (etag r.content_length) w))
          (put_object st new_engine o s id r.body r.content_length)

  -- `sizes` are the sizes of the slices that io.Copy reads into, and `fuel` bounds their number.
  unfoldable pub handle_get_object : (ℕ → ℕ) → ℕ → Writer → Request → S → Writer × S
  handle_get_object sizes fuel w r s = with_object w r s λ id.
      require_object (get_object st new_engine o s id) w r s λ body size.
        let started =
          if length r.range == 0
          then write_header 200 w
          else write_header 206 (set_header "Content-Range" (content_range size) w) in
        (copied (size_headers size started) (read_body st sizes fuel s body), s)

  unfoldable pub handle_head_object : Writer → Request → S → Writer × S
  handle_head_object w r s = with_object w r s λ id.
      require_object (get_object st new_engine o s id) w r s
        λ body size. (write_header 200 (size_headers size w), s)

  unfoldable pub handle_delete_object : Writer → Request → S → Writer × S
  handle_delete_object w r s = with_object w r s (λ id. deleted r w (delete_object st s id))
