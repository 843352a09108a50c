-- ===== src/Api/Multipart.antt =====
-- `handleMultipartOperations`. The routes lead to it by POST only.
use shardstore.Common.{
  ℕ, ◌*◌, ◌==◌, ◌&&◌, ◌||◌, not, Bool, ℤ, pos, Bytes, List, [], ◌∷◌, ◌++◌, length, if◌then◌else◌,
  codes, Option, none, some, ltb_ℤ, str_eq,
}
use shardstore.Errors.{Result, ok, err, panic}
use shardstore.Ec.ReedSolomon.{Engine}
use shardstore.Storage.ShardStore.{ShardStore}
use shardstore.Storage.Object.{ObjectStore, Body, put_object, get_object, delete_object, read_body}
use shardstore.Api.Paths.{parse_path_values, object_id, slash}
use shardstore.Common.Digits.{format_int}
use shardstore.Api.Http.{
  Request, Writer, query_get, upload_created, upload_completed, set_header, write_header, write_xml,
  write_xml_error, abort, etag,
}
use shardstore.Api.Buckets.{done_or_500}

abbrev pub upload_marker_id : Bytes → Bytes → Bytes
upload_marker_id id upload = codes "__multipart__/" ++ (id ++ slash ∷ upload)

abbrev pub part_marker_id : Bytes → Bytes → ℤ → Bytes
part_marker_id id upload n = upload_marker_id id upload ++ (codes "/part/" ++ format_int 10 n)

abbrev pub min_part_size : ℤ
min_part_size = pos (5 * 1024 * 1024)

abbrev has : Bytes → Bool
has v = not (length v == 0)

-- `io.ReadAll` of a part, whose error is dropped, and then the parts that follow.
abbrev pub after_part : Bytes × Result (Unit {0}) → (Bytes → Result Bytes) → Result Bytes
after_part (bytes, err (panic t)) rest = err (panic t)
after_part (bytes, x) rest = rest bytes

abbrev with_part : Result (Body × ℤ) → (Body → Result Bytes) → Result Bytes
with_part (ok (body, size)) rest = rest body
with_part (err e) rest = err e

-- The parts that the request's body lists.
abbrev with_listing :
    {S : Type 0} → Option (List ℤ) → Writer → Request → S → (List ℤ → Writer × S) → Writer × S
with_listing none w r s rest = (write_xml_error 400 "InvalidArgument" "Invalid XML" r w, s)
with_listing (some parts) w r s rest = rest parts

-- The answer, and the store, when the parts were read.
abbrev with_parts :
    {S : Type 0} → Result Bytes → Writer → Request → S → (Bytes → Writer × S) → Writer × S
with_parts (ok bytes) w r s rest = rest bytes
with_parts (err (panic t)) w r s rest = (abort w, s)
with_parts (err e) w r s rest = (write_xml_error 500 "InternalError" "Failed to read part" r w, s)

-- The answer after the combined object was stored, and the cleaning up behind it.
abbrev cleaned :
    {S : Type 0} → Request → Writer → Writer → (S → S) → Result (Unit {0}) × S → Writer × S
cleaned r w good clean (ok t, s) = (good, clean s)
cleaned r w good clean (err e, s) =
    (write_xml_error 500 "InternalError" "Failed to complete multipart upload" r w, s)

-- `xml.Unmarshal` of the request's parts gives their numbers, and `strconv.Atoi` a number.
module _ {S : Type 0} (st : ShardStore S) (new_engine : ℤ → ℤ → Result Engine)
    (unmarshal : Bytes → Option (List ℤ)) (atoi : Bytes → Option ℤ) (o : ObjectStore)
    (sizes : ℕ → ℕ) (fuel : ℕ) where
  -- All parts in the order of the request, one after the other.
  unfoldable pub read_parts : Bytes → Bytes → List ℤ → Bytes → S → Result Bytes
  read_parts id upload [] full s = ok full
  read_parts id upload (n ∷ ns) full s =
      with_part (get_object st new_engine o s (part_marker_id id upload n)) λ body.
        after_part (read_body st sizes fuel s body)
          λ bytes. read_parts id upload ns (full ++ bytes) s

  -- The errors of the deletions are dropped.
  unfoldable pub delete_parts : Bytes → Bytes → List ℤ → S → S
  delete_parts id upload [] s = s
  delete_parts id upload (n ∷ ns) s =
      delete_parts id upload ns (delete_object st s (part_marker_id id upload n)).1

  unfoldable pub complete_upload : Writer → Request → Bytes → Bytes → Bytes → S → Writer × S
  unfolding read_parts delete_parts
  complete_upload w r bucket object upload s =
      let id = object_id bucket object in
      with_listing (unmarshal r.body) w r s λ parts.
        with_parts (read_parts id upload parts [] s) w r s λ bytes.
          cleaned r w
            (write_xml 200
              (upload_completed (record {
                location = slash ∷ object_id bucket object;
                bucket = bucket;
                key = object;
                etag = etag (pos (length bytes));
              }))
              w)
            (λ s'.
              (delete_object st (delete_parts id upload parts s') (upload_marker_id id upload)).1)
            (put_object st new_engine o s id bytes (pos (length bytes)))

  -- `UploadPart`, of a part with a valid number.
  unfoldable pub upload_part : Writer → Request → Bytes → Bytes → Option ℤ → S → Writer × S
  upload_part w r id upload none s =
      (write_xml_error 400 "InvalidArgument" "Invalid part number" r w, s)
  upload_part w r id upload (some n) s =
      if ltb_ℤ n (pos 1)
      then (write_xml_error 400 "InvalidArgument" "Invalid part number" r w, s)
      else if ltb_ℤ r.content_length (pos 0)
      then (write_xml_error 411 "MissingContentLength" "Content-Length required" r w, s)
      else if ltb_ℤ r.content_length min_part_size
      then (write_xml_error 400 "EntityTooSmall" "Part size must be at least 5 MiB" r w, s)
      else done_or_500 "Failed to upload part" r w
          (write_header 200 (set_header "ETag" (etag r.content_length) w))
          (put_object st new_engine o s (part_marker_id id upload n) r.body r.content_length)

  -- `new_id` is what `generateUploadID` returns.
  unfoldable pub handle_multipart_operations : Bytes → Writer → Request → S → Writer × S
  unfolding complete_upload upload_part
  handle_multipart_operations new_id w r s =
      let (bucket, object) = parse_path_values r.path in
      let id = object_id bucket object in
      let uploads = query_get "uploads" r in
      let upload = query_get "uploadId" r in
      let part = query_get "partNumber" r in
      let action = query_get "action" r in
      let is_get = str_eq r.method (codes "GET") in
      let is_post = str_eq r.method (codes "POST") in
      if (length bucket == 0) || (length object == 0)
      then (write_xml_error 400 "InvalidArgument" "Bucket and object required" r w, s)
      else if has uploads && is_get
      then (write_xml_error 501 "NotImplemented" "ListMultipartUploads not implemented" r w, s)
      else if not (has upload) && (not (has part) && is_post)
      then (if has uploads
          then (write_xml_error 501 "NotImplemented" "ListMultipartUploads not implemented" r w, s)
          else done_or_500 "Failed to initiate multipart upload" r w
              (write_xml 200
                (upload_created (record { bucket = bucket; key = object; upload_id = new_id })) w)
              (put_object st new_engine o s (upload_marker_id id new_id) [] (pos 0)))
      else if has upload && (has part && str_eq r.method (codes "PUT"))
      then upload_part w r id upload (atoi part) s
      else if has upload && is_get
      then (write_xml_error 501 "NotImplemented" "ListParts not implemented" r w, s)
      else if has upload && (is_post && str_eq action (codes "complete"))
      then complete_upload w r bucket object upload s
      else if has upload && (is_post && str_eq action (codes "abort"))
      then (write_header 204 w, (delete_object st s (upload_marker_id id upload)).1)
      else (write_xml_error 400 "InvalidArgument" "Invalid multipart operation" r w, s)
