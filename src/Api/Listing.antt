-- ===== src/Api/Listing.antt =====
-- `handleListObjectsV2`: `GET /{bucket}`.
pub mod Keys
pub mod Empty
pub mod Contents
use shardstore.Common.{
  ℕ, ◌==◌, ◌&&◌, not, leb, ltb_ℤ, ℤ, pos, pos_part, Bool, Bytes, List, [], ◌∷◌, ◌++◌, length, take,
  map, if◌then◌else◌, codes, Option, none, some, str_eq,
}
use shardstore.Common.Search.{has_prefix, trim_prefix}
use shardstore.Common.Assoc.{bytes_eq, lookup}
use shardstore.Common.Atoi.{atoi}
use shardstore.Errors.{Result, ok, err, panic, ◌>>=◌}
use shardstore.Ec.ReedSolomon.{Engine}
use shardstore.Storage.Header.{ShardKey}
use shardstore.Storage.ShardStore.{ShardStore}
use shardstore.Storage.Object.{ObjectStore, Body, get_object, object_shards}
use shardstore.Api.Paths.{parse_path_values, bucket_marker_id, slash}
use shardstore.Api.Types.{ListedObject, ListObjectsResult}
use shardstore.Api.Http.{
  Request, Writer, query_get, listing, write_xml, write_xml_error, abort, etag,
}
use shardstore.Api.Buckets.{require_bucket}

-- The object's key in the listing, for the id of a shard that the loop does not skip.
unfoldable pub listed_key : Bytes → Bytes → Bytes → Option Bytes
listed_key bucket prefix id =
    if not (has_prefix id (bucket ++ slash ∷ []))
    then none
    else if has_prefix id (codes "__bucket__/")
    then none
    else if has_prefix id (codes "__multipart__/")
    then none
    else (let key = trim_prefix id (bucket ++ slash ∷ []) in
        if not (str_eq prefix []) && not (has_prefix key prefix) then none else some key)

abbrev pub listed_object : Bytes → Bytes → ℤ → ListedObject
listed_object node key size = record {
  key = key;
  etag = etag size;
  size = size;
  storage_class = codes "STANDARD";
  owner = node;
}

-- `if _, ok := objectMap[objKey]; !ok { objectMap[objKey] = … }`
abbrev pub insert_new :
    Bytes → ListedObject → List (Bytes × ListedObject) → List (Bytes × ListedObject)
insert_new key x m = elim (lookup key m) [ none ↦ (key, x) ∷ m | some y ↦ m ]

-- One round: what `GetObject` says of the id decides whether the object is listed.
abbrev pub add_object :
    Bytes
    → Bytes
    → Result (Body × ℤ)
    → List (Bytes × ListedObject)
    → Result (List (Bytes × ListedObject))
add_object node key (err (panic t)) m = err (panic t)
add_object node key (err e) m = ok m
add_object node key (ok (body, size)) m = ok (insert_new key (listed_object node key size) m)

abbrev pub round :
    Bytes
    → Option Bytes
    → Result (Body × ℤ)
    → List (Bytes × ListedObject)
    → Result (List (Bytes × ListedObject))
round node none got m = ok m
round node (some key) got m = add_object node key got m

unfoldable pub max_keys_of : Bytes → ℕ
max_keys_of v = elim (atoi v) [
  | none ↦ 1000
  | some n ↦ if ltb_ℤ (pos 0) n then pos_part n else 1000
]

-- The answer, for the values of the map in the order in which the loop meets them.
abbrev pub list_result : Bytes → Bytes → Bytes → ℕ → List ListedObject → ListObjectsResult
list_result bucket prefix delimiter max_keys objects =
    let contents = take max_keys objects in
    record {
      name = bucket;
      prefix = prefix;
      key_count = length contents;
      max_keys = max_keys;
      delimiter = delimiter;
      is_truncated = leb max_keys (length contents);
      contents = contents;
    }

abbrev pub answer_keys :
    {S : Type 0}
    → Result (List ShardKey)
    → Writer
    → Request
    → S
    → (List ShardKey → Writer × S)
    → Writer × S
answer_keys (ok keys) w r s rest = rest keys
answer_keys (err e) w r s rest =
    (write_xml_error 500 "InternalError" "Failed to list objects" r w, s)

abbrev pub answer_objects :
    {S : Type 0}
    → Result (List (Bytes × ListedObject))
    → Writer
    → S
    → (List (Bytes × ListedObject) → ListObjectsResult)
    → Writer × S
answer_objects (ok m) w s result = (write_xml 200 (listing (result m)) w, s)
answer_objects (err e) w s result = (abort w, s)

-- The order in which Go ranges over a map is an argument, `order`, and the node's id another.
module _ {S : Type 0} (st : ShardStore S) (new_engine : ℤ → ℤ → Result Engine) (o : ObjectStore)
    (node : Bytes) where
  unfoldable pub collect :
      Bytes
      → Bytes
      → S
      → List ShardKey
      → List (Bytes × ListedObject)
      → Result (List (Bytes × ListedObject))
  collect bucket prefix s [] m = ok m
  collect bucket prefix s (k ∷ ks) m = do
    m' ←
        round node (listed_key bucket prefix k.object_id) (get_object st new_engine o s k.object_id)
          m
    collect bucket prefix s ks m'

  unfoldable pub handle_list_objects_v2 :
      (List (Bytes × ListedObject) → List ListedObject) → Writer → Request → S → Writer × S
  unfolding collect max_keys_of
  handle_list_objects_v2 order w r s =
      let bucket = (parse_path_values r.path).0 in
      let prefix = query_get "prefix" r in
      let delimiter = query_get "delimiter" r in
      let max_keys = max_keys_of (query_get "max-keys" r) in
      if length bucket == 0
      then (write_xml_error 400 "InvalidArgument" "Bucket name cannot be empty" r w, s)
      else require_bucket (get_object st new_engine o s (bucket_marker_id bucket)) w r s (
          answer_keys (object_shards st s []) w r s λ keys.
            answer_objects (collect bucket prefix s keys []) w s
              λ m. list_result bucket prefix delimiter max_keys (order m))
