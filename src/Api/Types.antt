-- ===== src/Api/Types.antt =====
-- internal/api/s3_types.go: the documents that the handlers answer with.
use shardstore.Common.{ℕ, ℤ, Bool, Bytes, List, String}

-- `S3ErrorResponse`, but for the id of the node, and for the names of the bucket and of the object, which
-- are always empty.
pub record S3ErrorResponse : Type 0 where
  pub code : String
  pub message : String
  pub resource : Bytes
  pub request_id : Bytes

-- `CreateMultipartUploadResult`
pub record CreateMultipartUploadResult : Type 0 where
  pub bucket : Bytes
  pub key : Bytes
  pub upload_id : Bytes

-- `CompleteMultipartUploadResult`
pub record CompleteMultipartUploadResult : Type 0 where
  pub location : Bytes
  pub bucket : Bytes
  pub key : Bytes
  pub etag : Bytes

-- `Object`. The time of the request, which it gives as LastModified, is left out; the id of the owner is
-- also its display name.
pub record ListedObject : Type 0 where
  pub key : Bytes
  pub etag : Bytes
  pub size : ℤ
  pub storage_class : Bytes
  pub owner : Bytes

-- `ListObjectsV2Result`, but for the continuation token and the common prefixes, which are always empty.
pub record ListObjectsResult : Type 0 where
  pub name : Bytes
  pub prefix : Bytes
  pub key_count : ℕ
  pub max_keys : ℕ
  pub delimiter : Bytes
  pub is_truncated : Bool
  pub contents : List ListedObject
