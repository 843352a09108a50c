-- ===== src/Examples/Sessions.antt =====
-- Three requests to a server over a `MemStore`, with two data shards and one parity shard and stripes of four bytes.
use shardstore.Common.{◌≡◌, refl, arith, false, Bytes, [], codes, length, pos}
use shardstore.Common.Assoc.{lookup}
use shardstore.Common.Search.{has_prefix}
use shardstore.Storage.Mem.{MemStore, new_mem_store, get_shard}
use shardstore.Storage.Mem.Laws.{mem_store-IsShardStore}
use shardstore.Storage.Recovery.Putting.{store_of}
use shardstore.Storage.Recovery.Stripes.{chunks}
use shardstore.Storage.Recovery.RoundTrip.{HasNoShards}
use shardstore.Api.Paths.{object_id}
use shardstore.Api.Http.{Request, raw, etag, write, write_header, set_header}
use shardstore.Api.Objects.{size_headers}
use shardstore.Api.Server.Session.{Incoming, IsLetIn, IsObjectName, serve, with_id, serve-serve}
use shardstore.Examples.Parity.{parity_scheme, new_parity}
use shardstore.Examples.Objects.{digest, st}
use shardstore.Examples.Requests.{
  bkt, key, bucket_request, put_request, key-IsSegment, bkt-validate_bucket_name, no_shards,
  no_bucket,
}
use shardstore.Examples.Listings.{surroundings}

-- A signed request with the id that is generated for it.
abbrev signed : Request → Incoming
signed r = record {
  header = codes "AWS4-HMAC-SHA256 x";
  given = [];
  generated = codes "id";
  request = r;
}

abbrev get_request : Request
get_request = record put_request { method = codes "GET" }

signed-IsLetIn : (r : Request) → IsLetIn false (signed r)
unfolding has_prefix
signed-IsLetIn r = refl

name : IsObjectName bkt key
name = record {
  valid = bkt-validate_bucket_name;
  segment = key-IsSegment;
  some_key = unfold shardstore.Common.str_eq in refl;
  no_dots = unfold shardstore.Common.str_eq in refl;
}

no_object : HasNoShards st (object_id bkt key) new_mem_store
unfolding get_shard lookup
no_object j mine = refl

serve-serve_example :
    (s₁ : MemStore) × (s₂ : MemStore) × (serve st new_parity
        (store_of 2 1 4)
        surroundings
        false
        (signed bucket_request)
        new_mem_store
      ≡ (write_header 200 (with_id (signed bucket_request)), s₁))
    × (serve st new_parity (store_of 2 1 4) surroundings false (signed put_request) s₁
        ≡ (write_header 200 (set_header "ETag" (etag (pos 13)) (with_id (signed put_request))), s₂))
    × (serve st new_parity (store_of 2 1 4) surroundings false (signed get_request) s₂ ≡ (
      write
          (raw (codes "hello, shards"))
          (size_headers (pos 13) (write_header 200 (with_id (signed get_request)))),
      s₂,
    ))
unfolding chunks
serve-serve_example =
    serve-serve digest st (mem_store-IsShardStore digest) new_parity 2 1 parity_scheme 4
      (omega arith) surroundings false (signed bucket_request) (signed put_request)
      (signed get_request) bkt key (codes "hello, shards") [] new_mem_store
      (signed-IsLetIn bucket_request) (signed-IsLetIn put_request) (signed-IsLetIn get_request) name
      refl refl refl refl refl refl refl refl refl no_shards no_bucket no_object (omega arith)
      (omega arith) (λ i. omega arith) (omega arith)
