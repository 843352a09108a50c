-- ===== src/Examples/Uploads.antt =====
-- A multipart upload of one part to a `MemStore`.
use shardstore.Common.{ℕ, zero, suc, ◌≤◌, ◌<◌, ◌≡◌, refl, arith, inl, str_eq, add_int}
use shardstore.Common.{Bytes, List, [], ◌∷◌, length, pos, codes, ℤ, Option, none, some}
use shardstore.Common.Assoc.{lookup, insert, IsUnique, keys}
use shardstore.Errors.{ok}
use shardstore.Ec.{new_encoder, encode}
use shardstore.Ec.Scheme.{validate}
use shardstore.Reader.{read_full}
use shardstore.Storage.Mem.{MemStore, new_mem_store, get_shard, put_shard, write_marker}
use shardstore.Storage.Mem.Laws.{mem_store-IsShardStore}
use shardstore.Storage.Object.{put_object, put_stripe, to_ec_params}
use shardstore.Storage.Recovery.Shards.{count_ok}
use shardstore.Storage.Recovery.Putting.{store_of, stripes_of}
use shardstore.Storage.Recovery.Stripes.{chunks}
use shardstore.Storage.Recovery.Damage.{IsDamaged}
use shardstore.Storage.Recovery.RoundTrip.{HasNoShards}
use shardstore.Storage.Recovery.Objects.{get_object-put_object}
use shardstore.Api.Paths.{object_id}
use shardstore.Common.Digits.{format_int}
use shardstore.Api.Http.{Request, new_writer, write_xml, upload_completed, etag}
use shardstore.Api.Multipart.{complete_upload}
use shardstore.Api.Completed.{GivesPart, upload_ids, get_object-complete_upload}
use shardstore.Storage.Mem.Unique.{HasUniqueKeys, mem_store-ListsOnce}
use shardstore.Storage.Recovery.Cleanup.{put_object-good}
use shardstore.Storage.Object.{Body, get_object, read_body}
use shardstore.Examples.Requests.{bkt-validate_bucket_name}
use shardstore.Common.{All}
use shardstore.Errors.{err, object_not_found}
use shardstore.Examples.Parity.{parity_scheme, new_parity}
use shardstore.Examples.Objects.{digest, st}

abbrev unmarshal : Bytes → Option (List ℤ)
unmarshal b = some (pos 1 ∷ [])

abbrev atoi : Bytes → Option ℤ
atoi b = none

abbrev part_id : Bytes
part_id = codes "__multipart__/bkt/key/u/part/1"

abbrev part_store : MemStore
part_store =
    (put_object st new_parity (store_of 2 1 4) new_mem_store part_id (codes "abcde") (pos 5)).1

abbrev complete_request : Request
complete_request = record {
  method = codes "POST";
  query = (codes "uploadId", codes "u") ∷ (codes "action", codes "complete") ∷ [];
  path = codes "/bkt/key";
  range = [];
  content_length = pos 0;
  body = [];
  id = none;
}

put_part_runs :
    put_object st new_parity (store_of 2 1 4) new_mem_store part_id (codes "abcde") (pos 5)
    ≡ (ok tt, part_store)
unfolding put_object new_encoder validate to_ec_params shardstore.Ec.Scheme.shard_count add_int
    read_full put_stripe encode put_shard str_eq write_marker
put_part_runs = refl

fresh : HasNoShards st part_id new_mem_store
unfolding get_shard lookup
fresh j mine = refl

nothing_lost : IsDamaged st part_id part_store part_store
nothing_lost = record { shards = λ j mine. inl refl; marker = refl }

enough_left :
    (i : ℕ) → i < length (stripes_of 4 (codes "abcde")) → 2 ≤ count_ok st part_id i part_store 3 0
unfolding count_ok chunks get_shard lookup insert put_object new_encoder validate to_ec_params
    shardstore.Ec.Scheme.shard_count add_int read_full put_stripe encode put_shard str_eq
    write_marker
enough_left zero h = omega arith
enough_left (suc zero) h = omega arith
enough_left (suc (suc i)) h = absurd (omega arith)

part-GivesPart :
    GivesPart st new_parity unmarshal atoi
      (store_of 2 1 4)
      (λ i. 3)
      6
      (object_id (codes "bkt") (codes "key"))
      (codes "u")
      part_store
      (λ n. codes "abcde")
      (pos 1)
unfolding chunks format_int
part-GivesPart =
    let (body, got, all) =
      get_object-put_object digest st (mem_store-IsShardStore digest) new_parity 2 1 parity_scheme 4
        (omega arith) new_mem_store part_store part_store part_id (codes "abcde") [] (omega arith)
        fresh (omega arith) (omega arith) put_part_runs nothing_lost enough_left (λ i. 3)
        (λ i. omega arith) 6 (omega arith) in
    record {
      body = body;
      size = pos 5;
      outcome = ok tt;
      opened = got;
      read = all;
      no_panic = λ t bad. absurd (cc bad);
    }

part_store-HasUniqueKeys : HasUniqueKeys digest part_store
unfolding IsUnique keys
part_store-HasUniqueKeys =
    put_object-good st (HasUniqueKeys digest) (mem_store-ListsOnce digest) new_parity
      (store_of 2 1 4) new_mem_store part_id (codes "abcde") (pos 5) tt

no_object : HasNoShards st (codes "bkt/key") part_store
unfolding put_object new_encoder validate to_ec_params shardstore.Ec.Scheme.shard_count add_int
    read_full put_stripe encode put_shard str_eq write_marker get_shard lookup insert
no_object j mine = rw mine refl

get_object-complete_upload_example :
    (s' : MemStore) × (complete_upload st new_parity unmarshal atoi
        (store_of 2 1 4)
        (λ i. 3)
        6
        new_writer
        complete_request
        (codes "bkt")
        (codes "key")
        (codes "u")
        part_store
      ≡ (
        write_xml 200
            (upload_completed (record {
              location = codes "/bkt/key";
              bucket = codes "bkt";
              key = codes "key";
              etag = etag (pos 5);
            }))
            new_writer,
        s',
      ))
    × ((body : Body) × (get_object st new_parity (store_of 2 1 4) s' (codes "bkt/key")
          ≡ ok (body, pos 5))
        × (read_body st (λ i. 3) 6 s' body ≡ (codes "abcde", ok tt)))
    × All
        (λ id. get_object st new_parity (store_of 2 1 4) s' id ≡ err object_not_found)
        (upload_ids (codes "bkt/key") (codes "u") (pos 1 ∷ []))
unfolding chunks
get_object-complete_upload_example =
    get_object-complete_upload digest st (mem_store-IsShardStore digest) new_parity 2 1
      parity_scheme 4 (omega arith) (HasUniqueKeys digest) (mem_store-ListsOnce digest) unmarshal
      atoi (λ i. 3) 6 new_writer complete_request (codes "bkt") (codes "key") (codes "u") part_store
      (λ n. codes "abcde") (pos 1 ∷ []) part_store-HasUniqueKeys bkt-validate_bucket_name refl
      (part-GivesPart, tt) no_object (omega arith) (omega arith) (λ i. omega arith) (omega arith)
