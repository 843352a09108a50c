-- ===== src/Examples/Stores.antt =====
-- Objects in a `FileStore`, and two uploads at the same time; two data shards and one parity shard, and stripes
-- of four bytes.
use shardstore.Common.{ℕ, zero, suc, ◌≤◌, ◌<◌, ◌≡◌, refl, ap, arith, inl, inr, true}
use shardstore.Common.{length-append, length-replicate, length-take, ◌++◌}
use shardstore.Common.{Bytes, List, [], ◌∷◌, length, replicate, pos, codes, All}
use shardstore.Errors.{Result, ok, Result-cases}
use shardstore.Storage.Header.{ShardKey}
use shardstore.Storage.Mem.{
  MemStore, new_mem_store, mem_store, put_shard, write_marker, delete_shard,
}
use shardstore.Storage.Mem.Laws.{mem_store-IsShardStore}
use shardstore.Ec.{new_encoder, encode}
use shardstore.Ec.Scheme.{validate, shard_count}
use shardstore.Reader.{read_full}
use shardstore.Common.{add_int, str_eq, str_lt, to_int64, to_uint64}
use shardstore.Common.Assoc.{lookup, insert, erase, keys}
use shardstore.Storage.Object.{
  to_ec_params, put_stripe, encoder, last_stripe_len, open_object, max_stripe, put_loop, put_shards,
}
use shardstore.Storage.Recovery.Stripes.{chunks}
use shardstore.Storage.Mem
use shardstore.Storage.File.{FileStore, new_file_store, file_store, get_shard}
use shardstore.Storage.ShardStore.Calls.{Call, delete, calls}
use shardstore.Storage.File.Calls.{IsCall}
use shardstore.Storage.File.Uploads.{IsName}
use shardstore.Storage.File.Alike.{Alike, new-Alike, calls-Same}
use shardstore.Storage.File.Downloads.{count_ok-Alike}
use shardstore.Storage.File.Objects.{put_object-Same, get_object-calls-put_object}
use shardstore.Storage.Object.{Body, object_reader, put_object, get_object, read_body}
use shardstore.Storage.Recovery.Shards.{count_ok}
use shardstore.Storage.Recovery.Putting.{store_of, stripes_of, length-chunks}
use shardstore.Storage.Recovery.Load.{reader_at}
use shardstore.Storage.Recovery.Termination.{ends}
use shardstore.Storage.Recovery.Ending.{ends-read_body}
use shardstore.Storage.Concurrent.Plan.{put_plan, follow}
use shardstore.Storage.Concurrent.Planned.{put_object-put_plan}
use shardstore.Storage.Concurrent.Interleaving.{Interleaves, done, first, second}
use shardstore.Storage.Concurrent.TwoUploads.{
  upload, IsUploadable, IsReadBack, get_object-interleaved,
}
use shardstore.Ec.Created.{the_encoder}
use shardstore.Storage.Mem.Laws.{get_shard-cases}
use shardstore.Examples.Files.{keep, first_id, second_id, InUse, apart}
use shardstore.Examples.Parity.{parity_scheme, new_parity}

abbrev five_bytes : Bytes
five_bytes = codes "hello"

abbrev lost_key : ShardKey
lost_key = record { object_id = first_id; stripe_idx = 1; shard_idx = 0 }

abbrev lost : List Call
lost = delete lost_key ∷ []

keep-digest : (d : Bytes) → length (keep d) ≡ 32
keep-digest d = omega (
  arith,
  length-take 32 (d ++ replicate 32 0),
  length-append d (replicate 32 0),
  length-replicate {A = ℕ} 32 0,
)

first_id-IsName : IsName InUse first_id
first_id-IsName = record { used = inl refl; id_pos = omega arith; id_le = omega arith }

lost-IsCall : All (IsCall keep InUse) lost
lost-IsCall = (record { id = inl refl; stripe = omega arith; shard = omega arith }, tt)

abbrev file_put : Result (Unit {0}) × FileStore
file_put =
    put_object (file_store keep) new_parity (store_of 2 1 4) new_file_store first_id five_bytes
      (pos 5)

abbrev mem_put : Result (Unit {0}) × MemStore
mem_put =
    put_object (mem_store keep) new_parity (store_of 2 1 4) new_mem_store first_id five_bytes
      (pos 5)

abbrev file_left : FileStore
file_left = (calls (file_store keep) file_put.1 lost).1

abbrev mem_left : MemStore
mem_left = (calls (mem_store keep) mem_put.1 lost).1

left-Alike : Alike keep InUse file_left mem_left
left-Alike =
    let (same, alike) =
      put_object-Same keep keep-digest InUse apart new_parity 2 1 parity_scheme 4 (omega arith)
        new_file_store new_mem_store first_id five_bytes (pos 5) (new-Alike keep InUse)
        first_id-IsName (omega arith, omega arith) in
    calls-Same keep InUse apart lost file_put.1 mem_put.1 alike lost-IsCall

enough_in_mem :
    (i : ℕ)
    → i < length (stripes_of 4 five_bytes)
    → 2 ≤ count_ok (mem_store keep) first_id i mem_left 3 0
unfolding count_ok chunks insert Mem.get_shard lookup delete_shard erase put_object new_encoder
    validate to_ec_params shard_count add_int read_full put_stripe encode put_shard str_eq
    write_marker calls
enough_in_mem zero h = omega arith
enough_in_mem (suc zero) h = omega arith
enough_in_mem (suc (suc i)) h = absurd (omega arith)

enough_in_file :
    (i : ℕ)
    → i < length (stripes_of 4 five_bytes)
    → 2 ≤ count_ok (file_store keep) first_id i file_left 3 0
unfolding chunks
enough_in_file i h =
    let same =
      count_ok-Alike keep InUse apart file_left mem_left left-Alike first_id (inl refl) i 3
        (omega arith) in
    omega (arith, same, enough_in_mem i h)

get_object-calls-put_object_example :
    (file_put.0 ≡ ok tt)
    × (body : Body) × (get_object (file_store keep) new_parity (store_of 2 1 4) file_left first_id
        ≡ ok (body, pos 5))
    × (read_body (file_store keep) (λ i. 3) 6 file_left body ≡ (five_bytes, ok tt))
unfolding chunks calls get_shard lookup
get_object-calls-put_object_example =
    get_object-calls-put_object keep keep-digest InUse apart new_parity 2 1 parity_scheme 4
      (omega arith) [] first_id five_bytes [] lost first_id-IsName tt lost-IsCall (tt, tt)
      (λ j hj mine. refl) (omega arith) (omega arith) enough_in_file (λ i. 3) (λ i. omega arith) 6
      (omega arith)

put_object-put_plan_example :
    mem_put
    ≡ follow
        (mem_store keep)
        (put_plan new_parity (store_of 2 1 4) first_id five_bytes (pos 5)).0
        (put_plan new_parity (store_of 2 1 4) first_id five_bytes (pos 5)).1
        new_mem_store
put_object-put_plan_example =
    put_object-put_plan (mem_store keep) new_parity (store_of 2 1 4) new_mem_store first_id
      five_bytes (pos 5)

-- The calls in turn.
alternate : List Call → List Call → List Call
alternate [] ys = ys
alternate (x ∷ xs) [] = x ∷ xs
alternate (x ∷ xs) (y ∷ ys) = x ∷ y ∷ alternate xs ys

only_second : (ys : List Call) → Interleaves [] ys ys
only_second [] = done
only_second (y ∷ ys) = second (only_second ys)

only_first : (xs : List Call) → Interleaves xs [] xs
only_first [] = done
only_first (x ∷ xs) = first (only_first xs)

Interleaves-alternate : (xs ys : List Call) → Interleaves xs ys (alternate xs ys)
unfolding alternate
Interleaves-alternate [] ys = only_second ys
Interleaves-alternate (x ∷ xs) [] = only_first (x ∷ xs)
Interleaves-alternate (x ∷ xs) (y ∷ ys) = first (second (Interleaves-alternate xs ys))

abbrev three_bytes : Bytes
three_bytes = codes "abc"

abbrev in_turn : List Call
in_turn =
    alternate (upload new_parity 2 1 4 first_id five_bytes [])
      (upload new_parity 2 1 4 second_id three_bytes [])

uploadable :
    (id d : Bytes)
    → 1 ≤ length id
    → length d ≤ 5
    → IsUploadable (mem_store keep) 4 new_mem_store id d
unfolding Mem.get_shard lookup
uploadable id d h few = record {
  named = h;
  fresh = λ j mine. refl;
  small = omega arith;
  few = omega (arith, length-chunks (length d) 4 d);
}

get_object-interleaved_example :
    All (λ r. r ≡ ok tt) (calls (mem_store keep) new_mem_store in_turn).0
    × IsReadBack
        (mem_store keep)
        new_parity
        2
        1
        4
        (calls (mem_store keep) new_mem_store in_turn).1
        first_id
        five_bytes
        (λ i. 3)
        6
    × IsReadBack
        (mem_store keep)
        new_parity
        2
        1
        4
        (calls (mem_store keep) new_mem_store in_turn).1
        second_id
        three_bytes
        (λ i. 3)
        6
get_object-interleaved_example =
    get_object-interleaved keep (mem_store keep) (mem_store-IsShardStore keep) new_parity 2 1
      parity_scheme 4 (omega arith) new_mem_store first_id five_bytes [] second_id three_bytes []
      in_turn (uploadable first_id five_bytes (omega arith) (omega arith))
      (uploadable second_id three_bytes (omega arith) (omega arith))
      (λ e. absurd (let n : 3 ≡ 7 = ap (λ (t : Bytes). length t) e in omega arith))
      (Interleaves-alternate _ _) (λ i. 3) (λ i. omega arith) 6 (omega arith) (omega arith)

opened :
    get_object (mem_store keep) new_parity (store_of 2 1 4) mem_put.1 first_id
    ≡ ok (
      object_reader (reader_at 2 1 (the_encoder new_parity 2 1 parity_scheme) first_id 4 2 0 [] 0),
      pos 5,
    )
unfolding get_object Mem.list_object_shards keys put_object new_encoder validate to_ec_params
    shard_count add_int read_full put_stripe encode put_shard str_eq write_marker insert Mem.key_lt
    str_lt to_int64 to_uint64 Mem.keys_of Mem.list_shards Mem.sort_keys encoder last_stripe_len
    open_object max_stripe shardstore.Storage.Object.shard_count put_loop put_shards lookup
    Mem.verify_shard
opened = refl

ends-get_shard : (m : MemStore) (k : ShardKey) → ends ((mem_store keep).get_shard m k) ≡ true
ends-get_shard m k = elim (Result-cases ((mem_store keep).get_shard m k)) [
  | inl (x, found) ↦ rw found refl
  | inr (e, fails) ↦ elim (get_shard-cases keep m k e fails) [
    | inl missing ↦ rw (fails, missing) refl
    | inr corrupt ↦ rw (fails, corrupt) refl
  ]
]

ends-read_body_example :
    (fuel : ℕ) × ((f : ℕ)
      → fuel ≤ f
      → ends
          (read_body
            (mem_store keep)
            (λ i. 3)
            f
            mem_put.1
            (object_reader
              (reader_at 2 1 (the_encoder new_parity 2 1 parity_scheme) first_id 4 2 0 [] 0))).1
        ≡ true)
ends-read_body_example =
    ends-read_body (mem_store keep) mem_put.1 (ends-get_shard mem_put.1) (λ i. 3) (λ i. omega arith)
      new_parity (store_of 2 1 4) first_id
      (object_reader (reader_at 2 1 (the_encoder new_parity 2 1 parity_scheme) first_id 4 2 0 [] 0))
      (pos 5) opened
