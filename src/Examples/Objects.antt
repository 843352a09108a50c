-- ===== src/Examples/Objects.antt =====
-- Objects in a `MemStore`, with two data shards and one parity shard and stripes of four bytes.
use shardstore.Common.{ℕ, ◌≤◌, ◌<◌, ◌≡◌, refl, ap, arith, inl, inr, true}
use shardstore.Common.{Bytes, [], ◌∷◌, length, replicate, pos, codes}
use shardstore.Common.Assoc.{lookup, insert, erase}
use shardstore.Errors.{Error, is_corrupt_shard, is_shard_not_found, ok, err, wrap, unrecoverable}
use shardstore.Ec.{Encoder, encode, reconstruct, join, verify}
use shardstore.Ec.Laws.{join-reconstruct-encode}
use shardstore.Ec.ReedSolomon.{present}
use shardstore.Ec.Created.{scheme_params, the_encoder}
use shardstore.Storage.Header.{ShardKey}
use shardstore.Storage.ShardStore.{ShardStore, IsShardStore}
use shardstore.Storage.Mem.{MemStore, new_mem_store, mem_store, get_shard, delete_shard}
use shardstore.Storage.Mem.Laws.{mem_store-IsShardStore, get_shard-cases}
use shardstore.Storage.Object.{Body, read_body, read, put_object, get_object, key_of, is_lost}
use shardstore.Storage.Recovery.Shards.{count_ok}
use shardstore.Storage.Recovery.Load.{reader_at}
use shardstore.Storage.Recovery.Putting.{store_of, stripes_of}
use shardstore.Storage.Recovery.Stripes.{chunks}
use shardstore.Ec.{new_encoder}
use shardstore.Ec.Scheme.{validate}
use shardstore.Storage.Object.{to_ec_params, put_stripe}
use shardstore.Common.{add_int, str_eq, zero, suc}
use shardstore.Reader.{read_full}
use shardstore.Storage.Mem.{put_shard, write_marker}
use shardstore.Storage.Recovery.Damage.{IsDamaged, IsDamaged-delete_shard}
use shardstore.Storage.Recovery.RoundTrip.{HasNoShards}
use shardstore.Storage.Recovery.Objects.{
  get_object-put_object, read_marker-put_object, get_shard-put_object_ne,
}
use shardstore.Storage.Recovery.Overwrite.{get_object-put_object_again}
use shardstore.Storage.Recovery.Unrecoverable.{read_unrecoverable}
use shardstore.Examples.Parity.{parity_scheme, new_parity, parity_engine-IsErasureCode}

-- A digest that only counts.
abbrev pub digest : Bytes → Bytes
digest d = length d ∷ []

abbrev pub st : ShardStore MemStore
st = mem_store digest

abbrev the_id : Bytes
the_id = codes "b/k"

abbrev the_bytes : Bytes
the_bytes = codes "hello, shards"

abbrev put_store : MemStore
put_store = (put_object st new_parity (store_of 2 1 4) new_mem_store the_id the_bytes (pos 13)).1

abbrev lost_key : ShardKey
lost_key = record { object_id = the_id; stripe_idx = 1; shard_idx = 0 }

abbrev damaged_store : MemStore
damaged_store = (delete_shard put_store lost_key).1

put_runs :
    put_object st new_parity (store_of 2 1 4) new_mem_store the_id the_bytes (pos 13)
    ≡ (ok tt, put_store)
unfolding put_object new_encoder validate to_ec_params shardstore.Ec.Scheme.shard_count add_int
    read_full put_stripe encode put_shard str_eq write_marker
put_runs = refl

fresh : HasNoShards st the_id new_mem_store
unfolding get_shard lookup
fresh j mine = refl

one_lost : IsDamaged st the_id put_store damaged_store
one_lost =
    IsDamaged-delete_shard digest st (mem_store-IsShardStore digest) the_id put_store lost_key

enough_left :
    (i : ℕ) → i < length (stripes_of 4 the_bytes) → 2 ≤ count_ok st the_id i damaged_store 3 0
unfolding count_ok chunks insert get_shard lookup delete_shard erase put_object new_encoder validate
    to_ec_params shardstore.Ec.Scheme.shard_count add_int read_full put_stripe encode put_shard
    str_eq write_marker
enough_left zero h = omega arith
enough_left (suc zero) h = omega arith
enough_left (suc (suc zero)) h = omega arith
enough_left (suc (suc (suc zero))) h = omega arith
enough_left (suc (suc (suc (suc i)))) h = absurd (omega arith)

get_object-put_object_example :
    (body : Body) × (get_object st new_parity (store_of 2 1 4) damaged_store the_id
      ≡ ok (body, pos 13))
    × (read_body st (λ i. 3) 14 damaged_store body ≡ (the_bytes, ok tt))
unfolding chunks
get_object-put_object_example =
    get_object-put_object digest st (mem_store-IsShardStore digest) new_parity 2 1 parity_scheme 4
      (omega arith) new_mem_store put_store damaged_store the_id the_bytes [] (omega arith) fresh
      (omega arith) (omega arith) put_runs one_lost enough_left (λ i. 3) (λ i. omega arith) 14
      (omega arith)

read_marker-put_object_example :
    (s' : MemStore) × (put_object st new_parity
        (store_of 2 1 4)
        new_mem_store
        the_id
        the_bytes
        (pos 13)
      ≡ (ok tt, s'))
    × (st.read_marker s' the_id
        ≡ ok (record { size = pos 13; stripes = 4; params = scheme_params 2 1 }))
unfolding chunks
read_marker-put_object_example =
    read_marker-put_object digest st (mem_store-IsShardStore digest) new_parity 2 1 parity_scheme 4
      (omega arith) new_mem_store the_id the_bytes [] (omega arith) (omega arith)

other_key : ShardKey
other_key = record { object_id = codes "b"; stripe_idx = 0; shard_idx = 0 }

get_shard-put_object_ne_example :
    (st.get_shard put_store other_key ≡ st.get_shard new_mem_store other_key)
    × (st.read_marker put_store other_key.object_id
        ≡ st.read_marker new_mem_store other_key.object_id)
unfolding other_key chunks
get_shard-put_object_ne_example =
    get_shard-put_object_ne digest st (mem_store-IsShardStore digest) new_parity 2 1 parity_scheme 4
      (omega arith) new_mem_store put_store the_id the_bytes [] other_key (omega arith)
      (omega arith) put_runs
      (λ e. absurd (let n : 1 ≡ 3 = ap (λ (t : Bytes). length t) e in omega arith))

-- Two of three shards of stripe 1 are gone.
abbrev broken_store : MemStore
broken_store = (delete_shard damaged_store (key_of the_id 1 2)).1

only_lost :
    (i : ℕ) (x : Error) → st.get_shard broken_store (key_of the_id 1 i) ≡ err x → is_lost x ≡ true
unfolding is_lost is_corrupt_shard is_shard_not_found
only_lost i x e = elim (get_shard-cases digest broken_store (key_of the_id 1 i) x e) [
  | inl same ↦ rw same refl
  | inr same ↦ rw same refl
]

few_left : count_ok st the_id 1 broken_store 3 0 < 2
unfolding count_ok chunks insert get_shard lookup delete_shard erase put_object new_encoder validate
    to_ec_params shardstore.Ec.Scheme.shard_count add_int read_full put_stripe encode put_shard
    str_eq write_marker
few_left = omega arith

read_unrecoverable_example :
    read st broken_store
      (reader_at 2 1 (the_encoder new_parity 2 1 parity_scheme) the_id 4 4 1 [] 0)
      8
    ≡ (
      err (wrap "storage: stripe" unrecoverable),
      reader_at 2 1 (the_encoder new_parity 2 1 parity_scheme) the_id 4 4 1 [] 0,
    )
read_unrecoverable_example =
    read_unrecoverable st 2 1 (the_encoder new_parity 2 1 parity_scheme) broken_store the_id 4 4 1 8
      (omega arith) (omega arith) only_lost few_left

encoded :
    encode (the_encoder new_parity 2 1 parity_scheme) (codes "abc")
    ≡ ok ((97 ∷ 98 ∷ []) ∷ (99 ∷ 0 ∷ []) ∷ (196 ∷ 98 ∷ []) ∷ [])
unfolding encode
encoded = refl

join-reconstruct-encode_example :
    (reconstruct
        (the_encoder new_parity 2 1 parity_scheme)
        ([] ∷ (99 ∷ 0 ∷ []) ∷ (196 ∷ 98 ∷ []) ∷ [])
      ≡ ok ((97 ∷ 98 ∷ []) ∷ (99 ∷ 0 ∷ []) ∷ (196 ∷ 98 ∷ []) ∷ []))
    × (join
          (the_encoder new_parity 2 1 parity_scheme)
          (replicate 3 0)
          ((97 ∷ 98 ∷ []) ∷ (99 ∷ 0 ∷ []) ∷ (196 ∷ 98 ∷ []) ∷ [])
          (pos 3)
        ≡ ok (codes "abc"))
unfolding present
join-reconstruct-encode_example =
    join-reconstruct-encode 2 1 (the_encoder new_parity 2 1 parity_scheme) (codes "abc")
      ((97 ∷ 98 ∷ []) ∷ (99 ∷ 0 ∷ []) ∷ (196 ∷ 98 ∷ []) ∷ [])
      ([] ∷ (99 ∷ 0 ∷ []) ∷ (196 ∷ 98 ∷ []) ∷ []) parity_engine-IsErasureCode (omega arith)
      (omega arith) encoded (inr refl, (inl refl, (inl refl, tt))) (omega arith)

mem_store-IsShardStore_example : IsShardStore digest st
mem_store-IsShardStore_example = mem_store-IsShardStore digest

abbrev again_store : MemStore
again_store = (put_object st new_parity (store_of 2 1 4) put_store the_id (codes "bye") (pos 3)).1

put_again_runs :
    put_object st new_parity (store_of 2 1 4) put_store the_id (codes "bye") (pos 3)
    ≡ (ok tt, again_store)
unfolding put_object new_encoder validate to_ec_params shardstore.Ec.Scheme.shard_count add_int
    read_full put_stripe encode put_shard str_eq write_marker lookup insert
put_again_runs = refl

get_object-put_object_again_example :
    (body : Body) × (get_object st new_parity (store_of 2 1 4) again_store the_id
      ≡ ok (body, pos 13))
unfolding chunks
get_object-put_object_again_example =
    get_object-put_object_again digest st (mem_store-IsShardStore digest) new_parity 2 1
      parity_scheme 4 new_mem_store put_store again_store the_id the_bytes (codes "bye") [] []
      (omega arith) (omega arith) fresh (omega arith) (omega arith) (omega arith) put_runs
      put_again_runs
