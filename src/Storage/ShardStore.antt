-- ===== src/Storage/ShardStore.antt =====
-- The interface `ShardStore` of internal/storage/store.go, and what its clients rely on.
pub mod Calls
use shardstore.Common.{◌≡◌, Bool, true, false, ◌&&◌, ◌||◌, Bytes, List, [], if◌then◌else◌, str_eq}
use shardstore.Common.{str_eq_iff, ◌==◌, ◌↔◌, arith, length, pos}
use shardstore.Common.Assoc.{Eq, mem_key}
use shardstore.Errors.{Result, ok, err, shard_not_found, object_not_found}
use shardstore.Storage.Header.{ShardKey, ShardHeader, ObjectMeta}

-- Key equality, as Go compares the structs.
abbrev pub beq_key : ShardKey → ShardKey → Bool
beq_key a b =
    str_eq a.object_id b.object_id
    && ((a.stripe_idx == b.stripe_idx) && (a.shard_idx == b.shard_idx))

beq_key→eq : (a b : ShardKey) → beq_key a b ≡ true → a ≡ b
beq_key→eq a b h = ground (arith, str_eq_iff a.object_id b.object_id)

eq→beq_key : (a b : ShardKey) → a ≡ b → beq_key a b ≡ true
eq→beq_key a b h = ground (arith, str_eq_iff a.object_id b.object_id)

pub beq_key_iff : (a b : ShardKey) → (beq_key a b ≡ true) ↔ (a ≡ b)
beq_key_iff a b = (beq_key→eq a b, eq→beq_key a b)

instance abbrev pub key_eq : Eq ShardKey
key_eq = record { beq = beq_key; beq_iff = beq_key_iff }

-- The methods, over the implementation's state. A method that only reads leaves the state alone.
-- The context argument is left out: it can only cancel.
pub record ShardStore (S : Type 0) : Type 0 where
  pub put_shard : S → ShardKey → ShardHeader → Bytes → Result (Unit {0}) × S
  pub get_shard : S → ShardKey → Result (Bytes × ShardHeader)
  pub verify_shard : S → ShardKey → Result ShardHeader
  pub delete_shard : S → ShardKey → Result (Unit {0}) × S
  pub list_shards : S → Result (List ShardKey)
  pub list_object_shards : S → Bytes → Result (List ShardKey)
  pub write_marker : S → Bytes → ObjectMeta → Result (Unit {0}) × S
  pub read_marker : S → Bytes → Result ObjectMeta
  pub remove_marker : S → Bytes → Result (Unit {0}) × S

-- Is there a shard, in whatever state?
abbrev pub is_there {ℓ} : {A : Type ℓ} → Result A → Bool
is_there (ok a) = true
is_there (err shard_not_found) = false
is_there (err _) = true

-- What a read by `GetShard` says that `VerifyShard` says too.
abbrev pub header_of : Result (Bytes × ShardHeader) → Result ShardHeader
header_of (ok (d, h)) = ok h
header_of (err e) = err e

-- The contract: a map from keys to shards, and a map from object ids to markers.
pub record IsShardStore {S : Type 0} (sha256 : Bytes → Bytes) (st : ShardStore S) : Type 0 where
  -- A shard whose header agrees with the key and the payload is stored with its checksum, and
  -- nothing else changes.
  pub put_ok :
      (s : S) (k : ShardKey) (h : ShardHeader) (d : Bytes)
      → k.object_id ≡ h.object_id
      → h.data_len ≡ pos (length d)
      → (st.put_shard s k h d).0 ≡ ok tt
  pub get-put :
      (s : S) (k : ShardKey) (h : ShardHeader) (d : Bytes) (j : ShardKey)
      → k.object_id ≡ h.object_id
      → h.data_len ≡ pos (length d)
      → st.get_shard (st.put_shard s k h d).1 j
        ≡ (if beq_key k j then ok (d, record h { checksum = sha256 d }) else st.get_shard s j)
  pub read_marker-put :
      (s : S) (k : ShardKey) (h : ShardHeader) (d : Bytes) (id : Bytes)
      → st.read_marker (st.put_shard s k h d).1 id ≡ st.read_marker s id
  pub verify_lem : (s : S) (k : ShardKey) → st.verify_shard s k ≡ header_of (st.get_shard s k)
  pub delete_ok :
      (s : S) (k : ShardKey)
      → (st.delete_shard s k).0
        ≡ (if is_there (st.get_shard s k) then ok tt else err shard_not_found)
  pub get-delete :
      (s : S) (k j : ShardKey)
      → st.get_shard (st.delete_shard s k).1 j
        ≡ (if beq_key k j then err shard_not_found else st.get_shard s j)
  pub read_marker-delete :
      (s : S) (k : ShardKey) (id : Bytes)
      → st.read_marker (st.delete_shard s k).1 id ≡ st.read_marker s id
  -- The keys of the shards of one object, or of all objects for the empty id.
  pub list_lem :
      (s : S) (id : Bytes)
      → (ks : List ShardKey) × (st.list_object_shards s id ≡ ok ks)
        × ((k : ShardKey)
            → mem_key k ks
              ≡ (is_there (st.get_shard s k) && (str_eq id [] || str_eq k.object_id id)))
  pub write_marker_ok : (s : S) (id : Bytes) (m : ObjectMeta) → (st.write_marker s id m).0 ≡ ok tt
  pub read-write_marker :
      (s : S) (id : Bytes) (m : ObjectMeta) (j : Bytes)
      → st.read_marker (st.write_marker s id m).1 j
        ≡ (if str_eq id j then ok m else st.read_marker s j)
  pub get-write_marker :
      (s : S) (id : Bytes) (m : ObjectMeta) (k : ShardKey)
      → st.get_shard (st.write_marker s id m).1 k ≡ st.get_shard s k
  pub remove_marker_ok : (s : S) (id : Bytes) → (st.remove_marker s id).0 ≡ ok tt
  pub read-remove_marker :
      (s : S) (id j : Bytes)
      → st.read_marker (st.remove_marker s id).1 j
        ≡ (if str_eq id j then err object_not_found else st.read_marker s j)
  pub get-remove_marker :
      (s : S) (id : Bytes) (k : ShardKey)
      → st.get_shard (st.remove_marker s id).1 k ≡ st.get_shard s k
