-- ===== src/Storage/Recovery/Kept.antt =====
-- An object of which nothing was lost.
use shardstore.Common.{ℕ, ◌+◌, ◌^◌, ◌≤◌, ◌<◌, ◌≡◌, refl, inl}
use shardstore.Common.{Bytes, List, [], ◌∷◌, length, ℤ, pos}
use shardstore.Errors.{Result, ok}
use shardstore.Ec.ReedSolomon.{Engine}
use shardstore.Ec.Created.{IsScheme, the_encoder}
use shardstore.Storage.Header.{ShardKey}
use shardstore.Storage.ShardStore.{ShardStore, IsShardStore}
use shardstore.Storage.Object.{Body, key_of, read_body, get_object}
use shardstore.Storage.Recovery.Reading.{AllReadable}
use shardstore.Storage.Recovery.Writing.{AllStored}
use shardstore.Storage.Recovery.Putting.{store_of, stripes_of, IsPut}
use shardstore.Storage.Recovery.RoundTrip.{HasNoShards, get_stored}
use shardstore.Storage.Recovery.Overwrite.{IsReadable-IsStored}

module _ {S : Type 0} (sha256 : Bytes → Bytes) (st : ShardStore S) (law : IsShardStore sha256 st)
    (new_engine : ℤ → ℤ → Result Engine) (k m : ℕ) (w : IsScheme new_engine k m) where
  AllReadable-AllStored :
      (s s' : S) (id : Bytes) (idx : ℕ) (xs : List Bytes)
      → ((j : ShardKey) → j.object_id ≡ id → st.get_shard s' j ≡ st.get_shard s j)
      → AllStored sha256 st law k m
          (the_encoder new_engine k m w)
          w.code
          w.data_pos
          w.small
          s
          id
          idx
          xs
      → AllReadable st k m (the_encoder new_engine k m w) w.code w.data_pos w.small s' id idx xs
  AllReadable-AllStored s s' id idx [] same t = tt
  AllReadable-AllStored s s' id idx (x ∷ xs) same (h, t) = (
    IsReadable-IsStored sha256 st law new_engine k m w s s' id idx x
        (λ i. same (key_of id idx i) refl) h,
    AllReadable-AllStored s s' id (idx + 1) xs same t,
  )

  -- An object that was put is read whole from every state that holds the same of it.
  pub get_kept :
      (size : ℕ) (positive : 1 ≤ size) (id d : Bytes) (s₀ s₁ s : S)
      → 1 ≤ length id
      → HasNoShards st id s₀
      → IsPut sha256 st law new_engine k m w size positive id d s₀ s₁
      → ((j : ShardKey) → j.object_id ≡ id → st.get_shard s j ≡ st.get_shard s₁ j)
      → st.read_marker s id ≡ st.read_marker s₁ id
      → length (stripes_of size d) < 2 ^ 32
      → length d < 2 ^ 63
      → (sizes : ℕ → ℕ) → ((i : ℕ) → 1 ≤ sizes i)
      → (fuel : ℕ) → length d < fuel
      → (body : Body) × (get_object st new_engine (store_of k m size) s id
          ≡ ok (body, pos (length d)))
        × (read_body st sizes fuel s body ≡ (d, ok tt))
  get_kept size positive id d s₀ s₁ s hid fresh put shards marker few small sizes some_room fuel
        enough =
      get_stored sha256 st law new_engine k m w size positive id d hid s₀ s₁ s fresh put
        (record { shards = λ j mine. inl (shards j mine); marker = marker }) (stripes_of size d)
        refl (AllReadable-AllStored s₁ s id 0 (stripes_of size d) shards put.stored) few small sizes
        some_room fuel enough
