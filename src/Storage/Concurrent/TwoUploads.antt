-- ===== src/Storage/Concurrent/TwoUploads.antt =====
-- Two `PutObject`s of internal/storage/object.go at the same time, each of its own object. Either of them
-- is a sequence of calls of the store, and a call is one step: a `MemStore` holds its lock, and the calls of a
-- `FileStore` for different objects are on different files.
use shardstore.Common.{ℕ, ◌^◌, ◌≤◌, ◌<◌, ◌≡◌, sym, ap, ◌∙◌, ◌⊎◌, inl, inr}
use shardstore.Common.{Bytes, List, ◌++◌, length, ℤ, pos, All}
use shardstore.Common.{All-map}
use shardstore.Errors.{Result, ok}
use shardstore.Ec.ReedSolomon.{Engine}
use shardstore.Ec.Created.{IsScheme}
use shardstore.Storage.ShardStore.{ShardStore, IsShardStore}
use shardstore.Storage.ShardStore.Calls.{Call, calls}
use shardstore.Storage.Object.{Body, put_object, get_object, read_body}
use shardstore.Storage.Recovery.Putting.{store_of, stripes_of, put_object_lem}
use shardstore.Storage.Recovery.RoundTrip.{HasNoShards}
use shardstore.Storage.Recovery.Kept.{get_kept}
use shardstore.Storage.Concurrent.Plan.{put_plan}
use shardstore.Storage.Concurrent.Planned.{put_object-put_plan}
use shardstore.Storage.Concurrent.Separate.{SameOn, SameOn-refl}
use shardstore.Storage.Concurrent.Interleaving.{
  Interleaves, Interleaves-swap, All-Interleaves, IsUpload, IsUpload-IsCallFor,
  IsUpload-IsCallFor_ne, calls-SameOn, calls_ok, follow-calls,
}
use shardstore.Storage.Concurrent.Uploads.{put_plan-IsUpload}

-- The calls of a `PutObject` of all of `d`.
abbrev pub upload : (ℤ → ℤ → Result Engine) → ℕ → ℕ → ℕ → Bytes → Bytes → Bytes → List Call
upload new_engine k m size id d rest =
    (put_plan new_engine (store_of k m size) id (d ++ rest) (pos (length d))).0

-- An id without shards, and bytes that fit.
pub record IsUploadable {S : Type 0} (st : ShardStore S) (size : ℕ) (s : S) (id d : Bytes)
    : Type 0 where
  pub named : 1 ≤ length id
  pub fresh : HasNoShards st id s
  pub small : length d < 2 ^ 63
  pub few : length (stripes_of size d) < 2 ^ 32

module _ {S : Type 0} (st : ShardStore S) (new_engine : ℤ → ℤ → Result Engine) (k m size : ℕ) where
  -- The object is read whole.
  abbrev pub IsReadBack : S → Bytes → Bytes → (ℕ → ℕ) → ℕ → Type 0
  IsReadBack s id d sizes fuel =
      (body : Body) × (get_object st new_engine (store_of k m size) s id
        ≡ ok (body, pos (length d)))
      × (read_body st sizes fuel s body ≡ (d, ok tt))

module _ {S : Type 0} (sha256 : Bytes → Bytes) (st : ShardStore S) (law : IsShardStore sha256 st)
    (new_engine : ℤ → ℤ → Result Engine) (k m : ℕ) (w : IsScheme new_engine k m) (size : ℕ)
    (positive : 1 ≤ size) where
  -- The calls of a `PutObject`, made alone, do what it does.
  module _ (s₀ : S) (id d rest : Bytes) (u : IsUploadable st size s₀ id d) where
    upload_alone :
        (s₁ : S)
        → put_object st new_engine (store_of k m size) s₀ id (d ++ rest) (pos (length d))
          ≡ (ok tt, s₁)
        → (calls st s₀ (upload new_engine k m size id d rest)).1 ≡ s₁
    upload_alone s₁ put =
        let carried =
          sym (
            put_object-put_plan st new_engine (store_of k m size) s₀ id (d ++ rest)
              (pos (length d)))
          ∙ put in
        let whole =
          follow-calls sha256 st law id (upload new_engine k m size id d rest) _ s₀
            (put_plan-IsUpload id new_engine (store_of k m size) (d ++ rest) (pos (length d))) in
        ap (λ t. t.1) (sym whole ∙ carried)

    upload_among :
        (id' d' rest' : Bytes) (zs : List Call)
        → ¬ (id ≡ id')
        → Interleaves
            (upload new_engine k m size id d rest)
            (upload new_engine k m size id' d' rest')
            zs
        → (sizes : ℕ → ℕ) → ((i : ℕ) → 1 ≤ sizes i)
        → (fuel : ℕ) → length d < fuel
        → IsReadBack st new_engine k m size (calls st s₀ zs).1 id d sizes fuel
    upload_among id' d' rest' zs differ r sizes some_room fuel enough =
        let (s₁, put, w') =
          put_object_lem sha256 st law new_engine k m w size positive s₀ id d rest u.named u.few in
        let own =
          All-map (IsUpload-IsCallFor id) (upload new_engine k m size id d rest)
            (put_plan-IsUpload id new_engine (store_of k m size) (d ++ rest) (pos (length d))) in
        let others =
          All-map (IsUpload-IsCallFor_ne id' id (λ e. differ (sym e)))
            (upload new_engine k m size id' d' rest')
            (put_plan-IsUpload id' new_engine (store_of k m size) (d' ++ rest')
              (pos (length d'))) in
        let same =
          calls-SameOn sha256 st law id r s₀ s₀ own others (SameOn-refl sha256 st law id s₀) in
        let alone = upload_alone s₁ put in
        let same' : SameOn sha256 st law id (calls st s₀ zs).1 s₁ = rw alone at same in
        get_kept sha256 st law new_engine k m w size positive id d s₀ s₁ (calls st s₀ zs).1 u.named
          u.fresh w' same'.shards same'.marker u.few u.small sizes some_room fuel enough

  -- Over a store that keeps the contract, a scheme for which the library keeps its documentation,
  -- and stripes of at least one byte: let the calls of two `PutObject`s, of different ids that are not
  -- empty and have no shards, be made in any order that keeps the order of the calls of each. Then all
  -- calls succeed, and afterwards `GetObject` of either id returns the size of what was put under it,
  -- and reading its body to the end, through buffers of any positive sizes, gives those bytes and no error.
  -- Both are shorter than 2 ^ 63 bytes and make fewer than 2 ^ 32 stripes; fuel above their lengths is enough.
  pub get_object-interleaved :
      (s₀ : S) (id d rest id' d' rest' : Bytes) (zs : List Call)
      → IsUploadable st size s₀ id d
      → IsUploadable st size s₀ id' d'
      → ¬ (id ≡ id')
      → Interleaves
          (upload new_engine k m size id d rest)
          (upload new_engine k m size id' d' rest')
          zs
      → (sizes : ℕ → ℕ) → ((i : ℕ) → 1 ≤ sizes i)
      → (fuel : ℕ) → length d < fuel
      → length d' < fuel
      → All (λ r. r ≡ ok tt) (calls st s₀ zs).0
        × IsReadBack st new_engine k m size (calls st s₀ zs).1 id d sizes fuel
        × IsReadBack st new_engine k m size (calls st s₀ zs).1 id' d' sizes fuel
  get_object-interleaved s₀ id d rest id' d' rest' zs u u' differ r sizes some_room fuel enough
        enough' =
      let P : Call → Type 0 = λ c. IsUpload id c ⊎ IsUpload id' c in
      let mine =
        All-map {Q = P} (λ c x. inl x) (upload new_engine k m size id d rest)
          (put_plan-IsUpload id new_engine (store_of k m size) (d ++ rest) (pos (length d))) in
      let theirs =
        All-map {Q = P} (λ c x. inr x) (upload new_engine k m size id' d' rest')
          (put_plan-IsUpload id' new_engine (store_of k m size) (d' ++ rest') (pos (length d'))) in
      (
        calls_ok sha256 st law P (λ c x. elim x [ inl p ↦ (id, p) | inr p ↦ (id', p) ]) zs s₀
            (All-Interleaves P r mine theirs),
        upload_among s₀ id d rest u id' d' rest' zs differ r sizes some_room fuel enough,
        upload_among s₀ id' d' rest' u' id d rest zs (λ e. differ (sym e)) (Interleaves-swap r)
            sizes some_room fuel enough',
      )
