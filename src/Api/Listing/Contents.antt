-- ===== src/Api/Listing/Contents.antt =====
-- The contents of a listing.
use shardstore.Common.{
  ℤ, ◌≡◌, refl, sym, ap, ◌∙◌, arith, ◌&&◌, ◌||◌, Bool, false, Bytes, List, [], ◌∷◌, str_eq,
  str_eq_iff, Bool-cases, inl, inr,
}
use shardstore.Common.Assoc.{mem_key, keys, bytes_eq}
use shardstore.Common.Search.{has_prefix}
use shardstore.Errors.{Result, ok, err, ◌>>=◌}
use shardstore.Ec.ReedSolomon.{Engine}
use shardstore.Storage.Header.{ShardKey}
use shardstore.Storage.ShardStore.{ShardStore}
use shardstore.Storage.Object.{ObjectStore, get_object}
use shardstore.Api.Paths.{validate_bucket_name, object_id}
use shardstore.Api.Types.{ListedObject}
use shardstore.Api.Listing.{listed_key, round, collect}
use shardstore.Api.Listing.Keys.{is_ok, is_key, keys-round, listed_key_lem}

-- Is one of the shards the object's?
abbrev pub has_shard : Bytes → List ShardKey → Bool
has_shard id [] = false
has_shard id (k ∷ ks) = str_eq k.object_id id || has_shard id ks

module _ {S : Type 0} (st : ShardStore S) (new_engine : ℤ → ℤ → Result Engine) (o : ObjectStore)
    (node b prefix : Bytes) (valid : validate_bucket_name b ≡ ok tt) (s : S) where
  -- One shard of the listing.
  shard_lem :
      (key id : Bytes)
      → (is_key key (listed_key b prefix id) && is_ok (get_object st new_engine o s id)) ≡ (
          str_eq id (object_id b key)
          && (has_prefix key prefix && is_ok (get_object st new_engine o s (object_id b key))))
  shard_lem key id = elim (Bool-cases (str_eq id (object_id b key))) [
    | inl same ↦
        let eq = (str_eq_iff id (object_id b key)).0 same in
        ap (λ t. t && is_ok (get_object st new_engine o s id))
          (listed_key_lem b prefix key id valid)
        ∙ (rw same refl
            ∙ ap (λ t. has_prefix key prefix && is_ok (get_object st new_engine o s t)) eq
            ∙ rw same refl)
    | inr differ ↦
        ap (λ t. t && is_ok (get_object st new_engine o s id))
          (listed_key_lem b prefix key id valid)
        ∙ rw differ refl
  ]

  collect_from :
      (key : Bytes) (ks : List ShardKey) (m m' : List (Bytes × ListedObject))
      → collect st new_engine o node b prefix s ks m ≡ ok m'
      → mem_key key (keys m') ≡ (
          (has_shard (object_id b key) ks
            && (has_prefix key prefix && is_ok (get_object st new_engine o s (object_id b key))))
          || mem_key key (keys m))
  unfolding collect
  collect_from key [] m m' h =
      let same : m ≡ m' = ground (arith, h) in ap (λ t. mem_key key (keys t)) (sym same)
  collect_from key (k ∷ ks) m m' h =
      helper
        (round node (listed_key b prefix k.object_id) (get_object st new_engine o s k.object_id) m)
        refl h (λ m₁. collect_from key ks m₁ m')
    where
      helper :
          (x : Result (List (Bytes × ListedObject)))
          → round node
              (listed_key b prefix k.object_id)
              (get_object st new_engine o s k.object_id)
              m
            ≡ x
          → (x >>= collect st new_engine o node b prefix s ks) ≡ ok m'
          → ((m₁ : List (Bytes × ListedObject))
              → collect st new_engine o node b prefix s ks m₁ ≡ ok m'
              → mem_key key (keys m') ≡ (
                  (has_shard (object_id b key) ks
                    && (has_prefix key prefix
                        && is_ok (get_object st new_engine o s (object_id b key))))
                  || mem_key key (keys m₁)))
          → mem_key key (keys m') ≡ (
              ((str_eq k.object_id (object_id b key) || has_shard (object_id b key) ks)
                && (has_prefix key prefix
                    && is_ok (get_object st new_engine o s (object_id b key))))
              || mem_key key (keys m))
      helper (err e) same h rest = absurd (ground (arith, h))
      helper (ok m₁) same h rest =
          let first =
            keys-round node key _ _ m m₁ same
            ∙ ap (λ t. t || mem_key key (keys m)) (shard_lem key k.object_id) in
          rest m₁ h ∙ rw first (ground arith)

  -- Once the loop of handleListObjectsV2 over the shards is done, for a bucket with a valid name, the map
  -- holds exactly the keys with the given prefix whose object is in the bucket, has a shard among
  -- those listed, and is got by GetObject without an error.
  pub collect_lem :
      (key : Bytes) (ks : List ShardKey) (m : List (Bytes × ListedObject))
      → collect st new_engine o node b prefix s ks [] ≡ ok m
      → mem_key key (keys m) ≡ (
          has_shard (object_id b key) ks
          && (has_prefix key prefix && is_ok (get_object st new_engine o s (object_id b key))))
  unfolding mem_key keys
  collect_lem key ks m h = collect_from key ks [] m h ∙ ground arith
