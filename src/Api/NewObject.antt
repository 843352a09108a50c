-- ===== src/Api/NewObject.antt =====
-- A bucket that is created, and an object that is put into it, as the handlers call the object store.
use shardstore.Common.{
  ℕ, ◌^◌, ◌≤◌, ◌<◌, ◌≡◌, refl, sym, ap, ◌∙◌, arith, true, false, inl, inr, Bool-cases,
}
use shardstore.Common.{
  Bytes, [], ◌∷◌, ◌++◌, codes, length, str_eq, str_eq_iff, ℤ, pos, length-append,
}
use shardstore.Common.Search.{has_prefix}
use shardstore.Errors.{Result, ok}
use shardstore.Ec.ReedSolomon.{Engine}
use shardstore.Ec.Created.{IsScheme}
use shardstore.Storage.Header.{ShardKey}
use shardstore.Storage.ShardStore.{ShardStore, IsShardStore}
use shardstore.Storage.Object.{Body, put_object, get_object, read_body}
use shardstore.Storage.Recovery.Putting.{store_of, stripes_of, length-chunks}
use shardstore.Storage.Recovery.RoundTrip.{HasNoShards}
use shardstore.Storage.Recovery.Kept.{get_kept}
use shardstore.Storage.Recovery.Objects.{
  IsPut-put_object, read_marker-put_object, get_shard-put_object_ne,
}
use shardstore.Api.Paths.{slash, object_id, bucket_marker_id, validate_bucket_name}
use shardstore.Api.Names.{object_id-validate_bucket_name}
use shardstore.Api.Lifecycle.{marker_stored}

-- The id of an object is not that of its bucket's marker.
ids_differ : (b k : Bytes) → validate_bucket_name b ≡ ok tt → ¬ (object_id b k ≡ bucket_marker_id b)
ids_differ b k valid same =
    let marker : has_prefix (bucket_marker_id b) (codes "__bucket__/") ≡ true =
      unfold has_prefix in refl in
    let object = (object_id-validate_bucket_name b k valid).1 in
    absurd (cc (ap (λ id. has_prefix id (codes "__bucket__/")) same, marker, object))

str_eq_ne : (a b : Bytes) → ¬ (a ≡ b) → str_eq a b ≡ false
str_eq_ne a b differ = elim (Bool-cases (str_eq a b)) [
  | inl same ↦ absurd (differ ((str_eq_iff a b).0 same))
  | inr e ↦ e
]

module _ {S : Type 0} (sha256 : Bytes → Bytes) (st : ShardStore S) (law : IsShardStore sha256 st)
    (new_engine : ℤ → ℤ → Result Engine) (k m : ℕ) (w : IsScheme new_engine k m) (size : ℕ)
    (positive : 1 ≤ size) where
  -- What the store does for a new bucket, and then for a new object in it.
  pub record Stored (sizes : ℕ → ℕ) (fuel : ℕ) (b ob d rest : Bytes) (s s₁ s₂ : S) : Type 0 where
    pub bucket :
        put_object st new_engine (store_of k m size) s (bucket_marker_id b) [] (pos 0) ≡ (ok tt, s₁)
    pub bucket_body : Body
    pub found :
        get_object st new_engine (store_of k m size) s₁ (bucket_marker_id b)
        ≡ ok (bucket_body, pos 0)
    pub object :
        put_object st new_engine
          (store_of k m size)
          s₁
          (object_id b ob)
          (d ++ rest)
          (pos (length d))
        ≡ (ok tt, s₂)
    pub later_body : Body
    pub still :
        get_object st new_engine (store_of k m size) s₂ (bucket_marker_id b)
        ≡ ok (later_body, pos 0)
    pub body : Body
    pub got :
        get_object st new_engine (store_of k m size) s₂ (object_id b ob) ≡ ok (body, pos (length d))
    pub all : read_body st sizes fuel s₂ body ≡ (d, ok tt)

  module _ (sizes : ℕ → ℕ) (some_room : (i : ℕ) → 1 ≤ sizes i) (fuel : ℕ) where
    pub stored :
        (b ob d rest : Bytes) (s : S)
        → validate_bucket_name b ≡ ok tt
        → HasNoShards st (bucket_marker_id b) s
        → HasNoShards st (object_id b ob) s
        → length d < 2 ^ 63
        → length (stripes_of size d) < 2 ^ 32
        → length d < fuel
        → (s₁ : S) × (s₂ : S) × Stored sizes fuel b ob d rest s s₁ s₂
    stored b ob d rest s valid no_bucket no_object small few enough =
        let none : length (stripes_of size []) ≤ 0 = length-chunks 0 size [] in
        let bid = bucket_marker_id b in
        let oid = object_id b ob in
        let differ = ids_differ b ob valid in
        let hb : 1 ≤ length bid = omega arith in
        let ho : 1 ≤ length oid = omega (arith, length-append b (slash ∷ ob)) in
        let few_b : length (stripes_of size []) < 2 ^ 32 = omega (arith, none) in
        let (s₁, put, marked) =
          read_marker-put_object sha256 st law new_engine k m w size positive s bid [] [] hb
            few_b in
        let put_b =
          IsPut-put_object sha256 st law new_engine k m w size positive s s₁ bid [] [] hb few_b
            put in
        let (s₂, put', marked') =
          read_marker-put_object sha256 st law new_engine k m w size positive s₁ oid d rest ho
            few in
        let put_o =
          IsPut-put_object sha256 st law new_engine k m w size positive s₁ s₂ oid d rest ho few
            put' in
        let fresh : HasNoShards st oid s₁ = λ j mine.
          (get_shard-put_object_ne sha256 st law new_engine k m w size positive s s₁ bid [] [] j hb
            few_b put (λ e. absurd (differ (sym mine ∙ e)))).0
          ∙ no_object j mine in
        let kept : (j : ShardKey) → j.object_id ≡ bid → st.get_shard s₂ j ≡ st.get_shard s₁ j =
          λ j mine.
            (get_shard-put_object_ne sha256 st law new_engine k m w size positive s₁ s₂ oid d rest j
              ho few put' (λ e. absurd (differ (sym e ∙ mine)))).0 in
        let kept_marker : st.read_marker s₂ bid ≡ st.read_marker s₁ bid =
          put_o.markers bid ∙ rw (str_eq_ne oid bid differ) refl in
        let (body, found) =
          marker_stored sha256 st law new_engine k m w size positive s s₁ bid hb no_bucket put in
        let (later, still, nothing) =
          get_kept sha256 st law new_engine k m w size positive bid [] s s₁ s₂ hb no_bucket put_b
            kept kept_marker few_b (omega arith) (λ i. 1) (λ i. omega arith) 1 (omega arith) in
        let (reader, got, all) =
          get_kept sha256 st law new_engine k m w size positive oid d s₁ s₂ s₂ ho fresh put_o
            (λ j mine. refl) refl few small sizes some_room fuel enough in
        (
          s₁,
          s₂,
          record {
            bucket = put;
            bucket_body = body;
            found = found;
            object = put';
            later_body = later;
            still = still;
            body = reader;
            got = got;
            all = all;
          },
        )
