-- ===== src/Storage/Recovery/Cleanup.antt =====
-- Deleting several objects, one after the other, where the errors of the deletions are dropped.
use shardstore.Common.{
  ◌≤◌, ◌≡◌, ◌≢◌, ◌∙◌, ◌&&◌, refl, sym, ap, arith, false, Bytes, List, [], ◌∷◌, All, ℤ, length,
  str_eq, str_eq_iff, str_eq_refl, Bool-cases, inl, inr,
}
use shardstore.Common.Assoc.{no_members, IsUnique}
use shardstore.Errors.{
  Result, ok, err, object_not_found, is_object_not_found, Result-cases, and_then, wrap_step,
}
use shardstore.Ec.ReedSolomon.{Engine}
use shardstore.Storage.Header.{ShardKey}
use shardstore.Storage.ShardStore.{ShardStore, IsShardStore, key_eq, is_there}
use shardstore.Storage.ShardStore.Calls.{Call, put, delete, write, remove, call}
use shardstore.Storage.Object.{ObjectStore, put_object, delete_shards, delete_object, get_object}
use shardstore.Storage.Recovery.RoundTrip.{HasNoShards}
use shardstore.Storage.Recovery.Deleting.{IsGone, get_object-delete_object, listed_keys}
use shardstore.Storage.Concurrent.Plan.{attempt, follow}
use shardstore.Storage.Concurrent.Planned.{put_object-put_plan}

pub str_eq-≢ : (a b : Bytes) → a ≢ b → str_eq a b ≡ false
str_eq-≢ a b differ = elim (Bool-cases (str_eq a b)) [
  | inl same ↦ absurd (differ ((str_eq_iff a b).0 same))
  | inr other ↦ other
]

module _ {S : Type 0} (st : ShardStore S) where
  -- A property of states that every call keeps, in which no listing of an object names a shard twice.
  pub record ListsOnce (good : S → Type 0) : Type 0 where
    pub unique :
        (s : S) (id : Bytes) (ks : List ShardKey)
        → good s
        → st.list_object_shards s id ≡ ok ks
        → IsUnique ks
    pub kept : (s : S) (c : Call) → good s → good (call st s c).1

  -- The object is not there.
  pub record IsAbsent (id : Bytes) (s : S) : Type 0 where
    pub shards : HasNoShards st id s
    pub marker : st.read_marker s id ≡ err object_not_found

  -- The same is there of the object.
  pub record IsKept (id : Bytes) (s s' : S) : Type 0 where
    pub shards : (j : ShardKey) → j.object_id ≡ id → st.get_shard s' j ≡ st.get_shard s j
    pub marker : st.read_marker s' id ≡ st.read_marker s id

  -- The loops of deletions.
  unfoldable pub delete_all : List Bytes → S → S
  delete_all [] s = s
  delete_all (id ∷ ids) s = delete_all ids (delete_object st s id).1

  module _ (good : S → Type 0) (once : ListsOnce good) where
    attempt-good : (s : S) (c : Call) → good s → good (attempt st s c).1
    attempt-good s (put k h d) g = helper (st.put_shard s k h d) (once.kept s (put k h d) g)
      where
        helper : (x : Result (Unit {0}) × S) → good x.1 → good (wrap_step "storage: put shard" x).1
        helper (ok t, s') g' = g'
        helper (err e, s') g' = g'
    attempt-good s (delete k) g = once.kept s (delete k) g
    attempt-good s (write id meta) g = once.kept s (write id meta) g
    attempt-good s (remove id) g = once.kept s (remove id) g

    and_then-good :
        {A B : Type 0} (x : Result A × S) (f : A → S → Result B × S)
        → good x.1
        → ((a : A) (s : S) → good s → good (f a s).1)
        → good (and_then x f).1
    and_then-good (ok a, s) f g h = h a s g
    and_then-good (err e, s) f g h = g

    follow-good :
        {A : Type 0} (cs : List Call) (end : Result A) (s : S)
        → good s
        → good (follow st cs end s).1
    unfolding follow
    follow-good [] end s g = g
    follow-good (c ∷ cs) end s g =
        and_then-good (attempt st s c) _ (attempt-good s c g) (λ t s' g'. follow-good cs end s' g')

    pub put_object-good :
        (new_engine : ℤ → ℤ → Result Engine) (o : ObjectStore) (s : S) (id r : Bytes) (size : ℤ)
        → good s
        → good (put_object st new_engine o s id r size).1
    put_object-good new_engine o s id r size g =
        rw (put_object-put_plan st new_engine o s id r size) (follow-good _ _ s g)

    delete_shards-good : (ks : List ShardKey) (s : S) → good s → good (delete_shards st ks s).1
    unfolding delete_shards
    delete_shards-good [] s g = g
    delete_shards-good (k ∷ ks) s g =
        and_then-good (st.delete_shard s k) _ (once.kept s (delete k) g)
          (λ t s' g'. delete_shards-good ks s' g')

    delete_object-good : (s : S) (id : Bytes) → good s → good (delete_object st s id).1
    unfolding delete_object
    delete_object-good s id g = elim (Result-cases (st.list_object_shards s id)) [
      | inr (e, fails) ↦ rw (delete_object, fails) g
      | inl (ks, listed) ↦
          rw (delete_object, listed)
            (and_then-good (delete_shards st ks s) _ (delete_shards-good ks s g)
              (λ t s' g'. once.kept s' (remove id) g'))
    ]

    module _ (sha256 : Bytes → Bytes) (law : IsShardStore sha256 st)
        (new_engine : ℤ → ℤ → Result Engine) (o : ObjectStore) where
      delete_object-IsGone :
          (s : S) (id : Bytes)
          → 1 ≤ length id
          → good s
          → IsGone sha256 st law id s (delete_object st s id).1
      delete_object-IsGone s id some_id g =
          let (ks, listed, here) = law.list_lem s id in
          let (s', (deleted, (missing, gone))) =
            get_object-delete_object sha256 st law new_engine o s id ks some_id listed
              (once.unique s id ks g listed) in
          rw deleted gone

      -- What a deletion does to an object that is not there, and to another one.
      IsAbsent-IsGone :
          (i id : Bytes) (s s' : S) → IsGone sha256 st law id s s' → IsAbsent i s → IsAbsent i s'
      IsAbsent-IsGone i id s s' gone absent = record {
        shards = λ j mine. gone.shards j ∙ rw (absent.shards j mine) (ground arith);
        marker = gone.markers i ∙ rw absent.marker (ground arith);
      }

      IsAbsent-itself : (id : Bytes) (s s' : S) → IsGone sha256 st law id s s' → IsAbsent id s'
      IsAbsent-itself id s s' gone = record {
        shards = λ j mine. gone.shards j ∙ rw (mine, str_eq_refl id) refl;
        marker = gone.markers id ∙ rw (str_eq_refl id) refl;
      }

      IsKept-IsGone :
          (i id : Bytes) (s s' : S) → IsGone sha256 st law id s s' → i ≢ id → IsKept i s s'
      IsKept-IsGone i id s s' gone differ = record {
        shards = λ j mine. gone.shards j ∙ rw (mine, str_eq-≢ i id differ) refl;
        marker = gone.markers i ∙ rw (str_eq-≢ id i (λ e. differ (sym e))) refl;
      }

      pub delete_all-good : (ids : List Bytes) (s : S) → good s → good (delete_all ids s)
      unfolding delete_all
      delete_all-good [] s g = g
      delete_all-good (id ∷ ids) s g = delete_all-good ids _ (delete_object-good s id g)

      IsAbsent-delete_all :
          (ids : List Bytes) (s : S) (i : Bytes)
          → All (λ id. 1 ≤ length id) ids
          → good s
          → IsAbsent i s
          → IsAbsent i (delete_all ids s)
      unfolding delete_all
      IsAbsent-delete_all [] s i h g absent = absent
      IsAbsent-delete_all (id ∷ ids) s i (named, h) g absent =
          IsAbsent-delete_all ids _ i h (delete_object-good s id g)
            (IsAbsent-IsGone i id s _ (delete_object-IsGone s id named g) absent)

      -- All of the objects are gone in the end.
      pub delete_all-IsAbsent :
          (ids : List Bytes) (s : S)
          → All (λ id. 1 ≤ length id) ids
          → good s
          → All (λ id. (1 ≤ length id) × IsAbsent id (delete_all ids s)) ids
      unfolding delete_all
      delete_all-IsAbsent [] s h g = tt
      delete_all-IsAbsent (id ∷ ids) s (named, h) g =
          let next = delete_object-good s id g in
          (
            (
              named,
              IsAbsent-delete_all ids _ id h next
                  (IsAbsent-itself id s _ (delete_object-IsGone s id named g)),
            ),
            delete_all-IsAbsent ids _ h next,
          )

      pub delete_all-IsKept :
          (ids : List Bytes) (s : S) (i : Bytes)
          → All (λ id. (1 ≤ length id) × (i ≢ id)) ids
          → good s
          → IsKept i s (delete_all ids s)
      unfolding delete_all
      delete_all-IsKept [] s i h g = record { shards = λ j mine. refl; marker = refl }
      delete_all-IsKept (id ∷ ids) s i ((named, differ), h) g =
          let here = IsKept-IsGone i id s _ (delete_object-IsGone s id named g) differ in
          let later = delete_all-IsKept ids _ i h (delete_object-good s id g) in
          record {
            shards = λ j mine. later.shards j mine ∙ here.shards j mine;
            marker = later.marker ∙ here.marker;
          }

module _ {S : Type 0} (sha256 : Bytes → Bytes) (st : ShardStore S)
    (law : IsShardStore sha256 st) where
  pub listed_none :
      (s : S) (id : Bytes)
      → 1 ≤ length id
      → HasNoShards st id s
      → st.list_object_shards s id ≡ ok []
  listed_none s id some_id fresh =
      let (ks, found, here) = law.list_lem s id in
      let member = listed_keys sha256 st law s id ks some_id found in
      let absent : (j : ShardKey) → (is_there (st.get_shard s j) && str_eq j.object_id id) ≡ false =
        λ j. elim (Bool-cases (str_eq j.object_id id)) [
          | inl mine ↦ rw (fresh j ((str_eq_iff j.object_id id).0 mine)) refl
          | inr differ ↦ ground (arith, differ)
        ] in
      let empty : ks ≡ [] = no_members ks (λ j. member j ∙ absent j) in rw found (ap ok empty)

  pub get_object-IsAbsent :
      (new_engine : ℤ → ℤ → Result Engine) (o : ObjectStore) (id : Bytes) (s : S)
      → 1 ≤ length id
      → IsAbsent st id s
      → get_object st new_engine o s id ≡ err object_not_found
  unfolding get_object is_object_not_found
  get_object-IsAbsent new_engine o id s some_id absent =
      rw (listed_none s id some_id absent.shards, absent.marker) refl
