-- ===== src/Storage/Recovery/Deleting.antt =====
-- `DeleteObject` over any store that keeps the contract.
use shardstore.Common.{
  ◌≤◌, ◌≡◌, refl, sym, ap, ◌∙◌, arith, ◌&&◌, true, false, Bytes, List, [], ◌∷◌, ℤ, length, str_eq,
  str_eq_refl, if◌then◌else◌, Bool-cases, inl, inr,
}
use shardstore.Common.Assoc.{no_members, mem_key, IsUnique, beq_refl}
use shardstore.Errors.{Result, ok, err, shard_not_found, object_not_found, is_object_not_found}
use shardstore.Ec.ReedSolomon.{Engine}
use shardstore.Storage.Header.{ShardKey}
use shardstore.Storage.ShardStore.{ShardStore, IsShardStore, key_eq, beq_key, beq_key_iff, is_there}
use shardstore.Storage.Object.{ObjectStore, delete_shards, delete_object, get_object}

not_there : {A : Type 0} (r : Result A) → is_there r ≡ false → r ≡ err shard_not_found
not_there r h = ground (arith, h)

module _ {S : Type 0} (sha256 : Bytes → Bytes) (st : ShardStore S)
    (law : IsShardStore sha256 st) where
  -- What is left when the shards `ks` were deleted.
  record IsDeleted (ks : List ShardKey) (s s' : S) : Type 0 where
    shards :
        (j : ShardKey)
        → st.get_shard s' j ≡ (if mem_key j ks then err shard_not_found else st.get_shard s j)
    markers : (id : Bytes) → st.read_marker s' id ≡ st.read_marker s id

  -- After one deletion the others are still there.
  still_there :
      (k : ShardKey) (ks : List ShardKey) (s : S)
      → mem_key k ks ≡ false
      → ((j : ShardKey) → mem_key j (k ∷ ks) ≡ true → is_there (st.get_shard s j) ≡ true)
      → (j : ShardKey) → mem_key j ks ≡ true
      → is_there (st.get_shard (st.delete_shard s k).1 j) ≡ true
  unfolding mem_key
  still_there k ks s new there j member = elim (Bool-cases (beq_key k j)) [
    | inl same ↦ absurd (cc (ap (λ t. mem_key t ks) ((beq_key_iff k j).0 same), new, member))
    | inr differ ↦ rw (law.get-delete s k j, differ) (there j (ground (arith, member)))
  ]

  IsDeleted-after :
      (k : ShardKey) (ks : List ShardKey) (s s' : S)
      → IsDeleted ks (st.delete_shard s k).1 s'
      → IsDeleted (k ∷ ks) s s'
  unfolding mem_key
  IsDeleted-after k ks s s' w = record {
    shards = λ j. w.shards j ∙ (rw (law.get-delete s k j) (ground arith));
    markers = λ id. w.markers id ∙ law.read_marker-delete s k id;
  }

  delete_shards_lem :
      (ks : List ShardKey) (s : S)
      → IsUnique ks
      → ((j : ShardKey) → mem_key j ks ≡ true → is_there (st.get_shard s j) ≡ true)
      → (s' : S) × ((delete_shards st ks s ≡ (ok tt, s')) × IsDeleted ks s s')
  unfolding delete_shards mem_key IsUnique
  delete_shards_lem [] s u there = (s, (refl, record { shards = λ j. refl; markers = λ id. refl }))
  delete_shards_lem (k ∷ ks) s (new, u) there =
      let here : is_there (st.get_shard s k) ≡ true = there k (ground (arith, beq_refl k)) in
      let deleted : (st.delete_shard s k).0 ≡ ok tt = law.delete_ok s k ∙ rw here refl in
      let s₁ = (st.delete_shard s k).1 in
      let step : st.delete_shard s k ≡ (ok tt, s₁) = ap (λ t. (t, s₁)) deleted in
      let (s', (rest, w)) = delete_shards_lem ks s₁ u (still_there k ks s new there) in
      (s', (rw step rest, IsDeleted-after k ks s s' w))

  pub listed_keys :
      (s : S) (id : Bytes) (ks : List ShardKey)
      → 1 ≤ length id
      → st.list_object_shards s id ≡ ok ks
      → (j : ShardKey) → mem_key j ks ≡ (is_there (st.get_shard s j) && str_eq j.object_id id)
  unfolding str_eq
  listed_keys s [] ks some_id listed = absurd (omega (arith, some_id))
  listed_keys s (c ∷ id) ks some_id listed =
      let (js, found, here) = law.list_lem s (c ∷ id) in
      let same : js ≡ ks = ground (arith, found, listed) in
      λ j. ap (λ t. mem_key j t) (sym same) ∙ here j

  -- What `DeleteObject` leaves.
  pub record IsGone (id : Bytes) (s s' : S) : Type 0 where
    pub shards :
        (j : ShardKey)
        → st.get_shard s' j
          ≡ (if str_eq j.object_id id then err shard_not_found else st.get_shard s j)
    pub markers :
        (i : Bytes)
        → st.read_marker s' i ≡ (if str_eq id i then err object_not_found else st.read_marker s i)

  shard_gone :
      (s : S) (id : Bytes) (ks : List ShardKey) (j : ShardKey)
      → mem_key j ks ≡ (is_there (st.get_shard s j) && str_eq j.object_id id)
      → (if mem_key j ks then err shard_not_found else st.get_shard s j)
        ≡ (if str_eq j.object_id id then err shard_not_found else st.get_shard s j)
  shard_gone s id ks j member = elim (Bool-cases (is_there (st.get_shard s j))) [
    | inl here ↦ rw (member, here) refl
    | inr away ↦
        rw (member, away)
          (elim (Bool-cases (str_eq j.object_id id)) [
            | inl mine ↦ rw mine (not_there (st.get_shard s j) away)
            | inr differ ↦ rw differ refl
          ])
  ]

  get_object-IsGone :
      (new_engine : ℤ → ℤ → Result Engine) (o : ObjectStore) (id : Bytes) (s s' : S)
      → 1 ≤ length id
      → IsGone id s s'
      → get_object st new_engine o s' id ≡ err object_not_found
  unfolding get_object is_object_not_found
  get_object-IsGone new_engine o id s s' some_id w =
      let (ks, found, here) = law.list_lem s' id in
      let member = listed_keys s' id ks some_id found in
      let empty : ks ≡ [] = no_members ks (λ j. member j ∙ (rw (w.shards j) (ground arith))) in
      rw (found, empty, w.markers id, str_eq_refl id) refl

  -- Over a store that keeps the contract and whose listing of the object's shards names none twice:
  -- `DeleteObject` of an id that is not empty succeeds. It leaves the shards and the markers of all other
  -- objects as they were, and none of this object; and `GetObject` of the id then says that there is no
  -- such object.
  pub get_object-delete_object :
      (new_engine : ℤ → ℤ → Result Engine) (o : ObjectStore) (s : S) (id : Bytes)
      (ks : List ShardKey)
      → 1 ≤ length id
      → st.list_object_shards s id ≡ ok ks
      → IsUnique ks
      → (s' : S) × ((delete_object st s id ≡ (ok tt, s'))
          × ((get_object st new_engine o s' id ≡ err object_not_found) × IsGone id s s'))
  unfolding delete_object
  get_object-delete_object new_engine o s id ks some_id listed u =
      let member = listed_keys s id ks some_id listed in
      let (s₁, (deleted, w)) =
        delete_shards_lem ks s u (λ j here. ground (arith, member j, here)) in
      let s' = (st.remove_marker s₁ id).1 in
      let step : st.remove_marker s₁ id ≡ (ok tt, s') =
        ap (λ t. (t, s')) (law.remove_marker_ok s₁ id) in
      let gone : IsGone id s s' = record {
        shards =
            λ j. law.get-remove_marker s₁ id j ∙ (w.shards j ∙ shard_gone s id ks j (member j));
        markers = λ i.
            law.read-remove_marker s₁ id i
            ∙ ap (λ t. if str_eq id i then err object_not_found else t) (w.markers i);
      } in
      (
        s',
        (
          rw (delete_object, listed, deleted, step) refl,
          (get_object-IsGone new_engine o id s s' some_id gone, gone),
        ),
      )
