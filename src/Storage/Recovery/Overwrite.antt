-- ===== src/Storage/Recovery/Overwrite.antt =====
-- An object that is put again, with fewer stripes.
use shardstore.Common.{ℕ, suc, ◌+◌, ◌^◌, ◌≤◌, ◌<◌, ◌≡◌, refl, ap, ◌∙◌, arith, inl, inr, true}
use shardstore.Common.{Bytes, List, [], ◌∷◌, ◌++◌, length, ℤ, pos, le_or_lt}
use shardstore.Errors.{Result, ok, err, shard_not_found}
use shardstore.Ec.ReedSolomon.{Engine}
use shardstore.Ec.Created.{IsScheme, the_encoder}
use shardstore.Storage.Header.{ShardKey}
use shardstore.Storage.ShardStore.{ShardStore, IsShardStore, is_there}
use shardstore.Storage.Object.{key_of, Body, object_reader, put_object, get_object}
use shardstore.Storage.Recovery.Shards.{AllIntact, IntactOrGone, count_ok}
use shardstore.Storage.Recovery.Load.{IsReadable, reader_at}
use shardstore.Storage.Recovery.Storing.{IsStored}
use shardstore.Storage.Recovery.Writing.{AllStored}
use shardstore.Storage.Recovery.Stripes.{last}
use shardstore.Storage.Recovery.Putting.{store_of, stripes_of, IsPut}
use shardstore.Storage.Recovery.Listed.{get_full_lem}
use shardstore.Storage.Recovery.RoundTrip.{HasNoShards}
use shardstore.Storage.Recovery.Objects.{IsPut-put_object}
use native.Mathlib.Nat.{add-zero, zero-add}

module _ {S : Type 0} (st : ShardStore S) (id : Bytes) (idx n : ℕ) (s s' : S)
    (same : (i : ℕ) → st.get_shard s' (key_of id idx i) ≡ st.get_shard s (key_of id idx i)) where
  IntactOrGone-AllIntact :
      (i : ℕ) (c : List Bytes) → AllIntact st id idx n s i c → IntactOrGone st id idx n s' i c
  IntactOrGone-AllIntact i [] t = tt
  IntactOrGone-AllIntact i (d ∷ c) ((h, e, l), t) =
      (inl (h, same i ∙ e, l), IntactOrGone-AllIntact (i + 1) c t)

  count_ok-AllIntact :
      (i : ℕ) (c : List Bytes)
      → AllIntact st id idx n s i c
      → count_ok st id idx s' (length c) i ≡ length c
  unfolding count_ok
  count_ok-AllIntact i [] t = refl
  count_ok-AllIntact i (d ∷ c) ((h, e, l), t) =
      let here = same i ∙ e in rw (here, count_ok-AllIntact (i + 1) c t) refl

module _ {S : Type 0} (sha256 : Bytes → Bytes) (st : ShardStore S) (law : IsShardStore sha256 st)
    (new_engine : ℤ → ℤ → Result Engine) (k m : ℕ) (w : IsScheme new_engine k m) where
  -- The last of the stripes that are stored.
  AllStored-last :
      (s : S) (id : Bytes) (idx : ℕ) (x : Bytes) (xs : List Bytes)
      → AllStored sha256 st law k m
          (the_encoder new_engine k m w)
          w.code
          w.data_pos
          w.small
          s
          id
          idx
          (x ∷ xs)
      → IsStored sha256 st law k m
          (the_encoder new_engine k m w)
          w.code
          w.data_pos
          w.small
          s
          id
          (idx + length xs)
          (last x xs)
  AllStored-last s id idx x [] (h, t) = rw add-zero h
  AllStored-last s id idx x (y ∷ ys) (h, t) =
      let same : idx + suc (length ys) ≡ idx + 1 + length ys = omega arith in
      rw same (AllStored-last s id (idx + 1) y ys t)

  pub IsReadable-IsStored :
      (s s' : S) (id : Bytes) (idx : ℕ) (stripe : Bytes)
      → ((i : ℕ) → st.get_shard s' (key_of id idx i) ≡ st.get_shard s (key_of id idx i))
      → IsStored sha256 st law k m
          (the_encoder new_engine k m w)
          w.code
          w.data_pos
          w.small
          s
          id
          idx
          stripe
      → IsReadable st k m (the_encoder new_engine k m w) w.code w.data_pos s' id idx stripe
  IsReadable-IsStored s s' id idx stripe same h = record {
    nonempty = h.nonempty;
    codeword = h.codeword;
    is_codeword = h.is_codeword;
    shards = IntactOrGone-AllIntact st id idx (length stripe) s s' same 0 h.codeword h.shards;
    enough = omega (
      arith,
      count_ok-AllIntact st id idx (length stripe) s s' same 0 h.codeword h.shards,
      h.is_codeword.shape.count_eq,
    );
  }

  module _ (size : ℕ) (positive : 1 ≤ size) (s₀ s₁ s₂ : S) (id d d' : Bytes) (hid : 1 ≤ length id)
      (fresh : HasNoShards st id s₀)
      (first : IsPut sha256 st law new_engine k m w size positive id d s₀ s₁)
      (second : IsPut sha256 st law new_engine k m w size positive id d' s₁ s₂)
      (fewer : length (stripes_of size d') < length (stripes_of size d)) where
    bounded :
        (j : ShardKey)
        → j.object_id ≡ id
        → is_there (st.get_shard s₂ j) ≡ true
        → j.stripe_idx < length (stripes_of size d)
    bounded j mine there = elim (le_or_lt (length (stripes_of size d)) j.stripe_idx) [
      | inr h ↦ h
      | inl h ↦
          let gone : st.get_shard s₂ j ≡ err shard_not_found =
            second.shards j (λ x. absurd (omega (arith, x.2, fewer)))
            ∙ (first.shards j (λ x. absurd (omega (arith, x.2))) ∙ fresh j mine) in
          absurd (cc (there, gone))
    ]

    stale :
        (x : Bytes) (xs : List Bytes)
        → stripes_of size d ≡ x ∷ xs
        → length (stripes_of size d) < 2 ^ 32
        → length d < 2 ^ 63
        → (body : Body) × (get_object st new_engine (store_of k m size) s₂ id
            ≡ ok (body, pos (length d)))
    stale x xs cut few small =
        let count : length (stripes_of size d) ≡ suc (length xs) =
          ap (λ (t : List Bytes). length t) cut in
        let stored = rw zero-add at (AllStored-last s₁ id 0 x xs (rw cut at first.stored)) in
        let readable =
          IsReadable-IsStored s₁ s₂ id (length xs) (last x xs)
            (λ i.
              second.shards (key_of id (length xs) i)
                (λ y. absurd (omega (arith, y.2, fewer, count))))
            stored in
        (
          object_reader
              (reader_at k m (the_encoder new_engine k m w) id size (length xs + 1) 0 [] 0),
          get_full_lem sha256 st law new_engine k m w size positive id d hid s₂ bounded x xs cut
              readable few small,
        )

    stale_all :
        (xs : List Bytes)
        → stripes_of size d ≡ xs
        → length (stripes_of size d) < 2 ^ 32
        → length d < 2 ^ 63
        → (body : Body) × (get_object st new_engine (store_of k m size) s₂ id
            ≡ ok (body, pos (length d)))
    stale_all [] cut few small =
        let none : length (stripes_of size d) ≡ 0 = ap (λ (t : List Bytes). length t) cut in
        absurd (omega arith)
    stale_all (x ∷ xs) cut few small = stale x xs cut few small

  -- Over a store that keeps the contract, a scheme for which the library keeps its documentation,
  -- and stripes of at least one byte: let
  -- `d` be put under an id that is not empty and had no shards, and then `d'`, which makes fewer stripes, under the
  -- same id. `GetObject` then returns the size of `d`: the last stripes of `d` are still there.
  -- Both make fewer than 2 ^ 32 stripes, and `d` is shorter than 2 ^ 63 bytes.
  pub get_object-put_object_again :
      (size : ℕ) (s₀ s₁ s₂ : S) (id d d' rest rest' : Bytes)
      → 1 ≤ size
      → 1 ≤ length id
      → HasNoShards st id s₀
      → length d < 2 ^ 63
      → length (stripes_of size d) < 2 ^ 32
      → length (stripes_of size d') < length (stripes_of size d)
      → put_object st new_engine (store_of k m size) s₀ id (d ++ rest) (pos (length d))
        ≡ (ok tt, s₁)
      → put_object st new_engine (store_of k m size) s₁ id (d' ++ rest') (pos (length d'))
        ≡ (ok tt, s₂)
      → (body : Body) × (get_object st new_engine (store_of k m size) s₂ id
          ≡ ok (body, pos (length d)))
  get_object-put_object_again size s₀ s₁ s₂ id d d' rest rest' positive hid fresh small few fewer
        put put' =
      let first =
        IsPut-put_object sha256 st law new_engine k m w size positive s₀ s₁ id d rest hid few put in
      let second =
        IsPut-put_object sha256 st law new_engine k m w size positive s₁ s₂ id d' rest' hid
          (omega arith) put' in
      stale_all size positive s₀ s₁ s₂ id d d' hid fresh first second fewer (stripes_of size d) refl
        few small
