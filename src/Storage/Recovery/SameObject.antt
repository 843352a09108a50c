-- ===== src/Storage/Recovery/SameObject.antt =====
-- `GetObject` and its reader see of a store what its methods say of one object.
use shardstore.Common.{
  ℕ, zero, suc, ◌+◌, ◌-◌, ◌^◌, ◌<◌, ◌≡◌, refl, sym, ap, ◌∙◌, arith, true, inl, inr, Bool-cases,
}
use shardstore.Common.{Bytes, List, [], ◌∷◌, ◌++◌, ℤ, pos_part}
use shardstore.Common.Assoc.{mem_key, no_members}
use shardstore.Errors.{Result, ok, err, eof, Result-cases}
use shardstore.Ec.ReedSolomon.{Engine}
use shardstore.Storage.Header.{ShardKey}
use shardstore.Storage.ShardStore.{ShardStore, key_eq}
use shardstore.Storage.Recovery.Opening.{max_stripe-le, max_stripe-congr}
use shardstore.Storage.Object.{
  ObjectStore, ObjectReader, Gathered, Body, object_reader, empty_reader, key_of, is_lost, gather,
  load_stripe, read, read_all, read_body, last_stripe_len, get_object, open_object, max_stripe,
  after_read, add_valid, add_lost, shard_count,
}
use shardstore.Storage.Recovery.Body.{IsReaderOf, IsBodyOf, List-cases, read-IsReaderOf}

no_keys :
    (ks js : List ShardKey) → ((j : ShardKey) → mem_key j ks ≡ mem_key j js) → ks ≡ [] → js ≡ []
unfolding mem_key
no_keys ks js h e = no_members js (λ j. sym (h j) ∙ ap (mem_key j) e)

module _ {S T : Type 0} (st : ShardStore S) (su : ShardStore T) (id : Bytes) where
  -- The two stores say the same of the object; the order of their listings may differ.
  pub record LooksSame (s : S) (t : T) : Type 0 where
    pub get :
        (idx i : ℕ)
        → idx < 2 ^ 32
        → st.get_shard s (key_of id idx i) ≡ su.get_shard t (key_of id idx i)
    pub verify :
        (idx i : ℕ)
        → idx < 2 ^ 32
        → st.verify_shard s (key_of id idx i) ≡ su.verify_shard t (key_of id idx i)
    pub marker : st.read_marker s id ≡ su.read_marker t id
    pub keys : List ShardKey
    pub keys' : List ShardKey
    pub listed : st.list_object_shards s id ≡ ok keys
    pub listed' : su.list_object_shards t id ≡ ok keys'
    pub members : (j : ShardKey) → mem_key j keys ≡ mem_key j keys'
    pub stripes : (j : ShardKey) → mem_key j keys ≡ true → j.stripe_idx < 2 ^ 32

  module _ (s : S) (t : T) (same : LooksSame s t) where
    gather_same :
        (idx rounds i : ℕ) (g : Gathered)
        → idx < 2 ^ 32
        → gather st id idx rounds i g s ≡ gather su id idx rounds i g t
    unfolding gather
    gather_same idx zero i g h = refl
    gather_same idx (suc rounds) i g h =
        let here = same.get idx i h in
        elim (Result-cases (su.get_shard t (key_of id idx i))) [
          | inl ((d, x), e) ↦
              rw (gather, here, e) (gather_same idx rounds (i + 1) (add_valid g d x) h)
          | inr (x, e) ↦ elim (Bool-cases (is_lost x)) [
            | inl lost ↦ rw (gather, here, e, lost) (gather_same idx rounds (i + 1) (add_lost g) h)
            | inr fails ↦ rw (gather, here, e, fails) refl
          ]
        ]

    last_stripe_len_same :
        (idx rounds i : ℕ)
        → idx < 2 ^ 32
        → last_stripe_len st id idx rounds i s ≡ last_stripe_len su id idx rounds i t
    unfolding last_stripe_len
    last_stripe_len_same idx zero i h = refl
    last_stripe_len_same idx (suc rounds) i h =
        let here = same.verify idx i h in
        elim (Result-cases (su.verify_shard t (key_of id idx i))) [
          | inl (x, e) ↦ rw (last_stripe_len, here, e) refl
          | inr (x, e) ↦ elim (Bool-cases (is_lost x)) [
            | inl lost ↦
                rw (last_stripe_len, here, e, lost) (last_stripe_len_same idx rounds (i + 1) h)
            | inr fails ↦ rw (last_stripe_len, here, e, fails) refl
          ]
        ]

    load_stripe_same :
        (r : ObjectReader) → IsReaderOf id r → load_stripe st s r ≡ load_stripe su t r
    unfolding load_stripe
    load_stripe_same r w = rw (w.object, gather_same r.stripe_idx _ 0 _ w.stripe) refl

    read_same : (r : ObjectReader) (n : ℕ) → IsReaderOf id r → read st s r n ≡ read su t r n
    unfolding read
    read_same r n w = rw (load_stripe_same r w) refl

    read_all_same :
        (sizes : ℕ → ℕ) (fuel i : ℕ) (r : ObjectReader) (out : Bytes)
        → IsReaderOf id r
        → read_all st sizes fuel i s r out ≡ read_all su sizes fuel i t r out
    unfolding read_all
    read_all_same sizes zero i r out w = refl
    read_all_same sizes (suc fuel) i r out w =
        rw (read_all, read_same r (sizes i) w)
          (helper (read su t r (sizes i)) (λ out'.
            read_all_same sizes fuel (i + 1) (read su t r (sizes i)).1 out'
              (rw (sym (read_same r (sizes i) w)) (read-IsReaderOf st id s r (sizes i) w))))
      where
        helper :
            (x : Result Bytes × ObjectReader)
            → ((out' : Bytes)
                → read_all st sizes fuel (i + 1) s x.1 out'
                  ≡ read_all su sizes fuel (i + 1) t x.1 out')
            → after_read out x (λ r' out'. read_all st sizes fuel (i + 1) s r' out')
              ≡ after_read out x (λ r' out'. read_all su sizes fuel (i + 1) t r' out')
        helper (ok bs, r') rest = rest (out ++ bs)
        helper (err eof, r') rest = refl
        helper (err e, r') rest = refl

    pub read_body_same :
        (sizes : ℕ → ℕ) (fuel : ℕ) (body : Body)
        → IsBodyOf id body
        → read_body st sizes fuel s body ≡ read_body su sizes fuel t body
    unfolding read_body
    read_body_same sizes fuel empty_reader w = refl
    read_body_same sizes fuel (object_reader r) w =
        read_all_same sizes fuel 0 r []
          (record { object = w.object; stripe = omega (arith, w.stripe) })

    module _ (new_engine : ℤ → ℤ → Result Engine) (o : ObjectStore) where
      open_object_same :
          (ks js : List ShardKey)
          → ((j : ShardKey) → mem_key j ks ≡ mem_key j js)
          → ((j : ShardKey) → mem_key j ks ≡ true → j.stripe_idx < 2 ^ 32)
          → open_object st new_engine o s id ks ≡ open_object su new_engine o t id js
      unfolding open_object
      open_object_same ks js members small =
          let top =
            max_stripe-le (2 ^ 32 - 1) 0 ks (omega arith)
              (λ j there. let lt = small j there in omega arith) in
          rw
            (
              max_stripe-congr ks js members,
              last_stripe_len_same (max_stripe 0 js) (pos_part (shard_count o.params)) 0
                  (omega (arith, top, max_stripe-congr ks js members)),
            )
            refl

      pub get_object_same : get_object st new_engine o s id ≡ get_object su new_engine o t id
      unfolding get_object
      get_object_same = elim (List-cases same.keys) [
        | inl e ↦ elim (List-cases same.keys') [
          | inl e' ↦ rw (get_object, same.listed, e, same.listed', e', same.marker) refl
          | inr (k, (ks, e')) ↦ absurd (cc (no_keys same.keys same.keys' same.members e, e'))
        ]
        | inr (k, (ks, e)) ↦ elim (List-cases same.keys') [
          | inl e' ↦ absurd (cc (no_keys same.keys' same.keys (λ j. sym (same.members j)) e', e))
          | inr (j, (js, e')) ↦
              rw (get_object, same.listed, e, same.listed', e')
                (open_object_same (k ∷ ks) (j ∷ js) (rw (sym e, sym e') same.members)
                  (rw (sym e) same.stripes))
        ]
      ]
