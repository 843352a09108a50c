-- ===== src/Storage/Recovery/Body.antt =====
-- The reader that `GetObject` returns, and what it is after calls of `Read`.
use shardstore.Common.{ℕ, ◌+◌, ◌^◌, ◌<◌, ◌≡◌, refl, sym, arith, ◌⊎◌, inl, inr, Bool-cases}
use shardstore.Common.{
  ◌==◌, leb, Bytes, List, [], ◌∷◌, length, ℤ, pos, pos_part, add_int, take, drop,
}
use shardstore.Errors.{Result, ok, err, is_object_not_found, Result-cases, ◌>>=◌}
use shardstore.Ec.ReedSolomon.{Engine}
use shardstore.Ec.{Encoder}
use shardstore.Storage.Header.{ShardKey}
use shardstore.Storage.ShardStore.{ShardStore, key_eq}
use shardstore.Storage.Object.{
  ObjectStore, ObjectReader, Gathered, Body, object_reader, empty_reader, gather, load_stripe, read,
  read_buffered, last_stripe_len, get_object, open_object, max_stripe, restore, shard_count,
  EcParams, encoder,
}

-- The reader of an object, at a stripe number that is a uint32.
pub record IsReaderOf (id : Bytes) (r : ObjectReader) : Type 0 where
  pub object : r.object_id ≡ id
  pub stripe : r.stripe_idx < 2 ^ 32

read_buffered-IsReaderOf :
    (id : Bytes) (r : ObjectReader) (n : ℕ) → IsReaderOf id r → IsReaderOf id (read_buffered r n).1
unfolding read_buffered
read_buffered-IsReaderOf id r n w =
    elim (Bool-cases (r.off + length (take n (drop r.off r.buf)) == length r.buf)) [
      | inl done ↦ rw done (record { object = w.object; stripe = omega arith })
      | inr more ↦ rw more (record { object = w.object; stripe = w.stripe })
    ]

-- The reader of an object at its start.
pub record IsOpened (id : Bytes) (r : ObjectReader) : Type 0 where
  pub object : r.object_id ≡ id
  pub stripe : r.stripe_idx ≡ 0
  pub total : r.total_stripes < 2 ^ 32
  pub used : r.off ≡ length r.buf

abbrev pub IsBodyOf : Bytes → Body → Type 0
IsBodyOf id empty_reader = Unit
IsBodyOf id (object_reader r) = IsOpened id r

pub List-cases {ℓ} :
    {A : Type ℓ} (xs : List A) → (xs ≡ []) ⊎ ((x : A) × ((ys : List A) × (xs ≡ x ∷ ys)))
List-cases [] = inl refl
List-cases (x ∷ xs) = inr (x, (xs, refl))

-- What `loadStripe` and `Read` return is the same reader, further on.
module _ {S : Type 0} (st : ShardStore S) (id : Bytes) (s : S) where
  load_stripe-IsReaderOf :
      (r r' : ObjectReader) → load_stripe st s r ≡ ok r' → IsReaderOf id r → IsReaderOf id r'
  unfolding load_stripe
  load_stripe-IsReaderOf r r' loaded w =
      helper
        (gather st r.object_id r.stripe_idx (pos_part (shard_count r.params)) 0
          (record { shards = []; stripe_len = pos 0; valid = 0; lost = 0 }) s)
        loaded
    where
      restored :
          (x : Result Bytes)
          → (x >>= λ out. ok (record r { buf = out; off = 0 })) ≡ ok r'
          → IsReaderOf id r'
      restored (ok out) e =
          let same : record r { buf = out; off = 0 } ≡ r' = cc e in
          rw (sym same) (record { object = w.object; stripe = w.stripe })
      restored (err x) e = absurd (cc e)

      helper :
          (x : Result Gathered)
          → (x >>= λ g. restore r.enc r.params g >>= λ out. ok (record r { buf = out; off = 0 }))
            ≡ ok r'
          → IsReaderOf id r'
      helper (ok g) e = restored (restore r.enc r.params g) e
      helper (err x) e = absurd (cc e)

  pub read-IsReaderOf :
      (r : ObjectReader) (n : ℕ) → IsReaderOf id r → IsReaderOf id (read st s r n).1
  unfolding read
  read-IsReaderOf r n w = elim (Bool-cases (leb r.total_stripes r.stripe_idx)) [
    | inl done ↦ rw done w
    | inr more ↦ elim (Bool-cases (r.off == length r.buf)) [
      | inr buffered ↦ rw (more, buffered) (read_buffered-IsReaderOf id r n w)
      | inl used ↦ elim (Result-cases (load_stripe st s r)) [
        | inr (x, fails) ↦ rw (more, used, fails) w
        | inl (r', loaded) ↦
            let w' = load_stripe-IsReaderOf r r' loaded w in
            elim (Bool-cases (length r'.buf == 0)) [
              | inl none ↦
                  rw (more, used, loaded, none)
                    (record { object = w'.object; stripe = omega arith })
              | inr some ↦ rw (more, used, loaded, some) (read_buffered-IsReaderOf id r' n w')
            ]
      ]
    ]
  ]

  -- `GetObject` returns a reader of the object, at its start.
  module _ (new_engine : ℤ → ℤ → Result Engine) (o : ObjectStore) (body : Body) (n : ℤ) where
    open_object-IsBodyOf :
        (keys : List ShardKey)
        → open_object st new_engine o s id keys ≡ ok (body, n)
        → IsBodyOf id body
    unfolding open_object
    open_object-IsBodyOf keys e =
        helper (last_stripe_len st id (max_stripe 0 keys) (pos_part (shard_count o.params)) 0 s)
          (encoder new_engine o) _ _ _ _ (omega arith) e
      where
        helper :
            (x : Result ℤ) (y : Result Encoder) (p : EcParams) (size total : ℕ) (full : ℤ)
            → total < 2 ^ 32
            → (x >>= λ len. y >>= λ enc.
                let opened : Result (Body × ℤ) = ok (
                  object_reader (record {
                    enc = enc;
                    object_id = id;
                    params = p;
                    stripe_size = size;
                    total_stripes = total;
                    stripe_idx = 0;
                    buf = [];
                    off = 0;
                  }),
                  add_int full len,
                ) in
                opened)
              ≡ ok (body, n)
            → IsBodyOf id body
        helper (ok len) (ok enc) p size total full few e =
            let r : ObjectReader = record {
              enc = enc;
              object_id = id;
              params = p;
              stripe_size = size;
              total_stripes = total;
              stripe_idx = 0;
              buf = [];
              off = 0;
            } in
            let same : object_reader r ≡ body = cc e in
            rw (sym same) (record { object = refl; stripe = refl; total = few; used = refl })
        helper (ok len) (err x) p size total full few e = absurd (cc e)
        helper (err x) y p size total full few e = absurd (cc e)

    pub get_object-IsBodyOf : get_object st new_engine o s id ≡ ok (body, n) → IsBodyOf id body
    unfolding get_object
    get_object-IsBodyOf e = elim (Result-cases (st.list_object_shards s id)) [
      | inr (x, fails) ↦ absurd (cc (rw (get_object, fails) at e))
      | inl (keys, listed) ↦ elim (List-cases keys) [
        | inr (k, (ks, some)) ↦ open_object-IsBodyOf (k ∷ ks) (rw (get_object, listed, some) at e)
        | inl empty ↦ elim (Result-cases (st.read_marker s id)) [
          | inl (meta, marked) ↦
              let returned = rw (get_object, listed, empty, marked) at e in
              let same : empty_reader ≡ body = cc returned in rw (sym same) tt
          | inr (x, fails) ↦ elim (Bool-cases (is_object_not_found x)) [
            | inl missing ↦ absurd (cc (rw (get_object, listed, empty, fails, missing) at e))
            | inr other ↦ absurd (cc (rw (get_object, listed, empty, fails, other) at e))
          ]
        ]
      ]
    ]
