-- ===== src/Storage/File/Uploads.antt =====
-- `PutObject` over a `FileStore` and over a `MemStore`: the calls that it makes.
use shardstore.Common.{
  ℕ, zero, suc, ◌+◌, ◌-◌, ◌^◌, ◌≤◌, ◌<◌, ◌≡◌, refl, arith, ◌==◌, ltb, leb, if◌then◌else◌, false,
  inl, inr, Bool-cases,
}
use shardstore.Common.{
  String, Bytes, List, [], ◌∷◌, length, take, ℤ, pos, pos_part, ltb_ℤ, All, InInt64, to_uint64,
  length-take,
}
use shardstore.Common.{All-append}
use shardstore.Errors.{Result, ok, err, wrap_err}
use shardstore.Reader.{read_full}
use shardstore.Ec.ReedSolomon.{Engine, IsErasureCode}
use shardstore.Ec.{Encoder, new_encoder, encode}
use shardstore.Ec.Created.{IsScheme, scheme_params, the_encoder, new_encoder_ok}
use shardstore.Ec.Laws.{encode_lem, shard_size, shard_size-le}
use shardstore.Storage.Header.Marker.{IsEncodableMeta}
use shardstore.Storage.Object.{to_uint16, to_ec_params, wrap_32}
use shardstore.Storage.Recovery.Load.{params_of}
use shardstore.Storage.Recovery.Putting.{store_of}
use shardstore.Storage.ShardStore.Calls.{Call}
use shardstore.Storage.File.Calls.{IsCall}
use shardstore.Storage.Concurrent.Plan.{
  Plan, planned, preceded, stripe_calls, loop_plan, marked, put_plan,
}

-- An id that the format of headers holds.
pub record IsName (in_use : Bytes → Type 0) (id : Bytes) : Type 0 where
  pub used : in_use id
  pub id_pos : 1 ≤ length id
  pub id_le : length id ≤ 65535

to_uint16-pos : (n : ℕ) → n < 2 ^ 16 → to_uint16 (pos n) ≡ n
unfolding to_uint64
to_uint16-pos n h = omega arith

length-read_full :
    (n : ℕ) (r : Bytes) (got : Bytes × Bytes) → read_full n r ≡ ok got → length got.0 ≡ n
unfolding read_full
length-read_full n r got e = elim (Bool-cases (leb n (length r))) [
  | inl fits ↦
      let same : got.0 ≡ take n r = ground (arith, e, fits) in
      rw same (ground (arith, length-take n r, fits))
  | inr short ↦ absurd (ground (arith, e, short))
]

unwrap_ok {ℓ} : {A : Type ℓ} (t : String) (x : Result A) (a : A) → wrap_err t x ≡ ok a → x ≡ ok a
unwrap_ok t (ok b) a h = h
unwrap_ok t (err e) a h = absurd (cc h)

module _ (sha256 : Bytes → Bytes) (digest : (d : Bytes) → length (sha256 d) ≡ 32)
    (in_use : Bytes → Type 0) (k m : ℕ) (id : Bytes) (named : IsName in_use id) where
  stripe_calls-IsCall :
      (idx len i : ℕ) (shards : List Bytes)
      → 1 ≤ k
      → 1 ≤ m
      → k + m ≤ 256
      → idx < 2 ^ 32
      → len < 2 ^ 63
      → All (λ (d : Bytes). length d < 2 ^ 63) shards
      → All (IsCall sha256 in_use) (stripe_calls (params_of k m) id idx len i shards)
  unfolding stripe_calls
  stripe_calls-IsCall idx len i [] hk hm small hi hl h = tt
  stripe_calls-IsCall idx len i (d ∷ shards) hk hm small hi hl (hd, h) =
      let data_eq = to_uint16-pos k (omega arith) in
      let parity_eq = to_uint16-pos m (omega arith) in
      (
        (
          record { id = named.used; stripe = hi; shard = omega arith },
          record {
            id_pos = named.id_pos;
            id_le = named.id_le;
            stripe_idx = hi;
            shard_idx = omega arith;
            data_pos = omega (arith, data_eq);
            data_lt = omega (arith, data_eq);
            parity_pos = omega (arith, parity_eq);
            parity_lt = omega (arith, parity_eq);
            stripe_len = (hl, omega arith);
            data_len = (hd, omega arith);
            checksum = digest d;
          },
        ),
        stripe_calls-IsCall idx len (i + 1) shards hk hm small hi hl h,
      )

  -- Calls that the formats can hold, and a count of stripes that a uint32 can.
  abbrev IsGood : Plan ℕ → Type 0
  IsGood p = All (IsCall sha256 in_use) p.0 × ((n : ℕ) → p.1 ≡ ok n → n < 2 ^ 32)

  short :
      (size n : ℕ) (shards : List Bytes)
      → size ≤ n
      → All (λ (d : Bytes). length d ≡ size) shards
      → n < 2 ^ 63
      → All (λ (d : Bytes). length d < 2 ^ 63) shards
  short size n [] h t hn = tt
  short size n (d ∷ shards) h (e, t) hn = (omega arith, short size n shards h t hn)

  preceded-IsGood :
      (cs : List Call) (p : Plan ℕ)
      → All (IsCall sha256 in_use) cs
      → IsGood p
      → IsGood (preceded cs p)
  preceded-IsGood cs (ds, end) h (h', e) = (All-append (IsCall sha256 in_use) cs ds h h', e)

  none-IsGood :
      {A : Type 0} (x : Result A) (p : A → Plan ℕ)
      → ((a : A) → x ≡ ok a → IsGood (p a))
      → IsGood (planned x p)
  none-IsGood (ok a) p h = h a refl
  none-IsGood (err e) p h = (tt, λ n same. absurd (cc same))

  module _ (e : Encoder) (code : IsErasureCode k m e.enc) (hk : 1 ≤ k) (hm : 1 ≤ m)
      (small : k + m ≤ 256) (size : ℕ) (positive : 1 ≤ size) where
    encode-short :
        (stripe : Bytes) (c : List Bytes)
        → 1 ≤ length stripe
        → length stripe < 2 ^ 63
        → encode e stripe ≡ ok c
        → All (λ (d : Bytes). length d < 2 ^ 63) c
    encode-short stripe c hn hs same =
        let (c', encoded, w) = encode_lem k m e code hk stripe hn in
        let equal : c' ≡ c = cc (encoded, same) in
        rw equal at (
          short (shard_size (length stripe) k) (length stripe) c'
            (shard_size-le (length stripe) k hn hk) w.shape.size_eq hs)

    loop_plan-IsGood :
        (fuel : ℕ) (r : Bytes) (idx remaining : ℕ)
        → idx < 2 ^ 32
        → remaining < 2 ^ 63
        → IsGood (loop_plan fuel (store_of k m size) e id r idx remaining)
    unfolding loop_plan
    loop_plan-IsGood zero r idx remaining hi hr = elim (Bool-cases (remaining == 0)) [
      | inl done ↦ rw done (tt, λ n same. let equal : idx ≡ n = cc same in omega arith)
      | inr more ↦ rw more (tt, λ n same. absurd (cc same))
    ]
    loop_plan-IsGood (suc fuel) r idx remaining hi hr = elim (Bool-cases (remaining == 0)) [
      | inl done ↦ rw done (tt, λ n same. let equal : idx ≡ n = cc same in omega arith)
      | inr more ↦
          let n = if ltb remaining size then remaining else size in
          let some : (1 ≤ n) × (n < 2 ^ 63) = ground (arith, more) in
          rw more (
            none-IsGood (wrap_err "storage: read input" (read_full n r)) _ λ got read.
              let len : length got.0 ≡ n = length-read_full n r got (unwrap_ok _ _ got read) in
              none-IsGood (encode e got.0) _ λ shards encoded.
                preceded-IsGood (stripe_calls (params_of k m) id idx (length got.0) 0 shards) _
                  (stripe_calls-IsCall idx (length got.0) 0 shards hk hm small hi (omega arith)
                    (encode-short got.0 shards (omega arith) (omega arith) encoded))
                  (loop_plan-IsGood fuel got.1 (wrap_32 (idx + 1)) (remaining - n) (omega arith)
                    (omega arith)))
    ]

  marked-IsCall :
      (size : ℕ) (n : ℤ) (p : Plan ℕ)
      → k + m ≤ 256
      → InInt64 n
      → IsGood p
      → All (IsCall sha256 in_use) (marked (store_of k m size) id n p).0
  unfolding to_ec_params
  marked-IsCall size n (cs, err e) small hn h = h.0
  marked-IsCall size n (cs, ok stripes) small hn h =
      let marker : IsEncodableMeta k m
          (record { size = n; stripes = stripes; params = scheme_params k m }) =
        record {
          size = hn;
          stripes = h.1 stripes refl;
          params = refl;
          data_lt = omega arith;
          parity_lt = omega arith;
        } in
      All-append (IsCall sha256 in_use) cs _ h.0 ((named.used, (k, (m, marker))), tt)

  planned-IsCall :
      {A : Type 0} (x : Result A) (a : A) (p : A → Plan (Unit {0}))
      → x ≡ ok a
      → All (IsCall sha256 in_use) (p a).0
      → All (IsCall sha256 in_use) (planned x p).0
  planned-IsCall x a p e h = rw e h

  -- All that `PutObject` calls is what the formats can hold.
  pub put_plan-IsCall :
      (new_engine : ℤ → ℤ → Result Engine) (w : IsScheme new_engine k m) (size : ℕ)
      → 1 ≤ size
      → (r : Bytes) (n : ℤ) → InInt64 n
      → All (IsCall sha256 in_use) (put_plan new_engine (store_of k m size) id r n).0
  unfolding put_plan to_ec_params
  put_plan-IsCall new_engine w size positive r n hn =
      let e = the_encoder new_engine k m w in
      let some : (length id == 0) ≡ false = ground (arith, named.id_pos) in
      elim (Bool-cases (ltb_ℤ n (pos 0))) [
        | inl negative ↦ rw (some, negative) tt
        | inr signed ↦
            rw (some, signed)
              (planned-IsCall (new_encoder new_engine (scheme_params k m)) e _
                (new_encoder_ok new_engine k m w)
                (marked-IsCall size n _ w.small hn (
                  loop_plan-IsGood e w.code w.data_pos w.parity_pos w.small size positive
                    (pos_part n) r 0 (pos_part n) (omega arith) hn.0)))
      ]
