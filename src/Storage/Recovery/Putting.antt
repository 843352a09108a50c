-- ===== src/Storage/Recovery/Putting.antt =====
-- `PutObject` as a whole.
use shardstore.Common.{ℕ, zero, suc, ◌+◌, ◌^◌, ◌≤◌, ◌<◌, ◌≡◌, ap, ◌∙◌, arith, false}
use shardstore.Common.{◌==◌, Bytes, List, [], ◌∷◌, ◌++◌, length, ℤ, pos, if◌then◌else◌, ltb}
use shardstore.Errors.{Result, ok, and_then}
use shardstore.Storage.Header.{ShardKey}
use shardstore.Storage.ShardStore.{ShardStore, IsShardStore}
use shardstore.Storage.Object.{ObjectStore, put_loop}
use shardstore.Storage.Recovery.Stripes.{chunks, concat-chunks, chunks-IsChunked}
use shardstore.Storage.Recovery.Load.{params_of}
use shardstore.Ec.Created.{IsScheme, scheme_params, the_encoder, new_encoder_ok}
use shardstore.Ec.ReedSolomon.{Engine}
use shardstore.Storage.Object.{put_object, to_ec_params}
use shardstore.Storage.Header.{ObjectMeta}
use shardstore.Common.{str_eq, drop}
use shardstore.Storage.Recovery.Storing.{ChangesOnly}
use shardstore.Storage.Recovery.Writing.{InStripes, AllStored, AllStored-congr, put_loop_lem}
use native.Mathlib.Nat.{zero-add}

-- The object store of a scheme.
abbrev pub store_of : ℕ → ℕ → ℕ → ObjectStore
store_of k m size = record { params = params_of k m; stripe_size = size }

abbrev pub stripes_of : ℕ → Bytes → List Bytes
stripes_of size d = chunks (length d) size d

pub length-chunks : (fuel size : ℕ) (d : Bytes) → length (chunks fuel size d) ≤ fuel
unfolding chunks
length-chunks zero size [] = omega arith
length-chunks zero size (b ∷ d) = omega arith
length-chunks (suc fuel) size [] = omega arith
length-chunks (suc fuel) size (b ∷ d) = omega (arith, length-chunks fuel size (drop size (b ∷ d)))

module _ {S : Type 0} (sha256 : Bytes → Bytes) (st : ShardStore S) (law : IsShardStore sha256 st)
    (new_engine : ℤ → ℤ → Result Engine) (k m : ℕ) (w : IsScheme new_engine k m) (size : ℕ)
    (positive : 1 ≤ size) where
  abbrev meta_of : Bytes → ObjectMeta
  meta_of d = record {
    size = pos (length d);
    stripes = length (stripes_of size d);
    params = scheme_params k m;
  }

  -- What `PutObject` leaves behind.
  pub record IsPut (id d : Bytes) (s s' : S) : Type 0 where
    pub stored :
        AllStored sha256 st law k m
          (the_encoder new_engine k m w)
          w.code
          w.data_pos
          w.small
          s'
          id
          0
          (stripes_of size d)
    pub shards :
        (j : ShardKey)
        → ¬ InStripes id 0 (length (stripes_of size d)) j
        → st.get_shard s' j ≡ st.get_shard s j
    pub markers :
        (j : Bytes)
        → st.read_marker s' j ≡ (if str_eq id j then ok (meta_of d) else st.read_marker s j)

  put_object_from :
      (s s₁ : S) (id d r : Bytes) (n : ℕ)
      → 1 ≤ length id
      → put_loop st
          (length d)
          (store_of k m size)
          (the_encoder new_engine k m w)
          id
          r
          0
          (length d)
          s
        ≡ (ok n, s₁)
      → put_object st new_engine (store_of k m size) s id r (pos (length d)) ≡ (
        ok tt,
        (st.write_marker s₁ id
            (record { size = pos (length d); stripes = n; params = scheme_params k m })).1,
      )
  unfolding put_object to_ec_params
  put_object_from s s₁ id d r n hid looped =
      let meta : ObjectMeta = record {
        size = pos (length d);
        stripes = n;
        params = scheme_params k m;
      } in
      let named : (length id == 0) ≡ false = ground arith in
      let signed : ltb (length d + 0) (0 + 0) ≡ false = ground arith in
      rw (named, signed, new_encoder_ok new_engine k m w)
        (ap
            (λ t. and_then t (λ stripes s'.
              st.write_marker s' id
                (record { size = pos (length d); stripes = stripes; params = scheme_params k m })))
            looped
          ∙ ap (λ t. (t, (st.write_marker s₁ id meta).1)) (law.write_marker_ok s₁ id meta))

  -- The stripes of the bytes that the loop stores.
  put_stripes :
      (s : S) (id d rest : Bytes)
      → length (stripes_of size d) < 2 ^ 32
      → (s₁ : S) × (put_loop st
            (length d)
            (store_of k m size)
            (the_encoder new_engine k m w)
            id
            (d ++ rest)
            0
            (length d)
            s
          ≡ (ok (length (stripes_of size d)), s₁))
        × AllStored sha256 st law k m
            (the_encoder new_engine k m w)
            w.code
            w.data_pos
            w.small
            s₁
            id
            0
            (stripes_of size d)
        × ChangesOnly st (InStripes id 0 (length (stripes_of size d))) s s₁
  put_stripes s id d rest few =
      let e = the_encoder new_engine k m w in
      let whole = concat-chunks size positive (length d) d (omega arith) in
      let (s₁, looped, stored, only) =
        put_loop_lem sha256 st law k m e w.code w.data_pos w.small (store_of k m size) id (length d)
          s (stripes_of size d) rest 0 (chunks-IsChunked size positive (length d) d (omega arith))
          (length-chunks (length d) size d) (omega arith) in
      (s₁, rw (whole, zero-add) at looped, stored, only)

  pub put_object_lem :
      (s : S) (id d rest : Bytes)
      → 1 ≤ length id
      → length (stripes_of size d) < 2 ^ 32
      → (s' : S) × (put_object st new_engine (store_of k m size) s id (d ++ rest) (pos (length d))
          ≡ (ok tt, s'))
        × IsPut id d s s'
  put_object_lem s id d rest hid few =
      let (s₁, looped, stored, only) = put_stripes s id d rest few in
      (
        (st.write_marker s₁ id (meta_of d)).1,
        put_object_from s s₁ id d (d ++ rest) (length (stripes_of size d)) hid looped,
        record {
          stored =
              AllStored-congr sha256 st law k m (the_encoder new_engine k m w) w.code w.data_pos
                w.small s₁ (st.write_marker s₁ id (meta_of d)).1 id 0 (stripes_of size d)
                (law.get-write_marker s₁ id (meta_of d)) stored;
          shards = λ j out. law.get-write_marker s₁ id (meta_of d) j ∙ only.shards j out;
          markers = λ j.
              law.read-write_marker s₁ id (meta_of d) j
              ∙ ap (λ t. if str_eq id j then ok (meta_of d) else t) (only.markers j);
        },
      )
