-- ===== src/Storage/Recovery/Getting.antt =====
-- `GetObject` of an object that was put: the reader and the size.
use shardstore.Common.{ℕ, ◌+◌, ◌-◌, ◌*◌, ◌^◌, ◌%◌, ◌<◌, ◌≡◌, refl, ap, ◌∙◌, arith, true, false}
use shardstore.Common.{Bytes, List, [], ◌∷◌, ℤ, pos}
use shardstore.Common.{str_eq_iff, to_int64, add_int-pos}
use shardstore.Common.Assoc.{mem_key}
use shardstore.Errors.{Result, ok}
use shardstore.Ec.ReedSolomon.{Engine}
use shardstore.Ec.Created.{IsScheme, the_encoder, new_encoder_ok}
use shardstore.Storage.Header.{ShardKey, ObjectMeta}
use shardstore.Storage.ShardStore.{ShardStore, key_eq}
use shardstore.Storage.Object.{
  max_stripe, last_stripe_len, empty_reader, object_reader, encoder, or_panic,
}
use shardstore.Storage.Object.{open_object, get_object, to_ec_params, wrap_32}
use shardstore.Storage.Recovery.Load.{shard_count-params_of, reader_at}
use shardstore.Storage.Recovery.Putting.{store_of}

to_int64-lt : (n : ℕ) → n < 2 ^ 63 → to_int64 (n % 2 ^ 64) ≡ pos n
unfolding to_int64
to_int64-lt n h = ground arith

module _ {S : Type 0} (st : ShardStore S) (new_engine : ℤ → ℤ → Result Engine) (k m : ℕ)
    (w : IsScheme new_engine k m) (size : ℕ) where
  -- Where the listing shows some shard, `GetObject` opens the object.
  get_object-open_object :
      (s : S) (id : Bytes) (ks : List ShardKey) (j : ShardKey)
      → st.list_object_shards s id ≡ ok ks
      → mem_key j ks ≡ true
      → get_object st new_engine (store_of k m size) s id
        ≡ open_object st new_engine (store_of k m size) s id ks
  unfolding get_object mem_key
  get_object-open_object s id [] j e h = cc
  get_object-open_object s id (x ∷ ks) j e h = rw e

  encoder_ok : encoder new_engine (store_of k m size) ≡ ok (the_encoder new_engine k m w)
  unfolding encoder to_ec_params
  encoder_ok = ap or_panic (new_encoder_ok new_engine k m w)

  open_object_lem :
      (s : S) (id : Bytes) (ks : List ShardKey) (top len : ℕ)
      → max_stripe 0 ks ≡ top
      → last_stripe_len st id top (k + m) 0 s ≡ ok (pos len)
      → top + 1 < 2 ^ 32
      → top * size + len < 2 ^ 63
      → open_object st new_engine (store_of k m size) s id ks
        ≡ ok (
          object_reader (reader_at k m (the_encoder new_engine k m w) id size (top + 1) 0 [] 0),
          pos (top * size + len),
        )
  unfolding open_object
  open_object_lem s id ks top len et el few fits =
      let total : wrap_32 (top + 1) ≡ top + 1 = omega arith in
      let back : wrap_32 (top + 1 + 2 ^ 32 - 1) ≡ top = omega arith in
      rw (
        et,
        shard_count-params_of k m w.small,
        el,
        encoder_ok,
        total,
        back,
        to_int64-lt (top * size) (omega arith),
        add_int-pos (top * size) len fits,
      )

  pub get_object_lem :
      (s : S) (id : Bytes) (ks : List ShardKey) (j : ShardKey) (len : ℕ)
      → st.list_object_shards s id ≡ ok ks
      → mem_key j ks ≡ true
      → max_stripe 0 ks ≡ j.stripe_idx
      → last_stripe_len st id j.stripe_idx (k + m) 0 s ≡ ok (pos len)
      → j.stripe_idx + 1 < 2 ^ 32
      → j.stripe_idx * size + len < 2 ^ 63
      → get_object st new_engine (store_of k m size) s id
        ≡ ok (
          object_reader
              (reader_at k m (the_encoder new_engine k m w) id size (j.stripe_idx + 1) 0 [] 0),
          pos (j.stripe_idx * size + len),
        )
  get_object_lem s id ks j len listed there top el few fits =
      get_object-open_object s id ks j listed there
      ∙ open_object_lem s id ks j.stripe_idx len top el few fits

  -- An object with no shards is what its marker says.
  pub get_object-marker :
      (s : S) (id : Bytes) (meta : ObjectMeta)
      → st.list_object_shards s id ≡ ok []
      → st.read_marker s id ≡ ok meta
      → get_object st new_engine (store_of k m size) s id ≡ ok (empty_reader, meta.size)
  unfolding get_object
  get_object-marker s id meta e h = rw (e, h)

pub empty_of_no_members : (ks : List ShardKey) → ((j : ShardKey) → mem_key j ks ≡ false) → ks ≡ []
unfolding mem_key
empty_of_no_members [] h = refl
empty_of_no_members (x ∷ ks) h = absurd (ground (arith, h x, str_eq_iff x.object_id x.object_id))
