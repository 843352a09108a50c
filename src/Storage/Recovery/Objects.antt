-- ===== src/Storage/Recovery/Objects.antt =====
-- `PutObject` and `GetObject` of internal/storage/object.go together.
use shardstore.Common.{ℕ, ◌+◌, ◌^◌, ◌≤◌, ◌<◌, ◌≡◌, refl, sym, ap, ◌∙◌, arith, Bool-cases, inl, inr}
use shardstore.Common.{Bytes, ◌++◌, length, ℤ, pos, str_eq, str_eq_iff, str_eq_refl}
use shardstore.Errors.{Result, ok}
use shardstore.Ec.ReedSolomon.{Engine}
use shardstore.Ec.Created.{IsScheme, scheme_params, the_encoder}
use shardstore.Storage.Header.{ShardKey}
use shardstore.Storage.ShardStore.{ShardStore, IsShardStore}
use shardstore.Storage.Object.{Body, read_body, put_object, get_object}
use shardstore.Storage.Recovery.Shards.{count_ok}
use shardstore.Storage.Recovery.Putting.{store_of, stripes_of, IsPut, put_object_lem}
use shardstore.Storage.Recovery.Damage.{IsDamaged, AllReadable-IsDamaged}
use shardstore.Storage.Recovery.RoundTrip.{HasNoShards, get_stored}

module _ {S : Type 0} (sha256 : Bytes → Bytes) (st : ShardStore S) (law : IsShardStore sha256 st)
    (new_engine : ℤ → ℤ → Result Engine) (k m : ℕ) (w : IsScheme new_engine k m) (size : ℕ)
    (positive : 1 ≤ size) where
  -- What `PutObject` returned is what it does.
  pub IsPut-put_object :
      (s₀ s₁ : S) (id d rest : Bytes)
      → 1 ≤ length id
      → length (stripes_of size d) < 2 ^ 32
      → put_object st new_engine (store_of k m size) s₀ id (d ++ rest) (pos (length d))
        ≡ (ok tt, s₁)
      → IsPut sha256 st law new_engine k m w size positive id d s₀ s₁
  IsPut-put_object s₀ s₁ id d rest hid few put =
      let (s', put', w') =
        put_object_lem sha256 st law new_engine k m w size positive s₀ id d rest hid few in
      let same : s' ≡ s₁ = ap (λ t. t.1) (sym put' ∙ put) in rw same at w'

  -- Over a store that keeps the contract, a scheme for which the library keeps its documentation,
  -- and stripes of at least one byte:
  -- `PutObject` succeeds on a reader of at least the announced
  -- number of bytes, under an id that is not empty, when the bytes make fewer than 2 ^ 32 stripes; and the marker
  -- of the object then tells their number, the number of stripes and the scheme.
  pub read_marker-put_object :
      (s : S) (id d rest : Bytes)
      → 1 ≤ length id
      → length (stripes_of size d) < 2 ^ 32
      → (s' : S) × (put_object st new_engine (store_of k m size) s id (d ++ rest) (pos (length d))
          ≡ (ok tt, s'))
        × (st.read_marker s' id
            ≡ ok (record {
              size = pos (length d);
              stripes = length (stripes_of size d);
              params = scheme_params k m;
            }))
  read_marker-put_object s id d rest hid few =
      let (s', put, w') =
        put_object_lem sha256 st law new_engine k m w size positive s id d rest hid few in
      (s', put, w'.markers id ∙ rw (str_eq_refl id) refl)

  -- Over a store that keeps the contract, a scheme for which the library keeps its documentation,
  -- and stripes of at least one byte: a
  -- `PutObject` under an id that is not empty that succeeds, of fewer than 2 ^ 32 stripes, changes no shard and no marker of
  -- another object.
  pub get_shard-put_object_ne :
      (s s' : S) (id d rest : Bytes) (j : ShardKey)
      → 1 ≤ length id
      → length (stripes_of size d) < 2 ^ 32
      → put_object st new_engine (store_of k m size) s id (d ++ rest) (pos (length d)) ≡ (ok tt, s')
      → ¬ (j.object_id ≡ id)
      → (st.get_shard s' j ≡ st.get_shard s j)
        × (st.read_marker s' j.object_id ≡ st.read_marker s j.object_id)
  get_shard-put_object_ne s s' id d rest j hid few put other =
      let w' = IsPut-put_object s s' id d rest hid few put in
      (
        w'.shards j (λ x. other x.0),
        w'.markers j.object_id ∙ elim (Bool-cases (str_eq id j.object_id)) [
          | inl same ↦ absurd (other (sym ((str_eq_iff id j.object_id).0 same)))
          | inr differ ↦ rw differ refl
        ],
      )

  -- Over a store that keeps the contract, a scheme for which the library keeps its documentation,
  -- and stripes of at least one byte: let
  -- `PutObject` store `d` under an id that is not empty and had no shards, and let shards of the object be lost
  -- afterwards, by deletion or by corruption, such that k shards of each stripe are left. Then
  -- `GetObject` returns the size of `d`, and reading its body to the end, through buffers of any
  -- positive sizes, gives `d` and no error. `d` is shorter than 2 ^ 63 bytes and makes
  -- fewer than 2 ^ 32 stripes; fuel above its length is enough.
  pub get_object-put_object :
      (s₀ s₁ s : S) (id d rest : Bytes)
      → 1 ≤ length id
      → HasNoShards st id s₀
      → length d < 2 ^ 63
      → length (stripes_of size d) < 2 ^ 32
      → put_object st new_engine (store_of k m size) s₀ id (d ++ rest) (pos (length d))
        ≡ (ok tt, s₁)
      → IsDamaged st id s₁ s
      → ((i : ℕ) → i < length (stripes_of size d) → k ≤ count_ok st id i s (k + m) 0)
      → (sizes : ℕ → ℕ) → ((i : ℕ) → 1 ≤ sizes i)
      → (fuel : ℕ) → length d < fuel
      → (body : Body) × (get_object st new_engine (store_of k m size) s id
          ≡ ok (body, pos (length d)))
        × (read_body st sizes fuel s body ≡ (d, ok tt))
  get_object-put_object s₀ s₁ s id d rest hid fresh small few put damage left sizes some_room fuel
        enough =
      let w' = IsPut-put_object s₀ s₁ id d rest hid few put in
      get_stored sha256 st law new_engine k m w size positive id d hid s₀ s₁ s fresh w' damage
        (stripes_of size d) refl
        (AllReadable-IsDamaged st id s₁ s damage sha256 law k m (the_encoder new_engine k m w)
          w.code w.data_pos w.small 0 (stripes_of size d) w'.stored
          (λ i lo hi. left i (omega arith)))
        few small sizes some_room fuel enough
