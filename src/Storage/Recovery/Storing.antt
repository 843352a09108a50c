-- ===== src/Storage/Recovery/Storing.antt =====
-- What `putStripe` leaves in a store that keeps the contract.
use shardstore.Common.{ℕ, suc, ◌+◌, ◌^◌, ◌≤◌, ◌<◌, ◌≡◌, refl, sym, ap, ◌∙◌, arith, inl, inr}
use shardstore.Common.{Bytes, List, [], ◌∷◌, length, Bool-cases}
use shardstore.Errors.{ok, and_then, wrap_step}
use shardstore.Ec.{Encoder}
use shardstore.Ec.Laws.{IsCodeword, encode_lem}
use shardstore.Ec.ReedSolomon.{IsErasureCode}
use shardstore.Storage.Header.{ShardKey}
use shardstore.Storage.ShardStore.{ShardStore, IsShardStore, beq_key, beq_key_iff}
use shardstore.Storage.Object.{
  EcParams, ObjectStore, key_of, header_for, put_shards, put_stripe, wrap_32,
}
use shardstore.Storage.Recovery.Shards.{IsIntact, AllIntact}

-- Shard number `i` or one of the `n - 1` behind it, of stripe `idx` of the object.
abbrev pub InStripe : Bytes → ℕ → ℕ → ℕ → ShardKey → Type 0
InStripe id idx i n j =
    (j.object_id ≡ id) × (j.stripe_idx ≡ idx) × (i ≤ j.shard_idx) × (j.shard_idx < i + n)

key_of-InStripe :
    (id : Bytes) (idx i n : ℕ) (j : ShardKey)
    → i < 2 ^ 32
    → key_of id idx i ≡ j
    → InStripe id idx i (suc n) j
key_of-InStripe id idx i n j h e =
    let same : wrap_32 i ≡ j.shard_idx = ap (λ (t : ShardKey). t.shard_idx) e in
    (
      sym (ap (λ (t : ShardKey). t.object_id) e),
      sym (ap (λ (t : ShardKey). t.stripe_idx) e),
      omega arith,
      omega arith,
    )

-- From `s` to `s'` nothing changed but shards for which `P` holds.
pub record ChangesOnly {S : Type 0} (st : ShardStore S) (P : ShardKey → Type 0) (s s' : S)
    : Type 0 where
  pub shards : (j : ShardKey) → ¬ P j → st.get_shard s' j ≡ st.get_shard s j
  pub markers : (id : Bytes) → st.read_marker s' id ≡ st.read_marker s id

module _ {S : Type 0} (sha256 : Bytes → Bytes) (st : ShardStore S) (law : IsShardStore sha256 st)
    (p : EcParams) (id : Bytes) (idx n : ℕ) where
  put_one : S → ℕ → Bytes → S
  put_one s i d = (st.put_shard s (key_of id idx i) (header_for p id idx i n (length d)) d).1

  put_one_eq :
      (s : S) (i : ℕ) (d : Bytes)
      → st.put_shard s (key_of id idx i) (header_for p id idx i n (length d)) d
        ≡ (ok tt, put_one s i d)
  unfolding put_one
  put_one_eq s i d =
      ap (λ r. (r, put_one s i d))
        (law.put_ok s (key_of id idx i) (header_for p id idx i n (length d)) d refl refl)

  get-put_one_self : (s : S) (i : ℕ) (d : Bytes) → IsIntact st id idx n (put_one s i d) i d
  unfolding put_one
  get-put_one_self s i d =
      let h = header_for p id idx i n (length d) in
      (
        record h { checksum = sha256 d },
        law.get-put s (key_of id idx i) h d (key_of id idx i) refl refl
            ∙ rw ((beq_key_iff (key_of id idx i) (key_of id idx i)).1 refl),
        refl,
      )

  get-put_one_ne :
      (s : S) (i : ℕ) (d : Bytes) (j : ShardKey)
      → ¬ (key_of id idx i ≡ j)
      → st.get_shard (put_one s i d) j ≡ st.get_shard s j
  unfolding put_one
  get-put_one_ne s i d j differ =
      law.get-put s (key_of id idx i) (header_for p id idx i n (length d)) d j refl refl
      ∙ elim (Bool-cases (beq_key (key_of id idx i) j)) [
        | inl same ↦ absurd (differ ((beq_key_iff (key_of id idx i) j).0 same))
        | inr other ↦ rw other
      ]

  pub put_shards-ChangesOnly :
      (s : S) (i : ℕ) (c : List Bytes)
      → i + length c < 2 ^ 32
      → (s' : S) × (put_shards st p id idx n i c s ≡ (ok tt, s'))
        × AllIntact st id idx n s' i c
        × ChangesOnly st (InStripe id idx i (length c)) s s'
  unfolding put_shards put_one
  put_shards-ChangesOnly s i [] h =
      (s, refl, tt, record { shards = λ j out. refl; markers = λ id. refl })
  put_shards-ChangesOnly s i (d ∷ c) h =
      let (s', done, intact, only) =
        put_shards-ChangesOnly (put_one s i d) (i + 1) c (omega arith) in
      let here : ¬ InStripe id idx (i + 1) (length c) (key_of id idx i) =
        λ x. absurd (omega (arith, x.2)) in
      let (hd, got, len) = get-put_one_self s i d in
      (
        s',
        ap
              (λ t.
                and_then (wrap_step "storage: put shard" t)
                  (λ _ s'. put_shards st p id idx n (i + 1) c s'))
              (put_one_eq s i d)
            ∙ done,
        ((hd, only.shards (key_of id idx i) here ∙ got, len), intact),
        record {
          shards = λ j out.
              only.shards j (λ x. out (x.0, x.1, omega (arith, x.2), omega (arith, x.3)))
              ∙ get-put_one_ne s i d j
                  (λ e. out (key_of-InStripe id idx i (length c) j (omega arith) e));
          markers = λ id'.
              only.markers id'
              ∙ law.read_marker-put s (key_of id idx i) (header_for p id idx i n (length d)) d id';
        },
      )

module _ {S : Type 0} (sha256 : Bytes → Bytes) (st : ShardStore S) (law : IsShardStore sha256 st)
    (k m : ℕ) (e : Encoder) (code : IsErasureCode k m e.enc) (hk : 1 ≤ k)
    (small : k + m ≤ 256) where
  -- All k + m shards of a stripe of at least one byte are there, intact.
  pub record IsStored (s : S) (id : Bytes) (idx : ℕ) (stripe : Bytes) : Type 0 where
    pub nonempty : 1 ≤ length stripe
    pub codeword : List Bytes
    pub is_codeword : IsCodeword k m e.enc stripe codeword
    pub shards : AllIntact st id idx (length stripe) s 0 codeword

  -- `putStripe` of a stripe stores it, and changes no shard of another stripe or object.
  pub put_stripe_lem :
      (o : ObjectStore) (s : S) (id : Bytes) (idx : ℕ) (stripe : Bytes)
      → 1 ≤ length stripe
      → (s' : S) × (put_stripe st o e id idx stripe s ≡ (ok tt, s'))
        × IsStored s' id idx stripe
        × ChangesOnly st (λ j. (j.object_id ≡ id) × (j.stripe_idx ≡ idx)) s s'
  unfolding put_stripe
  put_stripe_lem o s id idx stripe hn =
      let (c, encoded, w) = encode_lem k m e code hk stripe hn in
      let (s', done, intact, only) =
        put_shards-ChangesOnly sha256 st law o.params id idx (length stripe) s 0 c
          (omega (arith, w.shape.count_eq)) in
      (
        s',
        ap (λ t. and_then (t, s) (λ c s. put_shards st o.params id idx (length stripe) 0 c s))
              encoded
            ∙ done,
        record { nonempty = hn; codeword = c; is_codeword = w; shards = intact },
        record { shards = λ j out. only.shards j (λ x. out (x.0, x.1)); markers = only.markers },
      )
