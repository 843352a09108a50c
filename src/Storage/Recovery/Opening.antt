-- ===== src/Storage/Recovery/Opening.antt =====
-- How `GetObject` finds the number of stripes and the size.
use shardstore.Common.{ℕ, zero, suc, ◌+◌, ◌*◌, ◌≤◌, ◌≡◌, refl, sym, ap, ◌∙◌, arith, inl, inr, true}
use shardstore.Common.{
  Bytes, List, [], ◌∷◌, length, concat, pos, if◌then◌else◌, ltb, Bool-cases, length-append,
}
use shardstore.Common.Assoc.{mem_key}
use shardstore.Errors.{ok}
use shardstore.Storage.Header.{ShardKey}
use shardstore.Storage.ShardStore.{ShardStore, IsShardStore, key_eq, beq_key, beq_key_iff, is_there}
use shardstore.Storage.Object.{key_of, max_stripe, last_stripe_len}
use shardstore.Storage.Recovery.Shards.{IntactOrGone, count_ok}
use shardstore.Storage.Recovery.Stripes.{IsChunked, last}

-- A start that is no larger than the bound, and keys that are not, give a result that is not.
pub max_stripe-le :
    (b m : ℕ) (ks : List ShardKey)
    → m ≤ b
    → ((j : ShardKey) → mem_key j ks ≡ true → j.stripe_idx ≤ b)
    → max_stripe m ks ≤ b
unfolding max_stripe mem_key
max_stripe-le b m [] hm h = hm
max_stripe-le b m (k ∷ ks) hm h =
    let self : beq_key k k ≡ true = (beq_key_iff k k).1 refl in
    max_stripe-le b (if ltb m k.stripe_idx then k.stripe_idx else m) ks (ground (arith, h k))
      (λ j t. h j (ground arith))

le-max_stripe_start : (m : ℕ) (ks : List ShardKey) → m ≤ max_stripe m ks
unfolding max_stripe
le-max_stripe_start m [] = omega arith
le-max_stripe_start m (k ∷ ks) =
    ground (arith, le-max_stripe_start (if ltb m k.stripe_idx then k.stripe_idx else m) ks)

le-max_stripe :
    (m : ℕ) (j : ShardKey) (ks : List ShardKey)
    → mem_key j ks ≡ true
    → j.stripe_idx ≤ max_stripe m ks
unfolding max_stripe mem_key
le-max_stripe m j [] h = cc
le-max_stripe m j (k ∷ ks) h = elim (Bool-cases (beq_key k j)) [
  | inl same ↦
      let e : k.stripe_idx ≡ j.stripe_idx =
        ap (λ (t : ShardKey). t.stripe_idx) ((beq_key_iff k j).0 same) in
      ground (arith, le-max_stripe_start (if ltb m k.stripe_idx then k.stripe_idx else m) ks)
  | inr other ↦ le-max_stripe (if ltb m k.stripe_idx then k.stripe_idx else m) j ks (ground arith)
]

-- The largest stripe number, if some key has it and none has a larger one.
pub max_stripe_lem :
    (j : ShardKey) (ks : List ShardKey)
    → mem_key j ks ≡ true
    → ((i : ShardKey) → mem_key i ks ≡ true → i.stripe_idx ≤ j.stripe_idx)
    → max_stripe 0 ks ≡ j.stripe_idx
max_stripe_lem j ks h b =
    omega (arith, max_stripe-le j.stripe_idx 0 ks (omega arith) b, le-max_stripe 0 j ks h)

module _ {S : Type 0} (sha256 : Bytes → Bytes) (st : ShardStore S) (law : IsShardStore sha256 st)
    (id : Bytes) (idx n : ℕ) where
  -- A stripe with a shard that can be read gives its length.
  pub last_stripe_len_lem :
      (s : S) (i : ℕ) (c : List Bytes)
      → IntactOrGone st id idx n s i c
      → 1 ≤ count_ok st id idx s (length c) i
      → last_stripe_len st id idx (length c) i s ≡ ok (pos n)
  unfolding last_stripe_len count_ok
  last_stripe_len_lem s i [] t h = absurd (omega arith)
  last_stripe_len_lem s i (d ∷ c) (inl (x, e, l), t) h =
      rw (law.verify_lem s (key_of id idx i), e) (ap ok l)
  last_stripe_len_lem s i (d ∷ c) (inr (x, e, l), t) h =
      rw (law.verify_lem s (key_of id idx i), e, l) (last_stripe_len_lem s (i + 1) c t (rw e at h))

  -- One of the shards that are counted.
  pub one_there :
      (s : S) (i rounds : ℕ)
      → 1 ≤ count_ok st id idx s rounds i
      → (j : ℕ) × (is_there (st.get_shard s (key_of id idx j)) ≡ true)
  unfolding count_ok
  one_there s i zero h = absurd (omega arith)
  one_there s i (suc rounds) h = elim (Bool-cases (is_there (st.get_shard s (key_of id idx i)))) [
    | inl there ↦ (i, there)
    | inr gone ↦ one_there s (i + 1) rounds (ground (arith, gone))
  ]

pub length-concat :
    (size : ℕ) (x : Bytes) (xs : List Bytes)
    → IsChunked size (x ∷ xs)
    → length (concat (x ∷ xs)) ≡ length xs * size + length (last x xs)
length-concat size x [] w = omega (arith, length-append x [])
length-concat size x (y ∷ ys) w =
    omega (arith, length-append x (concat (y ∷ ys)), length-concat size y ys w.2)

-- The largest stripe number does not depend on the order of the keys.
pub max_stripe-congr :
    (ks js : List ShardKey)
    → ((j : ShardKey) → mem_key j ks ≡ mem_key j js)
    → max_stripe 0 ks ≡ max_stripe 0 js
max_stripe-congr ks js h =
    let below =
      max_stripe-le (max_stripe 0 js) 0 ks (omega arith)
        (λ j there. le-max_stripe 0 j js (sym (h j) ∙ there)) in
    let above =
      max_stripe-le (max_stripe 0 ks) 0 js (omega arith)
        (λ j there. le-max_stripe 0 j ks (h j ∙ there)) in
    omega (arith, below, above)
