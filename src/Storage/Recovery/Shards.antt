-- ===== src/Storage/Recovery/Shards.antt =====
-- The shards of one stripe in a store, intact or lost, and how `loadStripe` gathers them.
use shardstore.Common.{ℕ, zero, suc, ◌+◌, ◌-◌, ◌≤◌, ◌≡◌, refl, ap, arith, ◌⊎◌, inl, inr, true, ◌==◌}
use shardstore.Common.{Bytes, List, [], ◌∷◌, ◌++◌, length, All, pos, if◌then◌else◌}
use shardstore.Errors.{Error, ok, err}
use shardstore.Ec.ReedSolomon.{Survives, present}
use shardstore.Storage.Header.{ShardHeader}
use shardstore.Storage.ShardStore.{ShardStore}
use shardstore.Storage.Object.{key_of, is_lost, Gathered, add_valid, add_lost, gather}
use mathlib.Core.List.{append-nil, append_assoc}

module _ {S : Type 0} (st : ShardStore S) (id : Bytes) (idx : ℕ) (n : ℕ) where
  -- Shard `i` of the stripe of `n` bytes is `d`.
  abbrev pub IsIntact : S → ℕ → Bytes → Type 0
  IsIntact s i d =
      (h : ShardHeader) × (st.get_shard s (key_of id idx i) ≡ ok (d, h)) × (h.stripe_len ≡ pos n)

  abbrev pub IsGone : S → ℕ → Type 0
  IsGone s i = (e : Error) × (st.get_shard s (key_of id idx i) ≡ err e) × (is_lost e ≡ true)

  -- From number `i` on, the shards are those of `c`.
  abbrev pub AllIntact : S → ℕ → List Bytes → Type 0
  AllIntact s i [] = Unit
  AllIntact s i (d ∷ c) = IsIntact s i d × AllIntact s (i + 1) c

  -- From number `i` on, each shard is that of `c`, or it is lost.
  abbrev pub IntactOrGone : S → ℕ → List Bytes → Type 0
  IntactOrGone s i [] = Unit
  IntactOrGone s i (d ∷ c) = (IsIntact s i d ⊎ IsGone s i) × IntactOrGone s (i + 1) c

module _ {S : Type 0} (st : ShardStore S) (id : Bytes) (idx : ℕ) where
  -- How many of the shards from `i` on can be read.
  unfoldable pub count_ok : S → ℕ → ℕ → ℕ
  count_ok s zero i = 0
  count_ok s (suc rounds) i =
      let rest = count_ok s rounds (i + 1) in
      elim (st.get_shard s (key_of id idx i)) [ ok x ↦ suc rest | err e ↦ rest ]

  -- The shards from `i` on, an empty one for each that cannot be read.
  unfoldable pub found : S → ℕ → ℕ → List Bytes
  found s zero i = []
  found s (suc rounds) i =
      let rest = found s rounds (i + 1) in
      elim (st.get_shard s (key_of id idx i)) [ ok (d, h) ↦ d ∷ rest | err e ↦ [] ∷ rest ]

  pub count_ok-le : (s : S) (rounds i : ℕ) → count_ok s rounds i ≤ rounds
  unfolding count_ok
  count_ok-le s zero i = omega arith
  count_ok-le s (suc rounds) i = ground (arith, count_ok-le s rounds (i + 1))

module _ {S : Type 0} (st : ShardStore S) (id : Bytes) (idx n : ℕ) where
  -- What `gather` returns, from what it had.
  abbrev gathered : S → ℕ → ℕ → Gathered → Gathered
  gathered s rounds i g = record {
    shards = g.shards ++ found st id idx s rounds i;
    stripe_len = if count_ok st id idx s rounds i == 0 then g.stripe_len else pos n;
    valid = g.valid + count_ok st id idx s rounds i;
    lost = g.lost + (rounds - count_ok st id idx s rounds i);
  }

  pub gather_lem :
      (s : S) (i : ℕ) (c : List Bytes) (g : Gathered)
      → IntactOrGone st id idx n s i c
      → gather st id idx (length c) i g s ≡ ok (gathered s (length c) i g)
  unfolding gather found count_ok
  gather_lem s i [] g t = ground (arith, append-nil g.shards)
  gather_lem s i (d ∷ c) g (inl (h, e, l), t) =
      rw (e, gather_lem s (i + 1) c (add_valid g d h) t)
        (ground (
          arith,
          l,
          append_assoc g.shards (d ∷ []) (found st id idx s (length c) (i + 1)),
          count_ok-le st id idx s (length c) (i + 1),
        ))
  gather_lem s i (d ∷ c) g (inr (x, e, l), t) =
      rw (e, l, gather_lem s (i + 1) c (add_lost g) t)
        (ground (
          arith,
          append_assoc g.shards ([] ∷ []) (found st id idx s (length c) (i + 1)),
          count_ok-le st id idx s (length c) (i + 1),
        ))

  pub found-Survives :
      (s : S) (i : ℕ) (c : List Bytes)
      → IntactOrGone st id idx n s i c
      → Survives c (found st id idx s (length c) i)
  unfolding found
  found-Survives s i [] t = tt
  found-Survives s i (d ∷ c) (inl (h, e, l), t) = rw e (inl refl, found-Survives s (i + 1) c t)
  found-Survives s i (d ∷ c) (inr (x, e, l), t) = rw e (inr refl, found-Survives s (i + 1) c t)

  pub present-found :
      (s : S) (i size : ℕ) (c : List Bytes)
      → 1 ≤ size
      → All (λ d. length d ≡ size) c
      → IntactOrGone st id idx n s i c
      → present (found st id idx s (length c) i) ≡ count_ok st id idx s (length c) i
  unfolding found present count_ok
  present-found s i size [] hs w t = refl
  present-found s i size (d ∷ c) hs (hd, w) (inl (h, e, l), t) =
      rw e (ground (arith, present-found s (i + 1) size c hs w t))
  present-found s i size (d ∷ c) hs (hd, w) (inr (x, e, l), t) =
      rw e (present-found s (i + 1) size c hs w t)

  -- Where nothing is lost, every shard is found as it was stored.
  pub found_all :
      (s : S) (i : ℕ) (c : List Bytes)
      → IntactOrGone st id idx n s i c
      → count_ok st id idx s (length c) i ≡ length c
      → found st id idx s (length c) i ≡ c
  unfolding found count_ok
  found_all s i [] t h = refl
  found_all s i (d ∷ c) (inl (hd, e, l), t) h =
      rw e (ap (λ r. d ∷ r) (found_all s (i + 1) c t (ground arith)))
  found_all s i (d ∷ c) (inr (x, e, l), t) h =
      absurd (ground (arith, count_ok-le st id idx s (length c) (i + 1)))
