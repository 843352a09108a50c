-- ===== src/Storage/Recovery/Writing.antt =====
-- `PutObject` stores every stripe, writes the marker, and changes nothing else.
use shardstore.Common.{ℕ, zero, suc, ◌+◌, ◌-◌, ◌^◌, ◌≤◌, ◌<◌, ◌≡◌, refl, ap, ◌∙◌, arith, false}
use shardstore.Common.{
  ◌==◌, Bytes, List, [], ◌∷◌, ◌++◌, length, concat, if◌then◌else◌, ltb, length-append,
}
use shardstore.Errors.{ok, and_then}
use shardstore.Reader.{read_full-append}
use shardstore.Ec.{Encoder}
use shardstore.Ec.ReedSolomon.{IsErasureCode}
use shardstore.Storage.Header.{ShardKey}
use shardstore.Storage.ShardStore.{ShardStore, IsShardStore}
use shardstore.Storage.Object.{ObjectStore, key_of, put_stripe, put_loop, wrap_32}
use shardstore.Storage.Recovery.Shards.{AllIntact}
use shardstore.Storage.Recovery.Stripes.{IsChunked}
use shardstore.Storage.Recovery.Storing.{ChangesOnly, IsStored, put_stripe_lem}
use mathlib.Core.List.{append_assoc}
use native.Mathlib.Nat.{add-zero}

-- A stripe from number `lo` on, one of `n`.
abbrev pub InStripes : Bytes → ℕ → ℕ → ShardKey → Type 0
InStripes id lo n j = (j.object_id ≡ id) × (lo ≤ j.stripe_idx) × (j.stripe_idx < lo + n)

-- What the first round takes, and what it leaves to the others.
first_round :
    (size : ℕ) (x : Bytes) (xs : List Bytes)
    → IsChunked size (x ∷ xs)
    → (1 ≤ length x)
      × ((if ltb (length x + length (concat xs)) size then length x + length (concat xs) else size)
          ≡ length x)
      × IsChunked size xs
first_round size x [] w = (w.0, ground arith, tt)
first_round size x (y ∷ []) w = (w.0, ground (arith, length-append y []), w.2)
first_round size x (y ∷ z ∷ ys) w = (w.0, ground (arith, length-append y (z ++ concat ys)), w.2)

module _ {S : Type 0} (st : ShardStore S) (id : Bytes) (idx n : ℕ) where
  AllIntact-congr :
      (s s' : S) (i : ℕ) (c : List Bytes)
      → ((j : ℕ) → st.get_shard s' (key_of id idx j) ≡ st.get_shard s (key_of id idx j))
      → AllIntact st id idx n s i c
      → AllIntact st id idx n s' i c
  AllIntact-congr s s' i [] same t = tt
  AllIntact-congr s s' i (d ∷ c) same ((h, e, l), t) =
      ((h, same i ∙ e, l), AllIntact-congr s s' (i + 1) c same t)

module _ {S : Type 0} (sha256 : Bytes → Bytes) (st : ShardStore S) (law : IsShardStore sha256 st)
    (k m : ℕ) (e : Encoder) (code : IsErasureCode k m e.enc) (hk : 1 ≤ k)
    (small : k + m ≤ 256) where
  abbrev pub Stored : S → Bytes → ℕ → Bytes → Type 0
  Stored s id idx x = IsStored sha256 st law k m e code hk small s id idx x

  abbrev pub AllStored : S → Bytes → ℕ → List Bytes → Type 0
  AllStored s id idx [] = Unit
  AllStored s id idx (x ∷ xs) = Stored s id idx x × AllStored s id (idx + 1) xs

  Stored-ChangesOnly :
      {P : ShardKey → Type 0} (s s' : S) (id : Bytes) (idx : ℕ) (x : Bytes)
      → ChangesOnly st P s s'
      → ((i : ℕ) → ¬ P (key_of id idx i))
      → Stored s id idx x
      → Stored s' id idx x
  Stored-ChangesOnly s s' id idx x only out w = record {
    nonempty = w.nonempty;
    codeword = w.codeword;
    is_codeword = w.is_codeword;
    shards =
        AllIntact-congr st id idx (length x) s s' 0 w.codeword
          (λ i. only.shards (key_of id idx i) (out i)) w.shards;
  }

  -- The stripes stay stored where every shard of the object stays.
  pub AllStored-congr :
      (s s' : S) (id : Bytes) (idx : ℕ) (xs : List Bytes)
      → ((j : ShardKey) → st.get_shard s' j ≡ st.get_shard s j)
      → AllStored s id idx xs
      → AllStored s' id idx xs
  AllStored-congr s s' id idx [] same t = tt
  AllStored-congr s s' id idx (x ∷ xs) same (w, t) = (
    record {
      nonempty = w.nonempty;
      codeword = w.codeword;
      is_codeword = w.is_codeword;
      shards =
          AllIntact-congr st id idx (length x) s s' 0 w.codeword (λ i. same (key_of id idx i))
            w.shards;
    },
    AllStored-congr s s' id (idx + 1) xs same t,
  )

  module _ (o : ObjectStore) (id : Bytes) where
    -- One round of the loop: the first stripe of the input is stored.
    put_loop_round :
        (fuel : ℕ) (s s' : S) (x more : Bytes) (idx left : ℕ)
        → 1 ≤ length x
        → (if ltb (length x + left) o.stripe_size then length x + left else o.stripe_size)
          ≡ length x
        → put_stripe st o e id idx x s ≡ (ok tt, s')
        → put_loop st (suc fuel) o e id (x ++ more) idx (length x + left) s
          ≡ put_loop st fuel o e id more (wrap_32 (idx + 1)) left s'
    unfolding put_loop
    put_loop_round fuel s s' x more idx left hx hn done =
        let going : (length x + left == 0) ≡ false = ground arith in
        let left_over : length x + left - length x ≡ left = omega arith in
        rw (going, hn, read_full-append (length x) x more refl, left_over)
          (ap (λ t. and_then t (λ _ s'. put_loop st fuel o e id more (wrap_32 (idx + 1)) left s'))
            done)

    put_loop_end :
        (fuel : ℕ) (s : S) (r : Bytes) (idx : ℕ) → put_loop st fuel o e id r idx 0 s ≡ (ok idx, s)
    unfolding put_loop
    put_loop_end zero s r idx = refl
    put_loop_end (suc fuel) s r idx = refl

    pub put_loop_lem :
        (fuel : ℕ) (s : S) (xs : List Bytes) (rest : Bytes) (idx : ℕ)
        → IsChunked o.stripe_size xs
        → length xs ≤ fuel
        → idx + length xs < 2 ^ 32
        → (s' : S) × (put_loop st fuel o e id (concat xs ++ rest) idx (length (concat xs)) s
            ≡ (ok (idx + length xs), s'))
          × AllStored s' id idx xs
          × ChangesOnly st (InStripes id idx (length xs)) s s'
    put_loop_lem fuel s [] rest idx w hf hb = (
      s,
      put_loop_end fuel s rest idx ∙ rw add-zero,
      tt,
      record { shards = λ j out. refl; markers = λ id. refl },
    )
    put_loop_lem zero s (x ∷ xs) rest idx w hf hb = absurd (omega arith)
    put_loop_lem (suc fuel) s (x ∷ xs) rest idx w hf hb =
        let (hx, hn, later) = first_round o.stripe_size x xs w in
        let (s₁, done, stored, only) =
          put_stripe_lem sha256 st law k m e code hk small o s id idx x hx in
        let (s₂, looped, stored', only') =
          put_loop_lem fuel s₁ xs rest (idx + 1) later (omega arith) (omega arith) in
        let next : wrap_32 (idx + 1) ≡ idx + 1 = omega arith in
        let count : idx + 1 + length xs ≡ idx + suc (length xs) = omega arith in
        (
          s₂,
          rw (append_assoc x (concat xs) rest, length-append x (concat xs))
              (put_loop_round fuel s s₁ x (concat xs ++ rest) idx (length (concat xs)) hx hn done
                ∙ rw (next, looped, count)),
          (
            Stored-ChangesOnly s₁ s₂ id idx x only' (λ i h. absurd (omega (arith, h.1))) stored,
            stored',
          ),
          record {
            shards = λ j out.
                only'.shards j (λ h. out (h.0, omega (arith, h.1), omega (arith, h.2)))
                ∙ only.shards j (λ h. out (h.0, omega (arith, h.1), omega (arith, h.1)));
            markers = λ id'. only'.markers id' ∙ only.markers id';
          },
        )
