-- ===== src/Ec/Laws.antt =====
-- What an encoder does over an engine that keeps its documentation.
use shardstore.Common.{ℕ, ◌+◌, ◌-◌, ◌*◌, ◌/◌, ◌≤◌, ◌≡◌, refl, arith, ◌==◌}
use shardstore.Common.{pos, true, false, Bytes, List, [], ◌∷◌, inl, inr}
use shardstore.Common.{length, take, concat, replicate, Bool-cases}
use shardstore.Common.{drop_all, length-replicate}
use mathlib.Core.List.{append-nil}
use shardstore.Errors.{ok}
use shardstore.Ec.ReedSolomon.{Engine, HasShape, Survives, present, IsErasureCode}
use shardstore.Ec.{Encoder, encode, all_empty, reconstruct, verify, join}
use native.Mathlib.Nat.{div-add-mod}

-- The bytes of the shards of one stripe, rounded up.
abbrev pub shard_size : ℕ → ℕ → ℕ
shard_size n k = (n + k - 1) / k

pub shard_size_bounds : (n k : ℕ) → 1 ≤ n → 1 ≤ k → (1 ≤ shard_size n k) × (n ≤ k * shard_size n k)
shard_size_bounds n k hn hk = grind (arith, div-add-mod (n + k - 1) k)

-- The codeword of a stripe: what `Encode` returns, as far as its readers see.
pub record IsCodeword (k m : ℕ) (e : Engine) (stripe : Bytes) (c : List Bytes) : Type 0 where
  pub shape : HasShape (k + m) (shard_size (length stripe) k) c
  pub data_front : take (length stripe) (concat (take k c)) ≡ stripe
  pub consistent : e.verify c ≡ ok true

all_empty-present : (shards : List Bytes) → all_empty shards ≡ true → present shards ≡ 0
unfolding all_empty present
all_empty-present [] h = refl
all_empty-present (s ∷ shards) h = ground (arith, all_empty-present shards)

module _ (k m : ℕ) (e : Encoder) (law : IsErasureCode k m e.enc) (hk : 1 ≤ k) (stripe : Bytes)
    (hn : 1 ≤ length stripe) where
  pub encode_lem : (c : List Bytes) × (encode e stripe ≡ ok c) × IsCodeword k m e.enc stripe c
  unfolding encode
  encode_lem =
      let (c, split, shape, front) = law.split_lem stripe hn in
      let (c', encoded, shape', keeps, verified) =
        law.encode_lem (shard_size (length stripe) k) c
          (shard_size_bounds (length stripe) k hn hk).0 shape in
      let nonempty : (length stripe == 0) ≡ false = ground arith in
      (
        c',
        rw (nonempty, split, encoded),
        record { shape = shape'; data_front = rw keeps front; consistent = verified },
      )

  pub reconstruct_lem :
      (c shards : List Bytes)
      → IsCodeword k m e.enc stripe c
      → Survives c shards
      → k ≤ present shards
      → reconstruct e shards ≡ ok c
  unfolding reconstruct
  reconstruct_lem c shards w s h = elim (Bool-cases (all_empty shards)) [
    | inl empty ↦ absurd (omega (arith, all_empty-present shards empty))
    | inr some_left ↦ rw (
      some_left,
      law.reconstruct_lem (shard_size (length stripe) k) c shards
          (shard_size_bounds (length stripe) k hn hk).0 w.shape w.consistent s h,
    )
  ]

  pub join_lem :
      (c : List Bytes)
      → IsCodeword k m e.enc stripe c
      → join e (replicate (length stripe) 0) c (pos (length stripe)) ≡ ok stripe
  unfolding join
  join_lem c w = rw (
    law.join_lem (shard_size (length stripe) k) (length stripe) c w.shape
        (shard_size_bounds (length stripe) k hn hk).1,
    w.data_front,
    drop_all {A = ℕ} (length stripe) (replicate (length stripe) 0)
        (omega (arith, length-replicate {A = ℕ} (length stripe) 0)),
    append-nil,
  )

-- Over an engine that keeps its documentation, a non-empty stripe is encoded into k + m shards of
-- equal size, the stripe's length over k rounded up, which are a codeword of the stripe.
pub encode-HasShape :
    (k m : ℕ) (e : Encoder) (stripe : Bytes)
    → IsErasureCode k m e.enc
    → 1 ≤ k
    → 1 ≤ length stripe
    → (c : List Bytes) × (encode e stripe ≡ ok c)
      × HasShape (k + m) (shard_size (length stripe) k) c
      × (verify e c ≡ ok true)
unfolding verify
encode-HasShape k m e stripe law hk hn =
    let (c, encoded, w) = encode_lem k m e law hk stripe hn in
    (c, encoded, w.shape, rw (w.consistent) refl)

-- Over an engine that keeps its documentation, let `c` be what `Encode` returns for a non-empty
-- stripe, and let some shards of `c` be lost, such that k of them are left. Then `Reconstruct` gives `c` back, and
-- `Join` of what it gives is the stripe.
pub join-reconstruct-encode :
    (k m : ℕ) (e : Encoder) (stripe : Bytes) (c shards : List Bytes)
    → IsErasureCode k m e.enc
    → 1 ≤ k
    → 1 ≤ length stripe
    → encode e stripe ≡ ok c
    → Survives c shards
    → k ≤ present shards
    → (reconstruct e shards ≡ ok c)
      × (join e (replicate (length stripe) 0) c (pos (length stripe)) ≡ ok stripe)
join-reconstruct-encode k m e stripe c shards law hk hn encoded s h =
    let (c', encoded', w') = encode_lem k m e law hk stripe hn in
    let same : c' ≡ c = cc (encoded', encoded) in
    let w : IsCodeword k m e.enc stripe c = rw same at w' in
    (reconstruct_lem k m e law hk stripe hn c shards w s h, join_lem k m e law hk stripe hn c w)

-- A shard of at least one byte is no longer than its stripe.
pub shard_size-le : (n k : ℕ) → 1 ≤ n → 1 ≤ k → shard_size n k ≤ n
shard_size-le n k hn hk = grind (arith, div-add-mod (n + k - 1) k)
