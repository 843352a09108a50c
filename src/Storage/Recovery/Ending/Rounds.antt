-- ===== src/Storage/Recovery/Ending/Rounds.antt =====
-- One round of `io.ReadAll` on the reader of an object.
use shardstore.Common.{
  ℕ, zero, suc, ◌+◌, ◌^◌, ◌≤◌, ◌<◌, ◌≡◌, refl, arith, true, false, inl, inr, Bool-cases, ◌⊎◌,
}
use shardstore.Common.{◌==◌, leb, Bytes, [], ◌++◌, length, take, drop, length-take, length-drop}
use shardstore.Errors.{Error, ok, err}
use shardstore.Storage.ShardStore.{ShardStore}
use shardstore.Storage.Object.{ObjectReader, wrap_32, read, read_buffered, read_all}
use shardstore.Storage.Recovery.Termination.{ends}
use shardstore.Storage.Recovery.Ending.Errors.{ends-after_read}

-- A reader between two stripes, or with some of a stripe in its buffer.
pub record Fresh (r : ObjectReader) : Type 0 where
  pub total : r.total_stripes < 2 ^ 32
  pub used : r.off ≡ length r.buf

pub record Within (r : ObjectReader) : Type 0 where
  pub total : r.total_stripes < 2 ^ 32
  pub more : r.stripe_idx < r.total_stripes
  pub inside : r.off < length r.buf

-- A call that takes some of the buffer gives at least one byte, and leaves some or goes on to the next stripe.
unfoldable pub Taken : ObjectReader → ObjectReader → Type 0
Taken r r' =
    (r'.total_stripes ≡ r.total_stripes)
    × (((r'.stripe_idx ≡ r.stripe_idx + 1) × (r'.off ≡ length r'.buf))
        ⊎ ((r'.stripe_idx ≡ r.stripe_idx)
            × (r.off < r'.off)
            × (r'.off < length r'.buf)
            × (r'.buf ≡ r.buf)))

pub read_buffered-Taken :
    (r : ObjectReader) (n : ℕ)
    → 1 ≤ n
    → Within r
    → (bs : Bytes) × (r' : ObjectReader) × (read_buffered r n ≡ (ok bs, r'))
      × (1 ≤ length bs)
      × Taken r r'
unfolding read_buffered Taken
read_buffered-Taken r n hn w =
    let bs = take n (drop r.off r.buf) in
    let some : (1 ≤ length bs) × (r.off + length bs ≤ length r.buf) = (
      omega (arith, w.inside, length-take n (drop r.off r.buf), length-drop r.off r.buf),
      omega (arith, w.inside, length-take n (drop r.off r.buf), length-drop r.off r.buf),
    ) in
    elim (Bool-cases (r.off + length bs == length r.buf)) [
      | inl done ↦ (
        bs,
        record r { stripe_idx = wrap_32 (r.stripe_idx + 1); buf = []; off = 0 },
        rw done refl,
        some.0,
        (refl, inl (omega (arith, w.more, w.total), refl)),
      )
      | inr left ↦ (
        bs,
        record r { off = r.off + length bs },
        rw left refl,
        some.0,
        (refl, inr (refl, omega (arith, some), ground (arith, some, left), refl)),
      )
    ]

module _ {S : Type 0} (st : ShardStore S) (s : S) (sizes : ℕ → ℕ) where
  -- After some number of rounds, and after any larger one, the loop has come to its end.
  abbrev pub Ends : ℕ → ObjectReader → Bytes → Type 0
  Ends i r out = (fuel : ℕ) × ((f : ℕ) → fuel ≤ f → ends (read_all st sizes f i s r out).1 ≡ true)

  pub Ends-err :
      (i : ℕ) (r r' : ObjectReader) (out : Bytes) (e : Error)
      → read st s r (sizes i) ≡ (err e, r')
      → ends {A = Bytes} (err e) ≡ true
      → Ends i r out
  unfolding read_all
  Ends-err i r r' out e stops h = (1, rounds)
    where
      rounds : (f : ℕ) → 1 ≤ f → ends (read_all st sizes f i s r out).1 ≡ true
      rounds zero le = absurd (omega arith)
      rounds (suc f) le = rw (read_all, stops) (ends-after_read out e r' _ h)

  pub Ends-ok :
      (i : ℕ) (r r' : ObjectReader) (out bs : Bytes)
      → read st s r (sizes i) ≡ (ok bs, r')
      → Ends (i + 1) r' (out ++ bs)
      → Ends i r out
  unfolding read_all
  Ends-ok i r r' out bs e (fuel, h) = (fuel + 1, rounds)
    where
      rounds : (f : ℕ) → fuel + 1 ≤ f → ends (read_all st sizes f i s r out).1 ≡ true
      rounds zero le = absurd (omega arith)
      rounds (suc f) le = rw (read_all, e) (h f (omega arith))

  pub read-Within : (r : ObjectReader) (n : ℕ) → Within r → read st s r n ≡ read_buffered r n
  unfolding read
  read-Within r n w =
      let going : leb r.total_stripes r.stripe_idx ≡ false = ground (arith, w.more) in
      let left : (r.off == length r.buf) ≡ false = ground (arith, w.inside) in rw (going, left) refl
