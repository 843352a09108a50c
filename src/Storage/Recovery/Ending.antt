-- ===== src/Storage/Recovery/Ending.antt =====
-- `io.ReadAll` over the reader of `GetObject` comes to its end.
pub mod Errors
pub mod Rounds
use shardstore.Common.{
  ℕ, zero, suc, ◌+◌, ◌-◌, ◌^◌, ◌≤◌, ◌<◌, ◌≡◌, refl, sym, ap, ◌∙◌, arith, Bool, true, false, inl,
  inr, Bool-cases, le_or_lt, ◌⊎◌, if◌then◌else◌,
}
use shardstore.Common.{
  ◌==◌, leb, ltb, ltb_ℤ, Bytes, List, [], ◌∷◌, ◌++◌, length, ℤ, pos, pos_part, take, drop,
  length-take, length-drop,
}
use shardstore.Errors.{
  Error, Result, ok, err, eof, shard_not_found, corrupt_shard, object_not_found, unrecoverable,
  out_of_fuel, panic, message, wrap, Result-cases, ◌>>=◌, wrap_err,
}
use shardstore.Ec.ReedSolomon.{Engine}
use shardstore.Ec.{Encoder, reconstruct}
use shardstore.Storage.Header.{ShardKey}
use shardstore.Storage.ShardStore.{ShardStore}
use shardstore.Storage.Object.{
  ObjectStore, ObjectReader, Gathered, Body, object_reader, empty_reader, EcParams, key_of, is_lost,
  wrap_32, gather, load_stripe, read, read_buffered, read_all, read_body, get_object, restore,
  after_read, add_valid, add_lost, shard_count,
}
use shardstore.Storage.Recovery.Termination.{ends, ends-wrap_err}
use shardstore.Storage.Recovery.Body.{IsBodyOf, get_object-IsBodyOf}
use shardstore.Storage.Recovery.Ending.Errors.{ends-load_stripe}
use shardstore.Storage.Recovery.Ending.Rounds.{
  Fresh, Within, Taken, read_buffered-Taken, Ends, Ends-err, Ends-ok, read-Within,
}

module _ {S : Type 0} (st : ShardStore S) (s : S)
    (reads : (k : ShardKey) → ends (st.get_shard s k) ≡ true) where
  module _ (sizes : ℕ → ℕ) (some_room : (i : ℕ) → 1 ≤ sizes i) where
    -- What is to be shown of the next stripe, and of the rest of this one.
    abbrev Next : ObjectReader → Type 0
    Next r =
        (i : ℕ) (r' : ObjectReader) (out : Bytes)
        → Fresh r'
        → r'.stripe_idx ≡ r.stripe_idx + 1
        → r'.total_stripes ≡ r.total_stripes
        → Ends st s sizes i r' out

    abbrev Rest : ObjectReader → Type 0
    Rest r =
        (i : ℕ) (r' : ObjectReader) (out : Bytes)
        → Within r'
        → length r'.buf - r'.off < length r.buf - r.off
        → Next r'
        → Ends st s sizes i r' out

    Ends-step :
        (i : ℕ) (r r₁ : ObjectReader) (out : Bytes)
        → Within r₁
        → read st s r (sizes i) ≡ read_buffered r₁ (sizes i)
        → Rest r₁
        → Next r₁
        → Ends st s sizes i r out
    unfolding Taken
    Ends-step i r r₁ out w reading rest next =
        let (bs, r', taken, some, (total, moved)) =
          read_buffered-Taken r₁ (sizes i) (some_room i) w in
        Ends-ok st s sizes i r r' out bs (reading ∙ taken) (elim moved [
          | inl (idx, used) ↦
              next (i + 1) r' (out ++ bs)
                (record { total = omega (arith, total, w.total); used = used }) idx total
          | inr (idx, further, inside, buf) ↦
              let len : length r'.buf ≡ length r₁.buf = ap (λ (t : Bytes). length t) buf in
              rest (i + 1) r' (out ++ bs)
                (record {
                  total = omega (arith, total, w.total);
                  more = omega (arith, idx, total, w.more);
                  inside = inside;
                })
                (omega (arith, len, further, inside, w.inside))
                λ i'' r'' out'' f e t. next i'' r'' out'' f (omega (arith, e, idx)) (t ∙ total)
        ])

    -- Through the rest of the stripe, if it ends from the next one.
    Ends-Within : (b : ℕ) (r₁ : ObjectReader) → length r₁.buf - r₁.off ≤ b → Rest r₁
    Ends-Within zero r₁ h i r out w less next = absurd (omega (arith, less))
    Ends-Within (suc b) r₁ h i r out w less next =
        Ends-step i r r out w (read-Within st s sizes r (sizes i) w)
          (Ends-Within b r (omega (arith, h, less))) next

    load_stripe_fields :
        (r r₁ : ObjectReader)
        → load_stripe st s r ≡ ok r₁
        → (r₁.total_stripes ≡ r.total_stripes) × (r₁.stripe_idx ≡ r.stripe_idx) × (r₁.off ≡ 0)
    unfolding load_stripe
    load_stripe_fields r r₁ loaded =
        helper
          (gather st r.object_id r.stripe_idx (pos_part (shard_count r.params)) 0
            (record { shards = []; stripe_len = pos 0; valid = 0; lost = 0 }) s)
          loaded
      where
        restored :
            (x : Result Bytes)
            → (x >>= λ out. ok (record r { buf = out; off = 0 })) ≡ ok r₁
            → (r₁.total_stripes ≡ r.total_stripes) × (r₁.stripe_idx ≡ r.stripe_idx) × (r₁.off ≡ 0)
        restored (ok out) e =
            let same : record r { buf = out; off = 0 } ≡ r₁ = cc e in
            rw (sym same) (refl, refl, refl)
        restored (err x) e = absurd (cc e)

        helper :
            (x : Result Gathered)
            → (x >>= λ g. restore r.enc r.params g >>= λ out. ok (record r { buf = out; off = 0 }))
              ≡ ok r₁
            → (r₁.total_stripes ≡ r.total_stripes) × (r₁.stripe_idx ≡ r.stripe_idx) × (r₁.off ≡ 0)
        helper (ok g) e = restored (restore r.enc r.params g) e
        helper (err x) e = absurd (cc e)

    -- From between two stripes, of which there is a next one.
    Ends-Next :
        (i : ℕ) (r : ObjectReader) (out : Bytes)
        → Fresh r
        → r.stripe_idx < r.total_stripes
        → Next r
        → Ends st s sizes i r out
    unfolding read
    Ends-Next i r out f more next =
        let going : leb r.total_stripes r.stripe_idx ≡ false = ground (arith, more) in
        let used : (r.off == length r.buf) ≡ true = ground (arith, f.used) in
        elim (Result-cases (load_stripe st s r)) [
          | inr (e, fails) ↦
              Ends-err st s sizes i r r out e (rw (read, going, used, fails) refl)
                (rw fails at (ends-load_stripe st s reads r))
          | inl (r₁, loaded) ↦ elim (Bool-cases (length r₁.buf == 0)) [
            | inl none ↦
                Ends-err st s sizes i r (record r₁ { stripe_idx = wrap_32 (r₁.stripe_idx + 1) }) out
                  eof (rw (read, going, used, loaded, none) refl) refl
            | inr some ↦
                let (total, idx, start) = load_stripe_fields r r₁ loaded in
                Ends-step i r r₁ out
                  (record {
                    total = omega (arith, total, f.total);
                    more = omega (arith, total, idx, more);
                    inside = ground (arith, start, some);
                  })
                  (rw (read, going, used, loaded, some) refl)
                  (Ends-Within (length r₁.buf) r₁ (omega arith))
                  λ i' r' out' f' e t. next i' r' out' f' (omega (arith, e, idx)) (t ∙ total)
          ]
        ]

    Ends-over :
        (i : ℕ) (r : ObjectReader) (out : Bytes)
        → r.total_stripes ≤ r.stripe_idx
        → Ends st s sizes i r out
    unfolding read
    Ends-over i r out over =
        let done : leb r.total_stripes r.stripe_idx ≡ true = ground (arith, over) in
        Ends-err st s sizes i r r out eof (rw (read, done) refl) refl

    Ends-Fresh :
        (a i : ℕ) (r : ObjectReader) (out : Bytes)
        → Fresh r
        → r.total_stripes - r.stripe_idx ≤ a
        → Ends st s sizes i r out
    Ends-Fresh zero i r out f h = Ends-over i r out (omega arith)
    Ends-Fresh (suc a) i r out f h = elim (le_or_lt r.total_stripes r.stripe_idx) [
      | inl over ↦ Ends-over i r out over
      | inr more ↦
          Ends-Next i r out f more
            λ i' r' out' f' e t. Ends-Fresh a i' r' out' f' (omega (arith, e, t, h))
    ]

    -- `io.ReadAll` of the reader that `GetObject` returned comes to its end, with an error or without one,
    -- whatever the store holds: there is a number of rounds, of calls of `Read` with slices of any
    -- positive sizes, such that with this and every larger number no round is missing, which would be told by the
    -- mark `out_of_fuel`. Which bytes are read is not said: where a header gives the length 0 to a stripe, they
    -- end in front of it without an error.
    pub ends-read_body :
        (new_engine : ℤ → ℤ → Result Engine) (o : ObjectStore) (id : Bytes) (body : Body) (n : ℤ)
        → get_object st new_engine o s id ≡ ok (body, n)
        → (fuel : ℕ) × ((f : ℕ) → fuel ≤ f → ends (read_body st sizes f s body).1 ≡ true)
    unfolding read_body
    ends-read_body new_engine o id body n got =
        helper body (get_object-IsBodyOf st id s new_engine o body n got)
      where
        helper :
            (b : Body)
            → IsBodyOf id b
            → (fuel : ℕ) × ((f : ℕ) → fuel ≤ f → ends (read_body st sizes f s b).1 ≡ true)
        helper empty_reader w = (0, λ f le. refl)
        helper (object_reader r) w =
            Ends-Fresh r.total_stripes 0 r [] (record { total = w.total; used = w.used })
              (omega arith)
