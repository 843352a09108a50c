-- ===== src/Storage/File/Torn.antt =====
-- A crash in the middle of `FileStore.PutShard`, which writes the file in place: `os.Create`, the header,
-- the payload. `GetShard` and `loadStripe` of the shard that it leaves.
use shardstore.Common.{
  ◌≢◌, pos_part, ℕ, zero, suc, ◌+◌, ◌-◌, ◌<◌, ◌≤◌, ◌≡◌, refl, ap, ◌∙◌, arith, Bytes, [], ◌∷◌, ◌++◌,
  length, take, length-append, length-take, ◌==◌, false, Bool-cases, inl, inr, pos, leb,
}
use shardstore.Common.Assoc.{insert, lookup-insert, beq_refl}
use shardstore.Errors.{
  Result-cases, Error, ok, err, wrap, message, is_shard_not_found, is_corrupt_shard,
}
use shardstore.Storage.Header.{ShardKey, ShardHeader, encode_shard_header, decode_shard_header}
use shardstore.Storage.Header.RoundTrip.{IsEncodable, decode-encode_shard_header}
use shardstore.Storage.Header.Prefix.{take_short, decode-take}
use shardstore.Storage.File.Undecodable.{decode_shard_header-GivesOther}
use shardstore.Storage.ShardStore.{ShardStore}
use shardstore.Storage.Object.{
  is_lost, key_of, shard_count, add_valid, add_lost, gather, load_stripe, ObjectReader, Gathered,
}
use shardstore.Storage.File.{FileStore, path_eq, decode_shard, get_shard, shard_path, file_store}

-- The store after a crash that left the first `n` bytes of the shard's file.
abbrev pub torn_put : (Bytes → Bytes) → FileStore → ShardKey → Bytes → Bytes → ℕ → FileStore
torn_put sha256 s k header d n = record s {
  files = insert (shard_path sha256 k) (take n (header ++ d)) s.files;
}

take_long :
    (n : ℕ) (xs ys : Bytes) → length xs ≤ n → take n (xs ++ ys) ≡ xs ++ take (n - length xs) ys
take_long n [] ys h = ap (λ m. take m ys) (omega arith)
take_long zero (x ∷ xs) ys h = absurd (omega (arith, h))
take_long (suc n) (x ∷ xs) ys h =
    let less : n - length xs ≡ suc n - suc (length xs) = omega arith in
    ap (λ t. x ∷ t) (take_long n xs ys (omega (arith, h)) ∙ ap (λ m. xs ++ take m ys) less)

-- The header is cut off.
decode-torn_header :
    (sha256 : Bytes → Bytes) (content : Bytes) (e : Error)
    → decode_shard_header content ≡ err e
    → (x : Error) × ((decode_shard sha256 content ≡ err x) × (is_lost x ≡ false))
unfolding decode_shard is_lost is_shard_not_found is_corrupt_shard
decode-torn_header sha256 content e h =
    let other = decode_shard_header-GivesOther content e h in
    (wrap "storage: decode header" e, (rw h refl, ground (arith, other)))

-- The payload is cut off.
decode-torn_payload :
    (sha256 : Bytes → Bytes) (h : ShardHeader) (content r : Bytes) (m : ℕ)
    → decode_shard_header content ≡ ok (h, r)
    → h.data_len ≡ pos m
    → length r < m
    → (x : Error) × ((decode_shard sha256 content ≡ err x) × (is_lost x ≡ false))
unfolding decode_shard is_lost is_shard_not_found is_corrupt_shard
decode-torn_payload sha256 h content r m read len short =
    let differ : (m == length (take m r)) ≡ false = ground (arith, length-take m r) in
    (message "storage: short payload", (rw (read, len, differ) refl, refl))

module _ (sha256 : Bytes → Bytes) (h : ShardHeader) (d : Bytes)
    (w : IsEncodable (record h { checksum = sha256 d })) (len : h.data_len ≡ pos (length d)) where
  full : ShardHeader
  full = record h { checksum = sha256 d }

  decode-torn :
      (header : Bytes) (n : ℕ)
      → encode_shard_header (record h { checksum = sha256 d }) ≡ ok header
      → n < length (header ++ d)
      → (x : Error) × ((decode_shard sha256 (take n (header ++ d)) ≡ err x) × (is_lost x ≡ false))
  decode-torn header n encoded lt = elim (Bool-cases (leb (length header) n)) [
    | inr cut ↦
        let less : n < length header = ground (arith, cut) in
        let (e, refused) = decode-take (record h { checksum = sha256 d }) header n w encoded less in
        decode-torn_header sha256 (take n (header ++ d)) e
          (rw (take_short n header d (omega (arith, less))) refused)
    | inl whole ↦
        let more : length header ≤ n = ground (arith, whole) in
        let m = n - length header in
        let (cs, encoded', decoded) =
          decode-encode_shard_header (record h { checksum = sha256 d }) (take m d) w in
        let same : cs ≡ header = ground (arith, encoded, encoded') in
        let read : decode_shard_header (take n (header ++ d))
            ≡ ok (record h { checksum = sha256 d }, take m d) =
          rw (take_long n header d more) (rw same at decoded) in
        let short : length (take m d) < length d =
          omega (arith, length-take m d, length-append header d, lt, more) in
        decode-torn_payload sha256 (record h { checksum = sha256 d }) (take n (header ++ d))
          (take m d) (length d) read len short
  ]

  -- A PutShard of a header and a payload that a crash cuts short, so that the file holds any proper
  -- prefix of what is to be written, leaves a shard for which GetShard returns an error that is neither
  -- ErrShardNotFound nor ErrCorruptShard: the shard does not count as lost.
  pub get_shard-torn_put :
      (s : FileStore) (k : ShardKey) (header : Bytes) (n : ℕ)
      → encode_shard_header (record h { checksum = sha256 d }) ≡ ok header
      → n < length (header ++ d)
      → (x : Error) × ((get_shard sha256 (torn_put sha256 s k header d n) k ≡ err x)
          × (is_lost x ≡ false))
  unfolding get_shard
  get_shard-torn_put s k header n encoded lt =
      rw
        (
          lookup-insert (shard_path sha256 k) (shard_path sha256 k) (take n (header ++ d)) s.files,
          beq_refl (shard_path sha256 k),
        )
        (decode-torn header n encoded lt)

-- A shard whose error does not count it as lost fails the stripe, whatever the other shards are.
gather_fails :
    {S : Type 0} (st : ShardStore S) (id : Bytes) (idx : ℕ) (s : S) (j : ℕ) (x : Error)
    → st.get_shard s (key_of id idx j) ≡ err x
    → is_lost x ≡ false
    → (rounds i : ℕ) (g : Gathered) → i ≤ j
    → j < i + rounds
    → (e : Error) × (gather st id idx rounds i g s ≡ err e)
unfolding gather
gather_fails st id idx s j x got other zero i g le lt = absurd (omega (arith, le, lt))
gather_fails st id idx s j x got other (suc rounds) i g le lt =
    elim (Result-cases (st.get_shard s (key_of id idx i))) [
      | inl ((d, h), here) ↦
          let differ : i ≢ j = λ same. ground (arith, here, got, same) in
          let (e, fails) =
            gather_fails st id idx s j x got other rounds (i + 1) (add_valid g d h)
              (omega (arith, le, differ)) (omega (arith, lt)) in
          (e, rw (gather, here) fails)
      | inr (y, here) ↦ elim (Bool-cases (is_lost y)) [
        | inr stops ↦ (y, rw (gather, here, stops) refl)
        | inl lost ↦
            let differ : i ≢ j = λ same. ground (arith, here, got, same, lost, other) in
            let (e, fails) =
              gather_fails st id idx s j x got other rounds (i + 1) (add_lost g)
                (omega (arith, le, differ)) (omega (arith, lt)) in
            (e, rw (gather, here, lost) fails)
      ]
    ]

load_stripe-other :
    {S : Type 0} (st : ShardStore S) (s : S) (r : ObjectReader) (j : ℕ) (x : Error)
    → j < pos_part (shard_count r.params)
    → st.get_shard s (key_of r.object_id r.stripe_idx j) ≡ err x
    → is_lost x ≡ false
    → (e : Error) × (load_stripe st s r ≡ err e)
unfolding load_stripe
load_stripe-other st s r j x lt got other =
    let start : Gathered = record { shards = []; stripe_len = pos 0; valid = 0; lost = 0 } in
    let (e, fails) =
      gather_fails st r.object_id r.stripe_idx s j x got other (pos_part (shard_count r.params)) 0
        start (omega arith) (omega (arith, lt)) in
    (e, rw fails refl)

-- A PutShard of one shard of a stripe that a crash cuts short, so that its file holds any proper prefix of
-- what is to be written, makes loadStripe fail, however many other shards of the stripe are good.
pub load_stripe-torn_put :
    (sha256 : Bytes → Bytes) (s : FileStore) (r : ObjectReader) (j : ℕ) (h : ShardHeader)
    (d header : Bytes) (n : ℕ)
    → IsEncodable (record h { checksum = sha256 d })
    → h.data_len ≡ pos (length d)
    → encode_shard_header (record h { checksum = sha256 d }) ≡ ok header
    → n < length (header ++ d)
    → j < pos_part (shard_count r.params)
    → (e : Error) × (load_stripe
          (file_store sha256)
          (torn_put sha256 s (key_of r.object_id r.stripe_idx j) header d n)
          r
        ≡ err e)
load_stripe-torn_put sha256 s r j h d header n w len encoded lt small =
    let (x, (got, other)) =
      get_shard-torn_put sha256 h d w len s (key_of r.object_id r.stripe_idx j) header n encoded
        lt in
    load_stripe-other (file_store sha256) _ r j x small got other
