-- ===== src/Storage/Header/Canonical.antt =====
-- The byte strings that `decodeShardHeader` accepts.
use shardstore.Common.{
  ℕ, zero, suc, ◌<◌, ◌^◌, ◌≡◌, refl, sym, ap, ◌∙◌, arith, String, Bytes, [], ◌∷◌, ◌++◌, length,
  take, drop, All, IsByte, leb, ◌==◌, Bool, true, false, Bool-cases, inl, inr, if◌then◌else◌,
  length-take, take-append-drop, le_bytes, from_le, le_bytes-from_le, from_le-lt, InInt64, to_int64,
  to_uint64, to_uint64-to_int64, to_int64-InInt64, str_eq, str_eq_iff,
}
use mathlib.Core.List.{append_assoc}
use mathlib.Core.Path.{subst}
use shardstore.Errors.{Error, Result, ok, err, wrap_err, ◌>>=◌}
use shardstore.Reader.{read_full, read_uint}
use shardstore.Storage.Header.{
  ShardHeader, shard_magic, shard_ver, shard_header_bytes, decode_shard_header, decode_versioned,
  decode_header_fields,
}

All-take : (n : ℕ) (x : Bytes) → All IsByte x → All IsByte (take n x) × All IsByte (drop n x)
All-take zero x h = (tt, h)
All-take (suc n) [] h = (tt, tt)
All-take (suc n) (c ∷ x) (hc, h) = let (a, b) = All-take n x h in ((hc, a), b)

-- The bytes that a reader took, and those that it left.
record IsRead (x bs r : Bytes) (n : ℕ) : Type 0 where
  whole : x ≡ bs ++ r
  len : length bs ≡ n
  bytes : All IsByte bs
  rest : All IsByte r

read_full-IsRead :
    (n : ℕ) (x bs r : Bytes) → All IsByte x → read_full n x ≡ ok (bs, r) → IsRead x bs r n
unfolding read_full
read_full-IsRead n x bs r w h = elim (Bool-cases (leb n (length x))) [
  | inr over ↦ absurd (ground (arith, h, over))
  | inl fits ↦
      let front : take n x ≡ bs = ground (arith, h, fits) in
      let back : drop n x ≡ r = ground (arith, h, fits) in
      let (a, b) = All-take n x w in
      record {
        whole = sym (take-append-drop n x) ∙ cc (front, back);
        len = ap (λ (t : Bytes). length t) (sym front) ∙ ground (arith, length-take n x, fits);
        bytes = rw front at a;
        rest = rw back at b;
      }
]

-- A number that was read, in its bytes.
record IsNumber (x : Bytes) (w n : ℕ) (r : Bytes) : Type 0 where
  whole : x ≡ le_bytes w n ++ r
  small : n < 256 ^ w
  rest : All IsByte r

abbrev number : Bytes × Bytes → Result (ℕ × Bytes)
number (bs, rest) = ok (from_le bs, rest)

read_uint-IsNumber :
    (w : ℕ) (x : Bytes) (n : ℕ) (r : Bytes)
    → All IsByte x
    → read_uint w x ≡ ok (n, r)
    → IsNumber x w n r
unfolding read_uint
read_uint-IsNumber w x n r h e = helper (read_full w x) refl e
  where
    helper :
        (o : Result (Bytes × Bytes))
        → read_full w x ≡ o
        → (o >>= number) ≡ ok (n, r)
        → IsNumber x w n r
    helper (err y) same e' = absurd (ground (arith, e'))
    helper (ok (bs, rest)) same e' =
        let t = read_full-IsRead w x bs rest h same in
        let value : from_le bs ≡ n = ground (arith, e') in
        let left : rest ≡ r = ground (arith, e') in
        let printed : le_bytes w n ≡ bs =
          ap (λ m. le_bytes m n) (sym t.len)
          ∙ (ap (le_bytes (length bs)) (sym value) ∙ le_bytes-from_le bs t.bytes) in
        record {
          whole = t.whole ∙ cc (printed, left);
          small = omega (arith, from_le-lt bs t.bytes, value, ap (λ m. 256 ^ m) t.len);
          rest = rw left at t.rest;
        }

bind_inv {ℓ κ} :
    {A : Type ℓ} {B : Type κ} (t : String) (o : Result (A × Bytes)) (g : A → Bytes → Result B)
    (b : B)
    → (wrap_err t o >>= λ (a, r). g a r) ≡ ok b
    → (a : A) × ((r : Bytes) × ((o ≡ ok (a, r)) × (g a r ≡ ok b)))
bind_inv t (err e) g b h = absurd (ground (arith, h))
bind_inv t (ok (a, r)) g b h = (a, (r, (refl, h)))

-- The values of a header are those of its Go types.
pub record IsHeader (h : ShardHeader) : Type 0 where
  pub id : length h.object_id < 2 ^ 16
  pub stripe_idx : h.stripe_idx < 2 ^ 32
  pub shard_idx : h.shard_idx < 2 ^ 32
  pub data_shards : h.data_shards < 2 ^ 16
  pub parity_shards : h.parity_shards < 2 ^ 16
  pub stripe_len : InInt64 h.stripe_len
  pub data_len : InInt64 h.data_len
  pub checksum : length h.checksum ≡ 32

-- The encoding of the fields behind the object id.
abbrev field_bytes : ShardHeader → Bytes → Bytes
field_bytes h r =
    le_bytes 4 h.stripe_idx
    ++ (le_bytes 4 h.shard_idx
        ++ (le_bytes 2 h.data_shards
            ++ (le_bytes 2 h.parity_shards
                ++ (le_bytes 8 (to_uint64 h.stripe_len)
                    ++ (le_bytes 8 (to_uint64 h.data_len) ++ (h.checksum ++ r))))))

-- What is known of a header that was read.
record IsDecoded (id x : Bytes) (h : ShardHeader) (r : Bytes) : Type 0 where
  whole : x ≡ field_bytes h r
  object_id : h.object_id ≡ id
  values : length id < 2 ^ 16 → IsHeader h
  rest : All IsByte r

-- The header of the values that were read one after the other.
header_of_values : Bytes → ℕ → ℕ → ℕ → ℕ → ℕ → ℕ → Bytes → ShardHeader
header_of_values id stripe shard k m stripe_len data_len sum = record {
  object_id = id;
  stripe_idx = stripe;
  shard_idx = shard;
  data_shards = k;
  parity_shards = m;
  stripe_len = to_int64 stripe_len;
  data_len = to_int64 data_len;
  checksum = sum;
}

IsDecoded-values :
    (id x x1 x2 x3 x4 x5 x6 x7 sum : Bytes) (stripe shard k m stripe_len data_len : ℕ)
    → IsNumber x 4 stripe x1
    → IsNumber x1 4 shard x2
    → IsNumber x2 2 k x3
    → IsNumber x3 2 m x4
    → IsNumber x4 8 stripe_len x5
    → IsNumber x5 8 data_len x6
    → IsRead x6 sum x7 32
    → IsDecoded id x (header_of_values id stripe shard k m stripe_len data_len sum) x7
unfolding header_of_values
IsDecoded-values id x x1 x2 x3 x4 x5 x6 x7 sum stripe shard k m stripe_len data_len n1 n2 n3 n4 n5
      n6 n7 =
    let long1 : to_uint64 (to_int64 stripe_len) ≡ stripe_len =
      to_uint64-to_int64 stripe_len (omega (arith, n5.small)) in
    let long2 : to_uint64 (to_int64 data_len) ≡ data_len =
      to_uint64-to_int64 data_len (omega (arith, n6.small)) in
    record {
      whole =
          rw (long1, long2, ← n7.whole, ← n6.whole, ← n5.whole, ← n4.whole, ← n3.whole, ← n2.whole)
            n1.whole;
      object_id = refl;
      values = λ short. record {
        id = short;
        stripe_idx = omega (arith, n1.small);
        shard_idx = omega (arith, n2.small);
        data_shards = omega (arith, n3.small);
        parity_shards = omega (arith, n4.small);
        stripe_len = to_int64-InInt64 stripe_len (omega (arith, n5.small));
        data_len = to_int64-InInt64 data_len (omega (arith, n6.small));
        checksum = n7.len;
      };
      rest = n7.rest;
    }

same_result :
    (id x : Bytes) (g h : ShardHeader) (q r : Bytes)
    → ◌≡◌ {A = Result (ShardHeader × Bytes)} (ok (g, q)) (ok (h, r))
    → IsDecoded id x g q
    → IsDecoded id x h r
same_result id x g h q r e w =
    let same : g ≡ h = ground (arith, e) in
    let left : q ≡ r = ground (arith, e) in
    subst (λ t. IsDecoded id x h t) left (subst (λ t. IsDecoded id x t q) same w)

IsDecoded-fields :
    (id x : Bytes) (h : ShardHeader) (r : Bytes)
    → All IsByte x
    → decode_header_fields id x ≡ ok (h, r)
    → IsDecoded id x h r
unfolding decode_header_fields header_of_values
IsDecoded-fields id x h r w e =
    let (stripe, (x1, (read1, e1))) = bind_inv _ (read_uint 4 x) _ (h, r) e in
    let n1 = read_uint-IsNumber 4 x stripe x1 w read1 in
    let (shard, (x2, (read2, e2))) = bind_inv _ (read_uint 4 x1) _ (h, r) e1 in
    let n2 = read_uint-IsNumber 4 x1 shard x2 n1.rest read2 in
    let (k, (x3, (read3, e3))) = bind_inv _ (read_uint 2 x2) _ (h, r) e2 in
    let n3 = read_uint-IsNumber 2 x2 k x3 n2.rest read3 in
    let (m, (x4, (read4, e4))) = bind_inv _ (read_uint 2 x3) _ (h, r) e3 in
    let n4 = read_uint-IsNumber 2 x3 m x4 n3.rest read4 in
    let (stripe_len, (x5, (read5, e5))) = bind_inv _ (read_uint 8 x4) _ (h, r) e4 in
    let n5 = read_uint-IsNumber 8 x4 stripe_len x5 n4.rest read5 in
    let (data_len, (x6, (read6, e6))) = bind_inv _ (read_uint 8 x5) _ (h, r) e5 in
    let n6 = read_uint-IsNumber 8 x5 data_len x6 n5.rest read6 in
    let (sum, (x7, (read7, e7))) = bind_inv _ (read_full 32 x6) _ (h, r) e6 in
    let n7 = read_full-IsRead 32 x6 sum x7 n6.rest read7 in
    same_result id x (header_of_values id stripe shard k m stripe_len data_len sum) h x7 r e7 (
      IsDecoded-values id x x1 x2 x3 x4 x5 x6 x7 sum stripe shard k m stripe_len data_len n1 n2 n3
        n4 n5 n6 n7)

-- The bytes behind the magic.
abbrev versioned_bytes : ShardHeader → Bytes → Bytes
versioned_bytes h r =
    le_bytes 2 shard_ver ++ (le_bytes 2 (length h.object_id) ++ (h.object_id ++ field_bytes h r))

IsDecoded-id :
    (x x2 x3 id : Bytes) (n : ℕ) (h : ShardHeader) (r : Bytes)
    → IsNumber x 2 n x2
    → IsRead x2 id x3 n
    → IsDecoded id x3 h r
    → (x ≡ le_bytes 2 (length h.object_id) ++ (h.object_id ++ field_bytes h r)) × IsHeader h
IsDecoded-id x x2 x3 id n h r a b d =
    let size : length id ≡ n = b.len in
    (rw (d.object_id, size, ← d.whole, ← b.whole) a.whole, d.values (omega (arith, a.small, size)))

-- The part of `decode_versioned` behind the version.
decode_id : Bytes → Result (ShardHeader × Bytes)
decode_id r = do
  (obj_len, r) ← wrap_err "storage: read object id length" (read_uint 2 r)
  (obj_id, r) ← wrap_err "storage: read object id" (read_full obj_len r)
  decode_header_fields obj_id r

IsDecoded-decode_id :
    (x : Bytes) (h : ShardHeader) (r : Bytes)
    → All IsByte x
    → decode_id x ≡ ok (h, r)
    → (x ≡ le_bytes 2 (length h.object_id) ++ (h.object_id ++ field_bytes h r)) × IsHeader h
unfolding decode_id
IsDecoded-decode_id x h r w e =
    let (n, (x2, (read2, e2))) = bind_inv _ (read_uint 2 x) _ (h, r) e in
    let a = read_uint-IsNumber 2 x n x2 w read2 in
    let (id, (x3, (read3, e3))) = bind_inv _ (read_full n x2) _ (h, r) e2 in
    let b = read_full-IsRead n x2 id x3 a.rest read3 in
    IsDecoded-id x x2 x3 id n h r a b (IsDecoded-fields id x3 h r b.rest e3)

if_ok :
    {A : Type 0} (b : Bool) (x : Result A) (e : Error) (a : A)
    → (if b then x else err e) ≡ ok a
    → (b ≡ true) × (x ≡ ok a)
if_ok true x e a h = (refl, h)
if_ok false x e a h = absurd (ground (arith, h))

IsDecoded-versioned :
    (x : Bytes) (h : ShardHeader) (r : Bytes)
    → All IsByte x
    → decode_versioned x ≡ ok (h, r)
    → (x ≡ versioned_bytes h r) × IsHeader h
unfolding decode_versioned decode_id
IsDecoded-versioned x h r w e =
    let (ver, (x1, (read1, e1))) = bind_inv _ (read_uint 2 x) _ (h, r) e in
    let a = read_uint-IsNumber 2 x ver x1 w read1 in
    let (good, e2) = if_ok (ver == shard_ver) (decode_id x1) _ (h, r) e1 in
    let version : ver ≡ shard_ver = ground (arith, good) in
    let (whole, values) = IsDecoded-decode_id x1 h r a.rest e2 in
    (
      a.whole ∙ (ap (λ v. le_bytes 2 v ++ x1) version ∙ ap (λ t. le_bytes 2 shard_ver ++ t) whole),
      values,
    )

-- Whatever byte string `decodeShardHeader` accepts begins with the encoding of the header that it returns, and what
-- follows is what it leaves in the reader; and the header's fields are values of their Go types.
pub shard_header_bytes-decode :
    (x : Bytes) (h : ShardHeader) (r : Bytes)
    → All IsByte x
    → decode_shard_header x ≡ ok (h, r)
    → (x ≡ shard_header_bytes h ++ r) × IsHeader h
unfolding decode_shard_header shard_header_bytes
shard_header_bytes-decode x h r w e =
    let (magic, (x1, (read1, e1))) = bind_inv _ (read_full 8 x) _ (h, r) e in
    let a = read_full-IsRead 8 x magic x1 w read1 in
    let (good, e2) = if_ok (str_eq magic shard_magic) (decode_versioned x1) _ (h, r) e1 in
    let same : magic ≡ shard_magic = (str_eq_iff magic shard_magic).0 good in
    let (whole, values) = IsDecoded-versioned x1 h r a.rest e2 in
    (
      simp append_assoc (a.whole ∙ (ap (λ m. m ++ x1) same ∙ ap (λ t. shard_magic ++ t) whole)),
      values,
    )
