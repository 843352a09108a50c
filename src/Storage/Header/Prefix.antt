-- ===== src/Storage/Header/Prefix.antt =====
-- Readers that stop before the end of their bytes, and shard headers that are cut off.
use shardstore.Common.{
  ℕ, zero, suc, ◌<◌, ◌≤◌, ◌≡◌, refl, ap, arith, Bytes, [], ◌∷◌, ◌++◌, length, take, drop,
  length-append, length-drop, take-append-drop, if◌then◌else◌, leb, ◌==◌, from_le, String, Bool,
  true, false, Bool-cases, inl, inr, str_eq,
}
use mathlib.Core.List.{append-nil}
use shardstore.Errors.{Error, Result, ok, err, wrap_err, ◌>>=◌}
use shardstore.Reader.{read_full, read_uint}
use shardstore.Storage.Header.RoundTrip.{IsEncodable, decode-encode_shard_header}
use shardstore.Storage.Header.{
  shard_ver, shard_magic, encode_shard_header, ShardHeader, decode_shard_header, decode_versioned,
  decode_header_fields,
}

-- What a reader gives does not depend on bytes behind those it read.
Stable {ℓ} : {A : Type ℓ} → (Bytes → Result (A × Bytes)) → Type ℓ
Stable {A} f = (x y : Bytes) (a : A) (r : Bytes) → f x ≡ ok (a, r) → f (x ++ y) ≡ ok (a, r ++ y)

pub take_short : (n : ℕ) (x y : Bytes) → n ≤ length x → take n (x ++ y) ≡ take n x
take_short zero x y h = refl
take_short (suc n) [] y h = absurd (omega (arith, h))
take_short (suc n) (c ∷ x) y h = ap (λ t. c ∷ t) (take_short n x y (omega (arith, h)))

drop_short : (n : ℕ) (x y : Bytes) → n ≤ length x → drop n (x ++ y) ≡ drop n x ++ y
drop_short zero x y h = refl
drop_short (suc n) [] y h = absurd (omega (arith, h))
drop_short (suc n) (c ∷ x) y h = drop_short n x y (omega (arith, h))

read_full-Stable : (n : ℕ) → Stable (read_full n)
unfolding Stable read_full
read_full-Stable n x y a r h = elim (Bool-cases (leb n (length x))) [
  | inl fits ↦
      let longer : leb n (length (x ++ y)) ≡ true = ground (arith, fits, length-append x y) in
      let short : n ≤ length x = ground (arith, fits) in
      rw (longer, take_short n x y short, drop_short n x y short) (ground (arith, h, fits))
  | inr over ↦ absurd (ground (arith, h, over))
]

-- One reader after the other, with the error of the first wrapped.
bind-Stable {ℓ κ} :
    {A : Type ℓ} {B : Type κ} (t : String) (f : Bytes → Result (A × Bytes))
    (g : A → Bytes → Result (B × Bytes))
    → Stable f
    → ((a : A) → Stable (g a))
    → Stable (λ x. wrap_err t (f x) >>= λ (a, r). g a r)
unfolding Stable
bind-Stable {A = A} {B = B} t f g hf hg x y b s h = helper (f x) refl h
  where
    helper :
        (o : Result (A × Bytes))
        → f x ≡ o
        → (wrap_err t o >>= λ (a, r). g a r) ≡ ok (b, s)
        → (wrap_err t (f (x ++ y)) >>= λ (a, r). g a r) ≡ ok (b, s ++ y)
    helper (ok (a, r)) e e' = rw (hf x y a r e) (hg a r y b s e')
    helper (err x) e e' = absurd (ground (arith, e'))

ok-Stable {ℓ} : {A : Type ℓ} (a : A) → Stable (λ x. ok (a, x))
unfolding Stable
ok-Stable a x y b r h = ground (arith, h)

-- The number in the bytes read.
abbrev number : Bytes × Bytes → Result (ℕ × Bytes)
number (bs, rest) = ok (from_le bs, rest)

read_uint-Stable : (w : ℕ) → Stable (read_uint w)
unfolding Stable read_uint
read_uint-Stable w x y n r h = helper (read_full w x) refl h
  where
    helper :
        (o : Result (Bytes × Bytes))
        → read_full w x ≡ o
        → (o >>= number) ≡ ok (n, r)
        → (read_full w (x ++ y) >>= number) ≡ ok (n, r ++ y)
    helper (ok (bs, rest)) e e' = rw (read_full-Stable w x y bs rest e) (ground (arith, e'))
    helper (err x) e e' = absurd (ground (arith, e'))

err-Stable {ℓ} : (A : Type ℓ) (e : Error) → Stable {A = A} (λ x. err e)
unfolding Stable
err-Stable A e x y a r h = absurd (ground (arith, h))

if-Stable {ℓ} :
    {A : Type ℓ} (b : Bool) (f g : Bytes → Result (A × Bytes))
    → Stable f
    → Stable g
    → Stable (λ x. if b then f x else g x)
if-Stable true f g hf hg = hf
if-Stable false f g hf hg = hg

decode_header_fields-Stable : (id : Bytes) → Stable (decode_header_fields id)
unfolding decode_header_fields
decode_header_fields-Stable id = bind-Stable _ (read_uint 4) _ (read_uint-Stable 4) λ stripe.
    bind-Stable _ (read_uint 4) _ (read_uint-Stable 4) λ shard.
      bind-Stable _ (read_uint 2) _ (read_uint-Stable 2) λ k.
        bind-Stable _ (read_uint 2) _ (read_uint-Stable 2) λ m.
          bind-Stable _ (read_uint 8) _ (read_uint-Stable 8) λ stripe_len.
            bind-Stable _ (read_uint 8) _ (read_uint-Stable 8)
              λ data_len. bind-Stable _ (read_full 32) _ (read_full-Stable 32) λ sum. ok-Stable _

decode_versioned-Stable : Stable decode_versioned
unfolding decode_versioned
decode_versioned-Stable = bind-Stable _ (read_uint 2) _ (read_uint-Stable 2) λ ver.
    if-Stable (ver == shard_ver) _ _
      (bind-Stable _ (read_uint 2) _ (read_uint-Stable 2) λ n.
        bind-Stable _ (read_full n) _ (read_full-Stable n) λ id. decode_header_fields-Stable id)
      (err-Stable _ _)

decode_shard_header-Stable : Stable decode_shard_header
unfolding decode_shard_header
decode_shard_header-Stable =
    bind-Stable _ (read_full 8) _ (read_full-Stable 8)
      λ magic. if-Stable (str_eq magic shard_magic) _ _ decode_versioned-Stable (err-Stable _ _)

-- An encoded shard header that is cut off anywhere is refused by `decodeShardHeader`.
pub decode-take :
    (h : ShardHeader) (bs : Bytes) (n : ℕ)
    → IsEncodable h
    → encode_shard_header h ≡ ok bs
    → n < length bs
    → (e : Error) × (decode_shard_header (take n bs) ≡ err e)
unfolding Stable
decode-take h bs n w e lt = helper (decode_shard_header (take n bs)) refl
  where
    whole : decode_shard_header bs ≡ ok (h, [])
    whole =
        let (cs, encoded, decoded) = decode-encode_shard_header h [] w in
        let same : cs ≡ bs = ground (arith, encoded, e) in rw (same, append-nil) at decoded

    helper :
        (o : Result (ShardHeader × Bytes))
        → decode_shard_header (take n bs) ≡ o
        → (x : Error) × (o ≡ err x)
    helper (err x) same = (x, refl)
    helper (ok (g, r)) same =
        let stable =
          rw take-append-drop at (decode_shard_header-Stable (take n bs) (drop n bs) g r same) in
        let rest : r ++ drop n bs ≡ [] = ground (arith, stable, whole) in
        absurd (
          omega (
            arith,
            ap (λ (t : Bytes). length t) rest,
            length-append r (drop n bs),
            length-drop n bs,
            lt,
          ))
