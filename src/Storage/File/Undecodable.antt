-- ===== src/Storage/File/Undecodable.antt =====
-- The errors of `decodeShardHeader`.
use shardstore.Common.{
  ℕ, ◌≡◌, refl, arith, Bytes, if◌then◌else◌, ◌==◌, String, Bool, true, false, str_eq,
}
use shardstore.Errors.{
  Error, Result, ok, err, wrap_err, is_shard_not_found, is_corrupt_shard, ◌>>=◌,
}
use shardstore.Reader.{read_full, read_uint}
use shardstore.Storage.Header.{
  shard_magic, shard_ver, decode_shard_header, decode_versioned, decode_header_fields,
}
use shardstore.Storage.Object.{is_lost}
use shardstore.Storage.File.{path_eq}

-- The error is not one for which a shard counts as lost.
IsOther : Error → Type 0
IsOther e = is_lost e ≡ false

GivesOther : {A : Type 0} → (Bytes → Result A) → Type 0
GivesOther f = (x : Bytes) (e : Error) → f x ≡ err e → IsOther e

err-GivesOther : (A : Type 0) (e : Error) → IsOther e → GivesOther {A = A} (λ x. err e)
unfolding GivesOther IsOther
err-GivesOther A e other x e' h = ground (arith, h, other)

ok-GivesOther : {A : Type 0} (f : Bytes → A) → GivesOther (λ x. ok (f x))
unfolding GivesOther
ok-GivesOther f x e h = absurd (ground (arith, h))

if-GivesOther :
    {A : Type 0} (b : Bool) (f g : Bytes → Result A)
    → GivesOther f
    → GivesOther g
    → GivesOther (λ x. if b then f x else g x)
if-GivesOther true f g hf hg = hf
if-GivesOther false f g hf hg = hg

bind-GivesOther :
    {A B : Type 0} (t : String) (f : Bytes → Result (A × Bytes)) (g : A → Bytes → Result B)
    → GivesOther f
    → ((a : A) → GivesOther (g a))
    → GivesOther (λ x. wrap_err t (f x) >>= λ (a, r). g a r)
unfolding GivesOther IsOther is_lost is_shard_not_found is_corrupt_shard
bind-GivesOther {A = A} {B = B} t f g hf hg x e h = helper (f x) refl h
  where
    helper :
        (o : Result (A × Bytes)) → f x ≡ o → (wrap_err t o >>= λ (a, r). g a r) ≡ err e → IsOther e
    helper (ok (a, r)) same h' = hg a r e h'
    helper (err y) same h' = let inner = hf x y same in ground (arith, h', inner)

read_full-GivesOther : (n : ℕ) → GivesOther (read_full n)
unfolding GivesOther IsOther read_full is_lost is_shard_not_found is_corrupt_shard
read_full-GivesOther n x e h = ground (arith, h)

read_uint-GivesOther : (n : ℕ) → GivesOther (read_uint n)
unfolding GivesOther IsOther read_uint read_full is_lost is_shard_not_found is_corrupt_shard
read_uint-GivesOther n x e h = ground (arith, h)

decode_header_fields-GivesOther : (id : Bytes) → GivesOther (decode_header_fields id)
unfolding decode_header_fields
decode_header_fields-GivesOther id =
    bind-GivesOther _ (read_uint 4) _ (read_uint-GivesOther 4) λ stripe.
      bind-GivesOther _ (read_uint 4) _ (read_uint-GivesOther 4) λ shard.
        bind-GivesOther _ (read_uint 2) _ (read_uint-GivesOther 2) λ k.
          bind-GivesOther _ (read_uint 2) _ (read_uint-GivesOther 2) λ m.
            bind-GivesOther _ (read_uint 8) _ (read_uint-GivesOther 8) λ stripe_len.
              bind-GivesOther _ (read_uint 8) _ (read_uint-GivesOther 8) λ data_len.
                bind-GivesOther _ (read_full 32) _ (read_full-GivesOther 32) λ sum. ok-GivesOther _

decode_versioned-GivesOther : GivesOther decode_versioned
unfolding decode_versioned IsOther is_lost is_shard_not_found is_corrupt_shard
decode_versioned-GivesOther = bind-GivesOther _ (read_uint 2) _ (read_uint-GivesOther 2) λ ver.
    if-GivesOther (ver == shard_ver) _ _
      (bind-GivesOther _ (read_uint 2) _ (read_uint-GivesOther 2) λ n.
        bind-GivesOther _ (read_full n) _ (read_full-GivesOther n)
          λ id. decode_header_fields-GivesOther id)
      (err-GivesOther _ _ refl)

pub decode_shard_header-GivesOther :
    (x : Bytes) (e : Error) → decode_shard_header x ≡ err e → is_lost e ≡ false
unfolding decode_shard_header GivesOther IsOther is_lost is_shard_not_found is_corrupt_shard
decode_shard_header-GivesOther = bind-GivesOther _ (read_full 8) _ (read_full-GivesOther 8) λ magic.
    if-GivesOther (str_eq magic shard_magic) _ _ decode_versioned-GivesOther
      (err-GivesOther _ _ refl)
