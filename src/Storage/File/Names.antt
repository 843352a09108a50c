-- ===== src/Storage/File/Names.antt =====
-- The names of shard files.
use shardstore.Common.{
  ℕ, ◌-◌, ◌^◌, ◌≤◌, ◌<◌, ◌≡◌, refl, arith, ◌==◌, true, false, Bytes, List, [], ◌∷◌, ◌++◌, codes,
}
use shardstore.Common.{
  length, take, All, Option, none, some, pos, if◌then◌else◌, ltb, length-append, take-append,
}
use shardstore.Common.Search.{has_suffix, has_prefix-append}
use shardstore.Common.Digits.{
  format_int, format_hex, scan_uint, AreDigits, scan_uint-format_int, scan_uint-format_hex,
  format_hex-AreDigits,
}
use shardstore.Errors.{Result, ok, err, message}
use shardstore.Storage.Header.{ShardKey}
use mathlib.Core.List.{reverse-append}

-- '-'
abbrev dash : ℕ
dash = 45

abbrev pub shard_suffix : Bytes
shard_suffix = codes ".shard"

-- `shardFileName`: %08x-%d.shard
unfoldable pub shard_file_name : ShardKey → Bytes
shard_file_name key =
    (format_hex 8 key.stripe_idx ++ dash ∷ format_int 10 (pos key.shard_idx)) ++ shard_suffix

-- strings.CutSuffix
unfoldable pub cut_suffix : Bytes → Bytes → Option Bytes
cut_suffix s suffix = if has_suffix s suffix then some (take (length s - length suffix) s) else none

-- strings.Split(s, "-")
abbrev cons_first : ℕ → List Bytes → List Bytes
cons_first c [] = (c ∷ []) ∷ []
cons_first c (p ∷ ps) = (c ∷ p) ∷ ps

unfoldable pub split_dash : Bytes → List Bytes
split_dash [] = [] ∷ []
split_dash (c ∷ s) = let rest = split_dash s in if c == dash then [] ∷ rest else cons_first c rest

-- The two numbers. The shard index is a uint32, for which fmt refuses a larger number.
abbrev pub shard_key_of : Option ℕ → Option ℕ → Result ShardKey
shard_key_of none shard = err (message "storage: malformed stripe index")
shard_key_of (some stripe) none = err (message "storage: malformed shard index")
shard_key_of (some stripe) (some shard) =
    if ltb shard (2 ^ 32)
    then ok (record { object_id = []; stripe_idx = stripe; shard_idx = shard })
    else err (message "storage: malformed shard index")

abbrev pub key_of_parts : List Bytes → Result ShardKey
key_of_parts (stripe ∷ shard ∷ []) =
    shard_key_of (scan_uint 16 8 stripe) (scan_uint 10 (length shard) shard)
key_of_parts _ = err (message "storage: malformed shard name")

abbrev pub key_of_stem : Option Bytes → Result ShardKey
key_of_stem none = err (message "storage: not a shard file")
key_of_stem (some rest) = key_of_parts (split_dash rest)

-- `parseShardFileName`, which leaves the object id empty.
unfoldable pub parse_shard_file_name : Bytes → Result ShardKey
unfolding cut_suffix split_dash
parse_shard_file_name name = key_of_stem (cut_suffix name shard_suffix)

has_suffix-append : (s suffix : Bytes) → has_suffix (s ++ suffix) suffix ≡ true
unfolding has_suffix
has_suffix-append s suffix = rw (reverse-append s suffix, has_prefix-append) refl

cut_suffix-append : (s suffix : Bytes) → cut_suffix (s ++ suffix) suffix ≡ some s
unfolding cut_suffix has_suffix
cut_suffix-append s suffix =
    let rest : length (s ++ suffix) - length suffix ≡ length s =
      omega (arith, length-append s suffix) in
    rw (reverse-append s suffix, has_prefix-append, rest, take-append) refl

NoDash : Bytes → Type 0
NoDash s = All (λ c. (c == dash) ≡ false) s

split_dash-none : (s : Bytes) → NoDash s → split_dash s ≡ s ∷ []
unfolding split_dash NoDash
split_dash-none [] h = refl
split_dash-none (c ∷ s) (hc, h) = rw (hc, split_dash-none s h) refl

split_dash-append : (s t : Bytes) → NoDash s → NoDash t → split_dash (s ++ dash ∷ t) ≡ s ∷ t ∷ []
unfolding split_dash NoDash
split_dash-append [] t h k = rw (split_dash-none t k) refl
split_dash-append (c ∷ s) t (hc, h) k = rw (hc, split_dash-append s t h k) refl

NoDash-AreDigits : (base : ℕ) (s : Bytes) → base ≤ 16 → AreDigits base s → NoDash s
unfolding NoDash
NoDash-AreDigits base [] h t = tt
NoDash-AreDigits base (c ∷ s) h (hc, t) = (ground arith, NoDash-AreDigits base s h t)

-- The name of a shard's file reads back as its stripe and shard indices, which are uint32.
pub parse-shard_file_name :
    (key : ShardKey)
    → key.stripe_idx < 2 ^ 32
    → key.shard_idx < 2 ^ 32
    → (has_suffix (shard_file_name key) shard_suffix ≡ true)
      × (parse_shard_file_name (shard_file_name key)
          ≡ ok (record { object_id = []; stripe_idx = key.stripe_idx; shard_idx = key.shard_idx }))
unfolding parse_shard_file_name shard_file_name
parse-shard_file_name key hi hj =
    let stripe = format_hex 8 key.stripe_idx in
    let shard = format_int 10 (pos key.shard_idx) in
    let (digits, scanned) =
      scan_uint-format_int (length shard) key.shard_idx (omega arith) (omega arith) in
    let hex = NoDash-AreDigits 16 stripe (omega arith) (format_hex-AreDigits 8 key.stripe_idx) in
    let small : ltb key.shard_idx (2 ^ 32) ≡ true = ground arith in
    (
      has_suffix-append (stripe ++ dash ∷ shard) shard_suffix,
      rw
          (
            cut_suffix-append (stripe ++ dash ∷ shard) shard_suffix,
            split_dash-append stripe shard hex (NoDash-AreDigits 10 shard (omega arith) digits),
            scan_uint-format_hex 8 key.stripe_idx (omega arith) (omega arith),
            scanned,
            small,
          )
          refl,
    )
