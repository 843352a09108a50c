-- ===== src/Api/Listing/Keys.antt =====
-- Which objects a listing contains.
use shardstore.Common.{
  ◌≡◌, refl, sym, ap, ◌∙◌, arith, ◌&&◌, ◌||◌, not, Bool, true, false, Bytes, List, [], ◌∷◌, ◌++◌, ℤ,
  length, drop, str_eq, str_eq_iff, str_eq_refl, Option, none, some, Bool-cases, inl, inr,
}
use shardstore.Common.Assoc.{mem_key, keys, lookup, is_some, mem_key-keys, bytes_eq}
use shardstore.Common.Search.{has_prefix, trim_prefix, has_prefix-append, trim_prefix-append}
use mathlib.Core.List.{append_assoc}
use shardstore.Api.Names.{object_id-validate_bucket_name}
use shardstore.Errors.{
  Error, Result, ok, err, panic, shard_not_found, corrupt_shard, object_not_found, unrecoverable,
  eof, out_of_fuel, message, wrap,
}
use shardstore.Storage.Object.{Body}
use shardstore.Api.Paths.{validate_bucket_name, object_id, slash}
use shardstore.Api.Types.{ListedObject}
use shardstore.Api.Listing.{listed_key, listed_object, insert_new, add_object, round}

abbrev pub is_ok : {A : Type 0} → Result A → Bool
is_ok (ok a) = true
is_ok (err e) = false

abbrev pub is_key : Bytes → Option Bytes → Bool
is_key key none = false
is_key key (some k) = str_eq k key

keys-insert_new :
    (k key : Bytes) (x : ListedObject) (m : List (Bytes × ListedObject))
    → mem_key key (keys (insert_new k x m)) ≡ (str_eq k key || mem_key key (keys m))
unfolding mem_key keys
keys-insert_new k key x m = helper (lookup k m) refl
  where
    helper :
        (o : Option ListedObject)
        → lookup k m ≡ o
        → mem_key key (keys (elim o [ none ↦ (k, x) ∷ m | some y ↦ m ]))
          ≡ (str_eq k key || mem_key key (keys m))
    helper none e = refl
    helper (some y) e = elim (Bool-cases (str_eq k key)) [
      | inl same ↦
          let there : mem_key k (keys m) ≡ true = mem_key-keys k m ∙ ap is_some e in
          rw same (ap (λ t. mem_key t (keys m)) (sym ((str_eq_iff k key).0 same)) ∙ there)
      | inr differ ↦ rw differ refl
    ]

-- Any error but a panic passes over the object.
skipped :
    (node k : Bytes) (e : Error) (m m' : List (Bytes × ListedObject))
    → add_object node k (err e) m ≡ ok m'
    → m ≡ m'
skipped node k shard_not_found m m' h = ground (arith, h)
skipped node k corrupt_shard m m' h = ground (arith, h)
skipped node k object_not_found m m' h = ground (arith, h)
skipped node k unrecoverable m m' h = ground (arith, h)
skipped node k eof m m' h = ground (arith, h)
skipped node k out_of_fuel m m' h = ground (arith, h)
skipped node k (panic t) m m' h = absurd (ground (arith, h))
skipped node k (message t) m m' h = ground (arith, h)
skipped node k (wrap t e) m m' h = ground (arith, h)

pub keys-round :
    (node key : Bytes) (o : Option Bytes) (got : Result (Body × ℤ))
    (m m' : List (Bytes × ListedObject))
    → round node o got m ≡ ok m'
    → mem_key key (keys m') ≡ ((is_key key o && is_ok got) || mem_key key (keys m))
keys-round node key none got m m' h =
    let same : m ≡ m' = ground (arith, h) in ap (λ t. mem_key key (keys t)) (sym same)
keys-round node key (some k) (ok (body, size)) m m' h =
    let same : insert_new k (listed_object node k size) m ≡ m' = ground (arith, h) in
    ap (λ t. mem_key key (keys t)) (sym same)
    ∙ (keys-insert_new k key (listed_object node k size) m ∙ ground arith)
keys-round node key (some k) (err e) m m' h =
    ap (λ t. mem_key key (keys t)) (sym (skipped node k e m m' h)) ∙ ground arith

has_prefix→append : (s p : Bytes) → has_prefix s p ≡ true → s ≡ p ++ drop (length p) s
unfolding has_prefix
has_prefix→append s [] h = refl
has_prefix→append [] (y ∷ p) h = absurd (ground (arith, h))
has_prefix→append (x ∷ s) (y ∷ p) h =
    let same : x ≡ y = ground (arith, h) in
    let rest = has_prefix→append s p (ground (arith, h)) in cc (same, rest)

has_prefix_nil : (s : Bytes) → has_prefix s [] ≡ true
unfolding has_prefix
has_prefix_nil [] = refl
has_prefix_nil (c ∷ s) = refl

str_eq-object_id : (b x y : Bytes) → str_eq (object_id b x) (object_id b y) ≡ str_eq x y
unfolding str_eq
str_eq-object_id [] x y = refl
str_eq-object_id (c ∷ b) x y = ground (arith, str_eq-object_id b x y)

wanted :
    (prefix key : Bytes)
    → (not (str_eq prefix []) && not (has_prefix key prefix)) ≡ not (has_prefix key prefix)
unfolding str_eq
wanted [] key = rw has_prefix_nil refl
wanted (c ∷ p) key = refl

-- The key of an object of a bucket.
listed_key-object_id :
    (b prefix key rest : Bytes)
    → validate_bucket_name b ≡ ok tt
    → is_key key (listed_key b prefix (object_id b rest))
      ≡ (str_eq (object_id b rest) (object_id b key) && has_prefix key prefix)
unfolding listed_key
listed_key-object_id b prefix key rest valid =
    let (segment, no_bucket, no_upload) = object_id-validate_bucket_name b rest valid in
    let whole : object_id b rest ≡ (b ++ slash ∷ []) ++ rest =
      sym (append_assoc b (slash ∷ []) rest) in
    let own : has_prefix (object_id b rest) (b ++ slash ∷ []) ≡ true =
      rw whole (has_prefix-append (b ++ slash ∷ []) rest) in
    let trimmed : trim_prefix (object_id b rest) (b ++ slash ∷ []) ≡ rest =
      rw whole (trim_prefix-append (b ++ slash ∷ []) rest) in
    rw (own, no_bucket, no_upload, trimmed, wanted prefix rest, str_eq-object_id b rest key)
      (elim (Bool-cases (str_eq rest key)) [
        | inl same ↦ let eq = (str_eq_iff rest key).0 same in rw (eq, str_eq_refl) (ground arith)
        | inr differ ↦ rw differ (ground (arith, differ))
      ])

listed_key-other :
    (b prefix key id : Bytes)
    → has_prefix id (b ++ slash ∷ []) ≡ false
    → is_key key (listed_key b prefix id) ≡ (str_eq id (object_id b key) && has_prefix key prefix)
unfolding listed_key
listed_key-other b prefix key id other =
    let differ : str_eq id (object_id b key) ≡ false =
      elim (Bool-cases (str_eq id (object_id b key))) [
        | inr differ ↦ differ
        | inl same ↦
            let whole : id ≡ (b ++ slash ∷ []) ++ key =
              (str_eq_iff id (object_id b key)).0 same ∙ sym (append_assoc b (slash ∷ []) key) in
            let own : has_prefix id (b ++ slash ∷ []) ≡ true =
              ap (λ t. has_prefix t (b ++ slash ∷ [])) whole
              ∙ has_prefix-append (b ++ slash ∷ []) key in
            absurd (cc (own, other))
      ] in
    rw (other, differ) refl

pub listed_key_lem :
    (b prefix key id : Bytes)
    → validate_bucket_name b ≡ ok tt
    → is_key key (listed_key b prefix id) ≡ (str_eq id (object_id b key) && has_prefix key prefix)
listed_key_lem b prefix key id valid = elim (Bool-cases (has_prefix id (b ++ slash ∷ []))) [
  | inr other ↦ listed_key-other b prefix key id other
  | inl own ↦
      let rest = drop (length (b ++ slash ∷ [])) id in
      let whole : id ≡ object_id b rest =
        has_prefix→append id (b ++ slash ∷ []) own ∙ append_assoc b (slash ∷ []) rest in
      ap (λ t. is_key key (listed_key b prefix t)) whole
      ∙ (listed_key-object_id b prefix key rest valid
          ∙ ap (λ t. str_eq t (object_id b key) && has_prefix key prefix) (sym whole))
]
