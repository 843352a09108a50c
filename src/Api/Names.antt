-- ===== src/Api/Names.antt =====
-- Paths and ids: what the handlers take from a path, and that ids do not collide.
use shardstore.Common.{
  ◌≤◌, ◌≡◌, refl, sym, ap, ◌∙◌, arith, ◌==◌, true, false, Bytes, [], ◌∷◌, ◌++◌, codes,
}
use shardstore.Common.{length, All, Option, none, some, length-append}
use shardstore.Common.Search.{has_prefix, trim_prefix, trim_prefix-append}
use shardstore.Errors.{ok}
use shardstore.Api.Paths.{
  slash, cut_slash, split_parts, parse_path_values, is_bucket_char, all_bucket_chars,
  validate_bucket_name, object_id,
}

-- A part of a path, which has no slash.
abbrev pub IsSegment : Bytes → Type 0
IsSegment b = All (λ c. (c == slash) ≡ false) b

cut_slash-append : (b r : Bytes) → IsSegment b → cut_slash (b ++ slash ∷ r) ≡ some (b, r)
unfolding cut_slash
cut_slash-append [] r w = refl
cut_slash-append (c ∷ b) r (h, w) = rw (h, cut_slash-append b r w) refl

cut_slash-IsSegment : (b : Bytes) → IsSegment b → cut_slash b ≡ none
unfolding cut_slash
cut_slash-IsSegment [] w = refl
cut_slash-IsSegment (c ∷ b) (h, w) = rw (h, cut_slash-IsSegment b w) refl

length-object_id : (b o : Bytes) → (length (object_id b o) == 0) ≡ false
length-object_id b o = ground (arith, length-append b (slash ∷ o))

parse-cut :
    (b r : Bytes)
    → IsSegment b
    → parse_path_values (slash ∷ object_id b r) ≡ split_parts (object_id b r) (some (b, r))
unfolding parse_path_values
parse-cut b r w =
    rw
      (
        trim_prefix-append (slash ∷ []) (object_id b r),
        length-object_id b r,
        cut_slash-append b r w,
      )
      refl

pub parse-bucket : (b : Bytes) → IsSegment b → parse_path_values (slash ∷ b) ≡ (b, [])
unfolding parse_path_values trim_prefix has_prefix
parse-bucket [] w = refl
parse-bucket (c ∷ b) w =
    let some_left : (length (c ∷ b) == 0) ≡ false = ground arith in
    rw (trim_prefix-append (slash ∷ []) (c ∷ b), some_left, cut_slash-IsSegment (c ∷ b) w) refl

-- A path of one part is read as a bucket, and a path of two parts as a bucket and an object.
pub parse_path_values_lem :
    (b o : Bytes)
    → IsSegment b
    → IsSegment o
    → (parse_path_values (slash ∷ b) ≡ (b, []))
      × (parse_path_values (slash ∷ object_id b o) ≡ (b, o))
parse_path_values_lem b o wb wo =
    (parse-bucket b wb, parse-cut b o wb ∙ rw (cut_slash-IsSegment o wo) refl)

-- Of a path of three parts or more, the second part is dropped: the object is what stands behind
-- it, so that all such paths that differ in the second part alone name one object.
pub parse_path_values_drop :
    (b m o : Bytes)
    → IsSegment b
    → IsSegment m
    → parse_path_values (slash ∷ object_id b (object_id m o)) ≡ (b, o)
parse_path_values_drop b m o wb wm =
    parse-cut b (object_id m o) wb ∙ rw (cut_slash-append m o wm) refl

-- Two objects in buckets whose names have no slash have the same id only if they have the same
-- bucket and the same name.
pub object_id_inj :
    (b b' o o' : Bytes)
    → IsSegment b
    → IsSegment b'
    → object_id b o ≡ object_id b' o'
    → (b ≡ b') × (o ≡ o')
object_id_inj b b' o o' w w' e =
    let same : ◌≡◌ {A = Option (Bytes × Bytes)} (some (b, o)) (some (b', o')) =
      sym (cut_slash-append b o w) ∙ (ap cut_slash e ∙ cut_slash-append b' o' w') in
    (cc same, cc same)

pub valid_chars :
    (b : Bytes) → validate_bucket_name b ≡ ok tt → (3 ≤ length b) × (all_bucket_chars b ≡ true)
unfolding validate_bucket_name
valid_chars b h = ground arith

IsSegment-all_bucket_chars : (b : Bytes) → all_bucket_chars b ≡ true → IsSegment b
unfolding all_bucket_chars is_bucket_char
IsSegment-all_bucket_chars [] h = tt
IsSegment-all_bucket_chars (c ∷ b) h = (ground arith, IsSegment-all_bucket_chars b (ground arith))

not_reserved :
    (b r p : Bytes)
    → 1 ≤ length b
    → all_bucket_chars b ≡ true
    → has_prefix (b ++ r) (95 ∷ p) ≡ false
unfolding has_prefix all_bucket_chars is_bucket_char
not_reserved [] r p h w = absurd (omega arith)
not_reserved (c ∷ b) r p h w = ground arith

-- The id of an object in a bucket whose name `validateBucketName` accepts is neither the id of a
-- bucket's marker nor one of multipart uploads, and the name is one part of a path.
pub object_id-validate_bucket_name :
    (b o : Bytes)
    → validate_bucket_name b ≡ ok tt
    → IsSegment b
      × (has_prefix (object_id b o) (codes "__bucket__/") ≡ false)
      × (has_prefix (object_id b o) (codes "__multipart__/") ≡ false)
object_id-validate_bucket_name b o h =
    let (long, w) = valid_chars b h in
    (
      IsSegment-all_bucket_chars b w,
      not_reserved b (slash ∷ o) _ (omega arith) w,
      not_reserved b (slash ∷ o) _ (omega arith) w,
    )
