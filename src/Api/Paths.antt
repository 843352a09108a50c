-- ===== src/Api/Paths.antt =====
-- Request paths, bucket names and object ids.
use shardstore.Common.{ℕ, ◌==◌, ◌&&◌, ◌||◌, Bool, true, not, Bytes, [], ◌∷◌, ◌++◌, codes}
use shardstore.Common.{length, leb, ltb, if◌then◌else◌, Option, none, some}
use shardstore.Common.Search.{has_prefix, has_suffix, contains, trim_prefix}
use shardstore.Errors.{Result, ok, err, message}

-- '/'
abbrev pub slash : ℕ
slash = 47

-- What stands before the first slash and behind it.
abbrev pub cons_before : ℕ → Option (Bytes × Bytes) → Option (Bytes × Bytes)
cons_before c none = none
cons_before c (some (a, b)) = some (c ∷ a, b)

unfoldable pub cut_slash : Bytes → Option (Bytes × Bytes)
cut_slash [] = none
cut_slash (c ∷ p) =
    let rest = cons_before c (cut_slash p) in if c == slash then some ([], p) else rest

-- The bucket and the object of `strings.SplitN(p, "/", 3)`: the first part, and the third or else
-- the second.
abbrev pub object_part : Bytes → Option (Bytes × Bytes) → Bytes
object_part rest none = rest
object_part rest (some (middle, object)) = object

abbrev pub split_parts : Bytes → Option (Bytes × Bytes) → Bytes × Bytes
split_parts p none = (p, [])
split_parts p (some (bucket, rest)) = (bucket, object_part rest (cut_slash rest))

unfoldable pub parse_path_values : Bytes → Bytes × Bytes
parse_path_values path =
    let p = trim_prefix path (slash ∷ []) in
    if length p == 0 then ([], []) else split_parts p (cut_slash p)

-- The characters of bucket names: a-z, 0-9, '-' and '.'.
unfoldable pub is_bucket_char : ℕ → Bool
is_bucket_char c = (leb 97 c && leb c 122) || (leb 48 c && leb c 57) || (c == 45) || (c == 46)

unfoldable pub all_bucket_chars : Bytes → Bool
all_bucket_chars [] = true
all_bucket_chars (c ∷ name) = is_bucket_char c && all_bucket_chars name

unfoldable pub validate_bucket_name : Bytes → Result (Unit {0})
unfolding is_bucket_char all_bucket_chars
validate_bucket_name name =
    if length name == 0
    then err (message "bucket name cannot be empty")
    else if ltb (length name) 3 || ltb 63 (length name)
    then err (message "bucket name must be between 3 and 63 characters")
    else if not (all_bucket_chars name)
    then err (message "bucket name can only contain lowercase letters, numbers, hyphens, and dots")
    else if has_prefix name (codes "-")
        || has_suffix name (codes "-")
        || has_prefix name (codes ".")
        || has_suffix name (codes ".")
    then err (message "bucket name cannot start or end with hyphen or dot")
    else if contains name (codes "..")
    then err (message "bucket name cannot contain consecutive periods")
    else ok tt

-- The ids under which the handlers keep buckets and objects.
abbrev pub bucket_marker_id : Bytes → Bytes
bucket_marker_id bucket = codes "__bucket__/" ++ bucket

abbrev pub object_id : Bytes → Bytes → Bytes
object_id bucket object = bucket ++ slash ∷ object
