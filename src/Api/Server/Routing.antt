-- ===== src/Api/Server/Routing.antt =====
-- What reaches the handlers.
use shardstore.Common.{◌≡◌, refl, ap, ◌∙◌, arith, false, ℤ, Bytes, [], ◌∷◌, codes, str_eq}
use shardstore.Common.Atoi.{atoi}
use shardstore.Errors.{Result, ok}
use shardstore.Ec.ReedSolomon.{Engine}
use shardstore.Storage.ShardStore.{ShardStore}
use shardstore.Storage.Object.{ObjectStore}
use shardstore.Api.Paths.{slash, object_id, validate_bucket_name}
use shardstore.Api.Http.{Request, Writer}
use shardstore.Api.Names.{IsSegment, object_id-validate_bucket_name, valid_chars}
use shardstore.Api.Objects.{
  handle_put_object, handle_get_object, handle_head_object, handle_delete_object,
}
use shardstore.Api.Multipart.{handle_multipart_operations}
use shardstore.Api.Server.{
  Surroundings, method_not_allowed, segments, are_clean, is_dots, route, object_route, bucket_route,
  serve_mux,
}

segments-IsSegment : (o : Bytes) → IsSegment o → segments o ≡ o ∷ []
unfolding segments
segments-IsSegment [] w = refl
segments-IsSegment (c ∷ o) (h, w) = rw (h, segments-IsSegment o w) refl

segments-object_id :
    (b o : Bytes) → IsSegment b → IsSegment o → segments (object_id b o) ≡ b ∷ o ∷ []
unfolding segments
segments-object_id [] o w v = rw (segments-IsSegment o v) refl
segments-object_id (c ∷ b) o (h, w) v = rw (h, segments-object_id b o w v) refl

-- A bucket's name is neither empty nor one of dots.
is_dots-validate_bucket_name :
    (b : Bytes) → validate_bucket_name b ≡ ok tt → (is_dots b ≡ false) × (str_eq b [] ≡ false)
unfolding str_eq
is_dots-validate_bucket_name [] h = absurd (omega (arith, (valid_chars [] h).0))
is_dots-validate_bucket_name (c ∷ []) h = absurd (omega (arith, (valid_chars (c ∷ []) h).0))
is_dots-validate_bucket_name (c ∷ d ∷ []) h = absurd (omega (arith, (valid_chars (c ∷ d ∷ []) h).0))
is_dots-validate_bucket_name (c ∷ d ∷ e ∷ b) h = (ground arith, refl)

pub route_lem :
    (m b o : Bytes)
    → validate_bucket_name b ≡ ok tt
    → IsSegment o
    → str_eq o [] ≡ false
    → is_dots o ≡ false
    → route m (slash ∷ object_id b o) ≡ object_route m
unfolding route are_clean
route_lem m b o valid segment some_o no_dots =
    let (dots, nonempty) = is_dots-validate_bucket_name b valid in
    rw
      (
        segments-object_id b o (object_id-validate_bucket_name b o valid).0 segment,
        dots,
        nonempty,
        no_dots,
        some_o,
      )
      refl

pub route_bucket :
    (m b : Bytes) → validate_bucket_name b ≡ ok tt → route m (slash ∷ b) ≡ bucket_route m
unfolding route are_clean
route_bucket m b valid =
    let (dots, nonempty) = is_dots-validate_bucket_name b valid in
    rw (segments-IsSegment b (object_id-validate_bucket_name b [] valid).0, dots, nonempty) refl

-- None of the methods of an object's patterns.
pub record IsOtherMethod (m : Bytes) : Type 0 where
  pub put : str_eq m (codes "PUT") ≡ false
  pub get : str_eq m (codes "GET") ≡ false
  pub head : str_eq m (codes "HEAD") ≡ false
  pub delete : str_eq m (codes "DELETE") ≡ false
  pub post : str_eq m (codes "POST") ≡ false

module _ {S : Type 0} (st : ShardStore S) (new_engine : ℤ → ℤ → Result Engine) (o : ObjectStore)
    (x : Surroundings) where
  -- A request for /b/k, where b is a valid bucket name and k a segment that is neither empty nor one of
  -- dots, is given to the handler of its method, whatever its query is: PUT to handlePutObject, also when the query
  -- names an upload and a part, GET to handleGetObject, HEAD to handleHeadObject, DELETE to
  -- handleDeleteObject, and POST to handleMultipartOperations. A request with any other method gets the
  -- ServeMux's own answer that the method is not allowed, and does not change the store.
  pub serve_mux_object :
      (w : Writer) (r : Request) (s : S) (b k : Bytes)
      → r.path ≡ slash ∷ object_id b k
      → validate_bucket_name b ≡ ok tt
      → IsSegment k
      → str_eq k [] ≡ false
      → is_dots k ≡ false
      → (serve_mux st new_engine o x w (record r { method = codes "PUT" }) s
          ≡ handle_put_object st new_engine o w (record r { method = codes "PUT" }) s)
        × (serve_mux st new_engine o x w (record r { method = codes "GET" }) s
            ≡ handle_get_object st new_engine o x.sizes x.fuel w
                (record r { method = codes "GET" })
                s)
        × (serve_mux st new_engine o x w (record r { method = codes "HEAD" }) s
            ≡ handle_head_object st new_engine o w (record r { method = codes "HEAD" }) s)
        × (serve_mux st new_engine o x w (record r { method = codes "DELETE" }) s
            ≡ handle_delete_object st new_engine o w (record r { method = codes "DELETE" }) s)
        × (serve_mux st new_engine o x w (record r { method = codes "POST" }) s
            ≡ handle_multipart_operations st new_engine x.unmarshal atoi o x.sizes x.fuel x.new_id w
                (record r { method = codes "POST" })
                s)
        × ((m : Bytes)
            → IsOtherMethod m
            → serve_mux st new_engine o x w (record r { method = m }) s
              ≡ (x.mux_answer method_not_allowed (record r { method = m }) w, s))
  unfolding serve_mux object_route str_eq
  serve_mux_object w r s b k path valid segment some_k no_dots =
      let go : (m : Bytes) → route m r.path ≡ object_route m =
        λ m. ap (route m) path ∙ route_lem m b k valid segment some_k no_dots in
      (
        rw (go (codes "PUT")) refl,
        rw (go (codes "GET")) refl,
        rw (go (codes "HEAD")) refl,
        rw (go (codes "DELETE")) refl,
        rw (go (codes "POST")) refl,
        (λ m other. rw (go m, other.put, other.get, other.head, other.delete, other.post) refl),
      )
