-- ===== src/Api/Server.antt =====
-- The server of internal/api/api.go: the routes of `New` and the middleware of `Handler`.
pub mod Routing
pub mod Session
use shardstore.Common.{
  ℕ, ◌==◌, ◌&&◌, ◌||◌, not, Bool, true, false, ℤ, Bytes, List, [], ◌∷◌, if◌then◌else◌, codes,
  str_eq,
}
use shardstore.Common.Search.{has_prefix}
use shardstore.Common.Atoi.{atoi}
use shardstore.Errors.{Result}
use shardstore.Ec.ReedSolomon.{Engine}
use shardstore.Storage.ShardStore.{ShardStore}
use shardstore.Storage.Object.{ObjectStore}
use shardstore.Common.{Option}
use shardstore.Api.Paths.{slash}
use shardstore.Api.Types.{ListedObject}
use shardstore.Api.Http.{
  Request, Writer, with_request_id, health_status, set_header, write_header, write, write_xml_error,
}
use shardstore.Api.Buckets.{handle_create_bucket, handle_delete_bucket, handle_head_bucket}
use shardstore.Api.Objects.{
  handle_put_object, handle_get_object, handle_head_object, handle_delete_object,
}
use shardstore.Api.Listing.{handle_list_objects_v2}
use shardstore.Api.Multipart.{handle_multipart_operations}

-- The handlers of the patterns of `New`, and the answers that the ServeMux gives itself.
pub data Route : Type 0 where
  health create_bucket delete_bucket list_objects head_bucket : Route
  put_object get_object head_object delete_object multipart : Route
  moved not_found method_not_allowed : Route

-- The segments of a path, behind its first slash.
abbrev pub cons_segment : ℕ → List Bytes → List Bytes
cons_segment c [] = (c ∷ []) ∷ []
cons_segment c (p ∷ ps) = (c ∷ p) ∷ ps

unfoldable pub segments : Bytes → List Bytes
segments [] = [] ∷ []
segments (c ∷ p) = let rest = segments p in if c == slash then [] ∷ rest else cons_segment c rest

-- A path that net/http does not clean: no segment is "." or "..", and only the last may be empty.
abbrev pub is_dots : Bytes → Bool
is_dots p = str_eq p (codes ".") || str_eq p (codes "..")

unfoldable pub are_clean : List Bytes → Bool
are_clean [] = true
are_clean (p ∷ []) = not (is_dots p)
are_clean (p ∷ q ∷ ps) = not (is_dots p) && (not (str_eq p []) && are_clean (q ∷ ps))

-- A pattern for GET matches HEAD too, where no pattern for HEAD matches.
unfoldable pub health_route : Bytes → Route
health_route m =
    if str_eq m (codes "GET") || str_eq m (codes "HEAD") then health else method_not_allowed

unfoldable pub bucket_route : Bytes → Route
bucket_route m =
    if str_eq m (codes "PUT")
    then create_bucket
    else if str_eq m (codes "DELETE")
    then delete_bucket
    else if str_eq m (codes "GET")
    then list_objects
    else if str_eq m (codes "HEAD")
    then head_bucket
    else method_not_allowed

unfoldable pub object_route : Bytes → Route
object_route m =
    if str_eq m (codes "PUT")
    then put_object
    else if str_eq m (codes "GET")
    then get_object
    else if str_eq m (codes "HEAD")
    then head_object
    else if str_eq m (codes "DELETE")
    then delete_object
    else if str_eq m (codes "POST")
    then multipart
    else method_not_allowed

-- A wildcard matches one segment that is not empty.
abbrev pub segments_route : Bytes → List Bytes → Route
segments_route m (b ∷ []) = if str_eq b [] then not_found else bucket_route m
segments_route m (b ∷ o ∷ []) = if str_eq o [] then not_found else object_route m
segments_route m (a ∷ b ∷ c ∷ []) =
    if str_eq a (codes "_internal") && (str_eq b (codes "health") && str_eq c (codes "check"))
    then health_route m
    else not_found
segments_route m _ = not_found

-- The route of a path without escapes that begins with a slash. An unclean path is redirected.
abbrev pub path_route : Bytes → Bytes → Route
path_route m [] = moved
path_route m (c ∷ p) =
    if not ((c == slash) && are_clean (segments p)) then moved else segments_route m (segments p)

unfoldable pub route : Bytes → Bytes → Route
unfolding segments are_clean health_route bucket_route object_route
route m p = path_route m p

-- What the handlers take besides the request: the node's id, which is a field of `Server`, and the code
-- outside of it. `order` is the order in which Go ranges over a map, `unmarshal` is xml.Unmarshal, `sizes` and
-- `fuel` are the slices and the rounds of io.Copy, `new_id` is what generateUploadID returns, and `mux_answer`
-- gives the answers of the ServeMux.
pub record Surroundings : Type 0 where
  pub node : Bytes
  pub order : List (Bytes × ListedObject) → List ListedObject
  pub unmarshal : Bytes → Option (List ℤ)
  pub sizes : ℕ → ℕ
  pub fuel : ℕ
  pub new_id : Bytes
  pub mux_answer : Route → Request → Writer → Writer

unfoldable pub handle_health : Bytes → Writer → Writer
handle_health node w =
    write (health_status (record { status = codes "ok"; node = node }))
      (write_header 200 (set_header "Content-Type" (codes "application/json") w))

-- The id that `requestID` gives a request.
abbrev pub request_id_of : Bytes → Bytes → Bytes
request_id_of given generated = if str_eq given [] then generated else given

module _ {S : Type 0} (st : ShardStore S) (new_engine : ℤ → ℤ → Result Engine) (o : ObjectStore)
    (x : Surroundings) where
  abbrev pub dispatch : Route → Writer → Request → S → Writer × S
  dispatch health w r s = (handle_health x.node w, s)
  dispatch create_bucket w r s = handle_create_bucket st new_engine o w r s
  dispatch delete_bucket w r s = handle_delete_bucket st new_engine o w r s
  dispatch list_objects w r s = handle_list_objects_v2 st new_engine o x.node x.order w r s
  dispatch head_bucket w r s = handle_head_bucket st new_engine o w r s
  dispatch put_object w r s = handle_put_object st new_engine o w r s
  dispatch get_object w r s = handle_get_object st new_engine o x.sizes x.fuel w r s
  dispatch head_object w r s = handle_head_object st new_engine o w r s
  dispatch delete_object w r s = handle_delete_object st new_engine o w r s
  dispatch multipart w r s =
      handle_multipart_operations st new_engine x.unmarshal atoi o x.sizes x.fuel x.new_id w r s
  dispatch moved w r s = (x.mux_answer moved r w, s)
  dispatch not_found w r s = (x.mux_answer not_found r w, s)
  dispatch method_not_allowed w r s = (x.mux_answer method_not_allowed r w, s)

  unfoldable pub serve_mux : Writer → Request → S → Writer × S
  unfolding route
  serve_mux w r s = dispatch (route r.method r.path) w r s

  -- `auth`, for the value of the Authorization header.
  unfoldable pub auth : Bool → Bytes → Writer → Request → S → Writer × S
  unfolding serve_mux
  auth permissive header w r s =
      if permissive || str_eq r.path (codes "/_internal/health/check")
      then serve_mux w r s
      else if str_eq header []
      then (write_xml_error 403 "AccessDenied" "Missing Authorization header" r w, s)
      else if not (has_prefix header (codes "AWS4-HMAC-SHA256 "))
      then (
        write_xml_error 403 "SignatureDoesNotMatch" "Invalid Authorization header format" r w,
        s,
      )
      else serve_mux w r s

  -- `Handler`: `given` is the request's id, and `generated` what `newRequestID` gives. The access log
  -- leaves the response as it is.
  unfoldable pub serve_http : Bool → Bytes → Bytes → Bytes → Writer → Request → S → Writer × S
  unfolding auth
  serve_http permissive header given generated w r s =
      let id = request_id_of given generated in
      auth permissive header (set_header "X-Request-Id" id w) (with_request_id id r) s
