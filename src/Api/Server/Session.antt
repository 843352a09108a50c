-- ===== src/Api/Server/Session.antt =====
-- Requests to one server, one after the other.
use shardstore.Common.{
  ℕ, ◌^◌, ◌≤◌, ◌<◌, ◌≡◌, refl, ◌∙◌, arith, Bool, true, false, ◌||◌, inl, inr, Bool-cases,
}
use shardstore.Common.{Bytes, [], ◌∷◌, ◌++◌, codes, length, str_eq, ℤ, pos}
use shardstore.Common.Search.{has_prefix}
use shardstore.Errors.{Result, ok, err, object_not_found}
use shardstore.Ec.ReedSolomon.{Engine}
use shardstore.Ec.Created.{IsScheme}
use shardstore.Storage.ShardStore.{ShardStore, IsShardStore}
use shardstore.Storage.Object.{ObjectStore, get_object}
use shardstore.Storage.Recovery.Putting.{store_of, stripes_of}
use shardstore.Storage.Recovery.RoundTrip.{HasNoShards}
use shardstore.Api.Paths.{slash, object_id, bucket_marker_id, validate_bucket_name}
use shardstore.Api.Http.{
  Request, Writer, new_writer, raw, etag, write, write_header, set_header, with_request_id,
}
use shardstore.Api.Names.{IsSegment, object_id-validate_bucket_name, valid_chars}
use shardstore.Api.Buckets.{handle_create_bucket}
use shardstore.Api.Objects.{size_headers, handle_put_object, handle_get_object}
use shardstore.Api.Responses.{IsObjectPath, put_reply, get_reply}
use shardstore.Api.Lifecycle.{create_new}
use shardstore.Api.Server.{
  Surroundings, is_dots, route, dispatch, bucket_route, object_route, serve_mux, auth, serve_http,
  request_id_of,
}
use shardstore.Api.NewObject.{stored}
use shardstore.Api.Server.Routing.{route_lem, route_bucket}

-- A request with its Authorization header, its own id, and the id that is generated for it.
pub record Incoming : Type 0 where
  pub header : Bytes
  pub given : Bytes
  pub generated : Bytes
  pub request : Request

-- What the middleware has done to the response when the handler gets it.
abbrev pub with_id : Incoming → Writer
with_id c = set_header "X-Request-Id" (request_id_of c.given c.generated) new_writer

-- The request with its context.
abbrev its_request : Incoming → Request
its_request c = with_request_id (request_id_of c.given c.generated) c.request

abbrev pub IsLetIn : Bool → Incoming → Type 0
IsLetIn permissive c = (permissive || has_prefix c.header (codes "AWS4-HMAC-SHA256 ")) ≡ true

not_empty :
    (header : Bytes)
    → has_prefix header (codes "AWS4-HMAC-SHA256 ") ≡ true
    → str_eq header [] ≡ false
unfolding has_prefix str_eq
not_empty [] h = absurd (cc h)
not_empty (c ∷ header) h = refl

module _ {S : Type 0} (st : ShardStore S) (new_engine : ℤ → ℤ → Result Engine) (o : ObjectStore)
    (x : Surroundings) (permissive : Bool) where
  abbrev pub serve : Incoming → S → Writer × S
  serve c s =
      serve_http st new_engine o x permissive c.header c.given c.generated new_writer c.request s

  serve-route :
      (c : Incoming) (s : S)
      → IsLetIn permissive c
      → serve c s
        ≡ dispatch st new_engine o x
            (route c.request.method c.request.path)
            (with_id c)
            (its_request c)
            s
  unfolding serve_http auth serve_mux
  serve-route c s pass = elim (Bool-cases permissive) [
    | inl e ↦ rw e refl
    | inr strict ↦
        let named : has_prefix c.header (codes "AWS4-HMAC-SHA256 ") ≡ true =
          ground (arith, pass, strict) in
        elim (Bool-cases (str_eq c.request.path (codes "/_internal/health/check"))) [
          | inl health ↦ rw (strict, health) refl
          | inr other ↦ rw (strict, other, not_empty c.header named, named) refl
        ]
  ]

  -- The routes of the three requests.
  serve_bucket :
      (c : Incoming) (s : S) (b : Bytes)
      → IsLetIn permissive c
      → c.request.method ≡ codes "PUT"
      → c.request.path ≡ slash ∷ b
      → validate_bucket_name b ≡ ok tt
      → serve c s ≡ handle_create_bucket st new_engine o (with_id c) (its_request c) s
  unfolding bucket_route str_eq
  serve_bucket c s b pass method path valid =
      serve-route c s pass ∙ rw (method, path, route_bucket (codes "PUT") b valid) refl

  module _ (c : Incoming) (s : S) (b k : Bytes) (pass : IsLetIn permissive c)
      (path : c.request.path ≡ slash ∷ object_id b k) (valid : validate_bucket_name b ≡ ok tt)
      (segment : IsSegment k) (some_k : str_eq k [] ≡ false) (no_dots : is_dots k ≡ false) where
    serve_put :
        c.request.method ≡ codes "PUT"
        → serve c s ≡ handle_put_object st new_engine o (with_id c) (its_request c) s
    unfolding object_route str_eq
    serve_put method =
        serve-route c s pass
        ∙ rw (method, path, route_lem (codes "PUT") b k valid segment some_k no_dots) refl

    serve_get :
        c.request.method ≡ codes "GET"
        → serve c s ≡ handle_get_object st new_engine o x.sizes x.fuel (with_id c) (its_request c) s
    unfolding object_route str_eq
    serve_get method =
        serve-route c s pass
        ∙ rw (method, path, route_lem (codes "GET") b k valid segment some_k no_dots) refl

-- The name of a bucket and of an object that the routes lead to.
pub record IsObjectName (b ob : Bytes) : Type 0 where
  pub valid : validate_bucket_name b ≡ ok tt
  pub segment : IsSegment ob
  pub some_key : str_eq ob [] ≡ false
  pub no_dots : is_dots ob ≡ false

length_pos : (xs : Bytes) → str_eq xs [] ≡ false → 1 ≤ length xs
unfolding str_eq
length_pos [] h = absurd (cc h)
length_pos (c ∷ xs) h = omega arith

IsObjectPath-IsObjectName :
    (p b ob : Bytes) → p ≡ slash ∷ object_id b ob → IsObjectName b ob → IsObjectPath p b ob
IsObjectPath-IsObjectName p b ob path name = record {
  path_eq = path;
  bucket = (object_id-validate_bucket_name b ob name.valid).0;
  object = name.segment;
  bucket_pos = omega (arith, (valid_chars b name.valid).0);
  object_pos = length_pos ob name.some_key;
}

module _ {S : Type 0} (sha256 : Bytes → Bytes) (st : ShardStore S) (law : IsShardStore sha256 st)
    (new_engine : ℤ → ℤ → Result Engine) (k m : ℕ) (w : IsScheme new_engine k m) (size : ℕ)
    (positive : 1 ≤ size) where
  -- Over a store that keeps the contract, a scheme for which the library keeps its documentation, and
  -- stripes of at least one byte: let three requests be made of a server, one after the other, each of which
  -- has an Authorization header that begins with "AWS4-HMAC-SHA256 ", or none is needed. A PUT of
  -- /b, for a valid bucket name b whose marker is not there, is answered with status 200; then a PUT of
  -- /b/k that announces as many bytes as `d` has, and has `d` at the front of its body, with status 200 and the
  -- ETag of that number; and then a GET of /b/k without a range with status 200 and the body `d`, and the
  -- store is not changed by it. Each response has the request's id, or the one that was generated. The key k is a
  -- segment that is neither empty nor one of dots, and neither the bucket's marker nor the object has
  -- shards before; `d` is shorter than 2 ^ 63 bytes and makes fewer than 2 ^ 32 stripes.
  pub serve-serve :
      (x : Surroundings) (permissive : Bool) (create put get : Incoming) (b ob d rest : Bytes)
      (s : S)
      → IsLetIn permissive create
      → IsLetIn permissive put
      → IsLetIn permissive get
      → IsObjectName b ob
      → create.request.method ≡ codes "PUT"
      → create.request.path ≡ slash ∷ b
      → put.request.method ≡ codes "PUT"
      → put.request.path ≡ slash ∷ object_id b ob
      → put.request.content_length ≡ pos (length d)
      → put.request.body ≡ d ++ rest
      → get.request.method ≡ codes "GET"
      → get.request.path ≡ slash ∷ object_id b ob
      → get.request.range ≡ []
      → HasNoShards st (bucket_marker_id b) s
      → get_object st new_engine (store_of k m size) s (bucket_marker_id b) ≡ err object_not_found
      → HasNoShards st (object_id b ob) s
      → length d < 2 ^ 63
      → length (stripes_of size d) < 2 ^ 32
      → ((i : ℕ) → 1 ≤ x.sizes i)
      → length d < x.fuel
      → (s₁ : S) × (s₂ : S) × (serve st new_engine (store_of k m size) x permissive create s
          ≡ (write_header 200 (with_id create), s₁))
        × (serve st new_engine (store_of k m size) x permissive put s₁
            ≡ (write_header 200 (set_header "ETag" (etag (pos (length d))) (with_id put)), s₂))
        × (serve st new_engine (store_of k m size) x permissive get s₂
            ≡ (write (raw d) (size_headers (pos (length d)) (write_header 200 (with_id get))), s₂))
  serve-serve x permissive create put get b ob d rest s in_c in_p in_g name c_method c_path p_method
        p_path len front g_method g_path whole no_bucket missing no_object small few some_room
        enough =
      let o = store_of k m size in
      let (s₁, s₂, t) =
        stored sha256 st law new_engine k m w size positive x.sizes some_room x.fuel b ob d rest s
          name.valid no_bucket no_object small few enough in
      let p_name = IsObjectPath-IsObjectName put.request.path b ob p_path name in
      let g_name = IsObjectPath-IsObjectName get.request.path b ob g_path name in
      (
        s₁,
        s₂,
        serve_bucket st new_engine o x permissive create s b in_c c_method c_path name.valid
            ∙ create_new st new_engine o (its_request create) b c_path name.valid (with_id create) s
                s₁ missing t.bucket,
        serve_put st new_engine o x permissive put s₁ b ob in_p p_path name.valid name.segment
              name.some_key name.no_dots p_method
            ∙ put_reply st new_engine o (its_request put) b ob p_name (with_id put) s₁ s₂ (length d)
                (t.bucket_body, pos 0) len t.found (rw front t.object),
        serve_get st new_engine o x permissive get s₂ b ob in_g g_path name.valid name.segment
              name.some_key name.no_dots g_method
            ∙ get_reply st new_engine o (its_request get) b ob g_name (with_id get) s₂ x.sizes
                x.fuel t.body (pos (length d)) d (t.later_body, pos 0) whole t.still t.got t.all,
      )
