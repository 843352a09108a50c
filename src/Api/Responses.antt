-- ===== src/Api/Responses.antt =====
-- What the handlers answer, and what they do to the store.
use shardstore.Common.{
  ℕ, ◌+◌, ◌^◌, ◌≤◌, ◌<◌, ◌≡◌, refl, sym, ap, ◌∙◌, arith, ◌==◌, ◌||◌, false, Bytes, [], ◌∷◌, ◌++◌,
  codes, ℤ, pos, length, some, ltb, length-append,
}
use shardstore.Common.Assoc.{insert}
use shardstore.Errors.{Result, ok, err, object_not_found, is_object_not_found}
use shardstore.Ec.ReedSolomon.{Engine}
use shardstore.Ec.Created.{IsScheme}
use shardstore.Storage.ShardStore.{ShardStore, IsShardStore}
use shardstore.Storage.Object.{ObjectStore, Body, put_object, get_object, read_body}
use shardstore.Storage.Recovery.Shards.{count_ok}
use shardstore.Storage.Recovery.Putting.{store_of, stripes_of}
use shardstore.Storage.Recovery.Damage.{IsDamaged}
use shardstore.Storage.Recovery.RoundTrip.{HasNoShards}
use shardstore.Storage.Recovery.Objects.{get_object-put_object, read_marker-put_object}
use shardstore.Api.Paths.{parse_path_values, bucket_marker_id, object_id, slash}
use shardstore.Api.Http.{
  Request, Writer, new_writer, raw, write_xml_error, etag, write, write_header, set_header,
}
use shardstore.Api.Names.{IsSegment, parse_path_values_lem}
use shardstore.Api.Objects.{
  handle_put_object, handle_get_object, handle_head_object, handle_delete_object, size_headers,
}

-- The path of an object, with both parts there.
pub record IsObjectPath (path b o : Bytes) : Type 0 where
  pub path_eq : path ≡ slash ∷ object_id b o
  pub bucket : IsSegment b
  pub object : IsSegment o
  pub bucket_pos : 1 ≤ length b
  pub object_pos : 1 ≤ length o

module _ (p b ob : Bytes) (path : IsObjectPath p b ob) where
  parsed : parse_path_values p ≡ (b, ob)
  parsed = rw path.path_eq ((parse_path_values_lem b ob path.bucket path.object).1)

  parts_present : ((length b == 0) || (length ob == 0)) ≡ false
  parts_present = ground (arith, path.bucket_pos, path.object_pos)

-- The handlers of objects where the bucket's marker is not there.
pub object_no_bucket :
    {S : Type 0} (st : ShardStore S) (new_engine : ℤ → ℤ → Result Engine) (o : ObjectStore)
    (sizes : ℕ → ℕ) (fuel : ℕ) (w : Writer) (r : Request) (s : S) (b ob : Bytes)
    → IsObjectPath r.path b ob
    → get_object st new_engine o s (bucket_marker_id b) ≡ err object_not_found
    → (handle_put_object st new_engine o w r s
        ≡ (write_xml_error 404 "NoSuchBucket" "Bucket does not exist" r w, s))
      × (handle_get_object st new_engine o sizes fuel w r s
          ≡ (write_xml_error 404 "NoSuchBucket" "Bucket does not exist" r w, s))
      × (handle_head_object st new_engine o w r s
          ≡ (write_xml_error 404 "NoSuchBucket" "Bucket does not exist" r w, s))
      × (handle_delete_object st new_engine o w r s
          ≡ (write_xml_error 404 "NoSuchBucket" "Bucket does not exist" r w, s))
unfolding handle_put_object handle_get_object handle_head_object handle_delete_object
    is_object_not_found
object_no_bucket st new_engine o sizes fuel w r s b ob path h =
    let p = parsed r.path b ob path in
    let q = parts_present r.path b ob path in
    (rw (p, q, h) refl, rw (p, q, h) refl, rw (p, q, h) refl, rw (p, q, h) refl)

module _ {S : Type 0} (st : ShardStore S) (new_engine : ℤ → ℤ → Result Engine) (o : ObjectStore)
    (r : Request) (b ob : Bytes) (path : IsObjectPath r.path b ob) (w : Writer) where
  -- The handlers where the bucket is there and the store does what it is asked.
  pub put_reply :
      (s s' : S) (n : ℕ) (x : Body × ℤ)
      → r.content_length ≡ pos n
      → get_object st new_engine o s (bucket_marker_id b) ≡ ok x
      → put_object st new_engine o s (object_id b ob) r.body (pos n) ≡ (ok tt, s')
      → handle_put_object st new_engine o w r s
        ≡ (write_header 200 (set_header "ETag" (etag (pos n)) w), s')
  unfolding handle_put_object
  put_reply s s' n x len there put =
      let signed : ltb (n + 0) (0 + 0) ≡ false = ground arith in
      rw (parsed r.path b ob path, parts_present r.path b ob path, there, len, signed, put) refl

  pub get_reply :
      (s : S) (sizes : ℕ → ℕ) (fuel : ℕ) (body : Body) (size : ℤ) (d : Bytes) (x : Body × ℤ)
      → r.range ≡ []
      → get_object st new_engine o s (bucket_marker_id b) ≡ ok x
      → get_object st new_engine o s (object_id b ob) ≡ ok (body, size)
      → read_body st sizes fuel s body ≡ (d, ok tt)
      → handle_get_object st new_engine o sizes fuel w r s
        ≡ (write (raw d) (size_headers size (write_header 200 w)), s)
  unfolding handle_get_object
  get_reply s sizes fuel body size d x whole there got all =
      rw (parsed r.path b ob path, parts_present r.path b ob path, there, got, whole, all) refl

  head_reply :
      (s : S) (body : Body) (size : ℤ) (x : Body × ℤ)
      → get_object st new_engine o s (bucket_marker_id b) ≡ ok x
      → get_object st new_engine o s (object_id b ob) ≡ ok (body, size)
      → handle_head_object st new_engine o w r s ≡ (write_header 200 (size_headers size w), s)
  unfolding handle_head_object
  head_reply s body size x there got =
      rw (parsed r.path b ob path, parts_present r.path b ob path, there, got) refl

module _ {S : Type 0} (sha256 : Bytes → Bytes) (st : ShardStore S) (law : IsShardStore sha256 st)
    (new_engine : ℤ → ℤ → Result Engine) (k m : ℕ) (w : IsScheme new_engine k m) (size : ℕ)
    (positive : 1 ≤ size) where
  -- Over a store that keeps the contract, a scheme for which the library keeps its documentation,
  -- and stripes of at least one byte: let
  -- a bucket exist and an object's id have no shards. Then a PUT of the object that announces
  -- as many bytes as `d` has, and has `d` at the front of its body, is answered with status 200 and the ETag of
  -- that number as the one header. If k shards of each stripe are left afterwards and the bucket still exists,
  -- then a GET of the same path without a range is answered with status 200 and the body `d`, but with
  -- no headers (they are set after the status was sent), and a HEAD with status 200 and the headers
  -- of the size of `d`; neither changes the store. `d` is shorter than 2 ^ 63 bytes and makes fewer
  -- than 2 ^ 32 stripes.
  pub handle_get_object-handle_put_object :
      (s₀ s₁ s : S) (pr gr : Request) (reply : Writer) (b ob d rest : Bytes) (x y : Body × ℤ)
      → IsObjectPath pr.path b ob
      → IsObjectPath gr.path b ob
      → gr.range ≡ []
      → pr.content_length ≡ pos (length d)
      → pr.body ≡ d ++ rest
      → get_object st new_engine (store_of k m size) s₀ (bucket_marker_id b) ≡ ok x
      → HasNoShards st (object_id b ob) s₀
      → length d < 2 ^ 63
      → length (stripes_of size d) < 2 ^ 32
      → handle_put_object st new_engine (store_of k m size) new_writer pr s₀ ≡ (reply, s₁)
      → IsDamaged st (object_id b ob) s₁ s
      → ((i : ℕ) → i < length (stripes_of size d) → k ≤ count_ok st (object_id b ob) i s (k + m) 0)
      → get_object st new_engine (store_of k m size) s (bucket_marker_id b) ≡ ok y
      → (sizes : ℕ → ℕ) → ((i : ℕ) → 1 ≤ sizes i)
      → (fuel : ℕ) → length d < fuel
      → (reply.sent ≡ some (200, (codes "ETag", etag (pos (length d))) ∷ []))
        × (handle_get_object st new_engine (store_of k m size) sizes fuel new_writer gr s
            ≡ (write (raw d) (size_headers (pos (length d)) (write_header 200 new_writer)), s))
        × ((handle_get_object st new_engine (store_of k m size) sizes fuel new_writer gr s).0.sent
            ≡ some (200, []))
        × (handle_head_object st new_engine (store_of k m size) new_writer gr s
            ≡ (write_header 200 (size_headers (pos (length d)) new_writer), s))
  unfolding insert
  handle_get_object-handle_put_object s₀ s₁ s pr gr reply b ob d rest x y pput pget whole len front
        there fresh small few answered damage left still sizes some_room fuel enough =
      let o = store_of k m size in
      let hid : 1 ≤ length (object_id b ob) = omega (arith, length-append b (slash ∷ ob)) in
      let (s', put, marker) =
        read_marker-put_object sha256 st law new_engine k m w size positive s₀ (object_id b ob) d
          rest hid few in
      let reply_eq =
        put_reply st new_engine o pr b ob pput new_writer s₀ s' (length d) x len there
          (rw front put) in
      let same : s' ≡ s₁ = ap (λ t. t.1) (sym reply_eq ∙ answered) in
      let put₁ : put_object st new_engine o s₀ (object_id b ob) (d ++ rest) (pos (length d))
          ≡ (ok tt, s₁) =
        rw same at put in
      let (body, got, all) =
        get_object-put_object sha256 st law new_engine k m w size positive s₀ s₁ s (object_id b ob)
          d rest hid fresh small few put₁ damage left sizes some_room fuel enough in
      let reply_get =
        get_reply st new_engine o gr b ob pget new_writer s sizes fuel body (pos (length d)) d y
          whole still got all in
      (
        ap (λ t. t.0.sent) (sym answered ∙ reply_eq),
        reply_get,
        ap (λ t. t.0.sent) reply_get,
        head_reply st new_engine o gr b ob pget new_writer s body (pos (length d)) y still got,
      )
