-- ===== src/Api/Completed.antt =====
-- A multipart upload that is completed, and what is left of it.
use shardstore.Common.{
  ℕ, ◌^◌, ◌≤◌, ◌<◌, ◌≡◌, ◌≢◌, refl, sym, ap, ◌∙◌, arith, true, String, ℤ, pos, Bytes, List, [], ◌∷◌,
  ◌++◌, codes, length, length-append, All, All-map, concat, map, Option, some,
}
use shardstore.Common.Search.{has_prefix, has_prefix-append}
use shardstore.Errors.{
  Result, ok, err, panic, shard_not_found, corrupt_shard, object_not_found, unrecoverable, eof,
  out_of_fuel, message, wrap,
}
use shardstore.Ec.ReedSolomon.{Engine}
use shardstore.Ec.Created.{IsScheme}
use shardstore.Storage.ShardStore.{ShardStore, IsShardStore}
use shardstore.Storage.Object.{ObjectStore, Body, put_object, get_object, delete_object, read_body}
use shardstore.Storage.Recovery.Putting.{store_of, stripes_of}
use shardstore.Storage.Recovery.RoundTrip.{HasNoShards}
use shardstore.Storage.Recovery.Kept.{get_kept}
use shardstore.Storage.Recovery.Objects.{IsPut-put_object, read_marker-put_object}
use shardstore.Storage.Recovery.Cleanup.{
  ListsOnce, IsKept, delete_all, put_object-good, delete_all-IsAbsent, delete_all-IsKept,
  get_object-IsAbsent,
}
use shardstore.Api.Paths.{object_id, slash, validate_bucket_name}
use shardstore.Api.Names.{object_id-validate_bucket_name}
use shardstore.Api.Http.{Request, Writer, write_xml, upload_completed, etag}
use shardstore.Api.Multipart.{
  upload_marker_id, part_marker_id, after_part, read_parts, delete_parts, complete_upload,
}
use mathlib.Core.Path.{subst}
use mathlib.Core.List.{append-nil, append_assoc}

-- The ids of the parts of an upload, and of its marker.
abbrev pub upload_ids : Bytes → Bytes → List ℤ → List Bytes
upload_ids id upload ns = map (part_marker_id id upload) ns ++ upload_marker_id id upload ∷ []

-- What holds of all ids below __multipart__/ holds of these.
All-upload_ids :
    (P : Bytes → Type 0) (id upload : Bytes)
    → ((rest : Bytes) → P (codes "__multipart__/" ++ rest))
    → (ns : List ℤ) → All P (upload_ids id upload ns)
All-upload_ids P id upload h [] = (h _, tt)
All-upload_ids P id upload h (n ∷ ns) = (h _, All-upload_ids P id upload h ns)

module _ {S : Type 0} (st : ShardStore S) (new_engine : ℤ → ℤ → Result Engine)
    (unmarshal : Bytes → Option (List ℤ)) (atoi : Bytes → Option ℤ) (o : ObjectStore)
    (sizes : ℕ → ℕ) (fuel : ℕ) where
  -- Part number `n` is there, and reading it gives `bytes`, with whatever error but a panic.
  pub record GivesPart (id upload : Bytes) (s : S) (bytes : ℤ → Bytes) (n : ℤ) : Type 0 where
    pub body : Body
    pub size : ℤ
    pub outcome : Result (Unit {0})
    pub opened : get_object st new_engine o s (part_marker_id id upload n) ≡ ok (body, size)
    pub read : read_body st sizes fuel s body ≡ (bytes n, outcome)
    pub no_panic : (t : String) → outcome ≢ err (panic t)

  after_part_lem :
      (bytes : Bytes) (x : Result (Unit {0})) (rest : Bytes → Result Bytes)
      → ((t : String) → x ≢ err (panic t))
      → after_part (bytes, x) rest ≡ rest bytes
  after_part_lem bytes (ok u) rest h = refl
  after_part_lem bytes (err (panic t)) rest h = absurd (h t refl)
  after_part_lem bytes (err shard_not_found) rest h = refl
  after_part_lem bytes (err corrupt_shard) rest h = refl
  after_part_lem bytes (err object_not_found) rest h = refl
  after_part_lem bytes (err unrecoverable) rest h = refl
  after_part_lem bytes (err eof) rest h = refl
  after_part_lem bytes (err out_of_fuel) rest h = refl
  after_part_lem bytes (err (message t)) rest h = refl
  after_part_lem bytes (err (wrap t e)) rest h = refl

  read_parts_lem :
      (id upload full : Bytes) (s : S) (bytes : ℤ → Bytes) (ns : List ℤ)
      → All (GivesPart id upload s bytes) ns
      → read_parts st new_engine unmarshal atoi o sizes fuel id upload ns full s
        ≡ ok (full ++ concat (map bytes ns))
  unfolding read_parts
  read_parts_lem id upload full s bytes [] t = ap ok (sym (append-nil full))
  read_parts_lem id upload full s bytes (n ∷ ns) (p, t) =
      let rest = λ (b : Bytes).
        read_parts st new_engine unmarshal atoi o sizes fuel id upload ns (full ++ b) s in
      rw (p.opened, p.read) (after_part_lem (bytes n) p.outcome rest p.no_panic)
      ∙ read_parts_lem id upload (full ++ bytes n) s bytes ns t
      ∙ ap ok (append_assoc full (bytes n) (concat (map bytes ns)))

  delete_all-upload_ids :
      (id upload : Bytes) (ns : List ℤ) (s : S)
      → (delete_object st
          (delete_parts st new_engine unmarshal atoi o sizes fuel id upload ns s)
          (upload_marker_id id upload)).1
        ≡ delete_all st (upload_ids id upload ns) s
  unfolding delete_parts delete_all
  delete_all-upload_ids id upload [] s = refl
  delete_all-upload_ids id upload (n ∷ ns) s = delete_all-upload_ids id upload ns _

-- No id of an object is one of them.
object_id-multipart :
    (b ob rest : Bytes)
    → validate_bucket_name b ≡ ok tt
    → object_id b ob ≢ codes "__multipart__/" ++ rest
object_id-multipart b ob rest valid same =
    let reserved : has_prefix (codes "__multipart__/" ++ rest) (codes "__multipart__/") ≡ true =
      has_prefix-append (codes "__multipart__/") rest in
    let object = (object_id-validate_bucket_name b ob valid).2 in
    absurd (cc (ap (λ id. has_prefix id (codes "__multipart__/")) same, reserved, object))

module _ {S : Type 0} (sha256 : Bytes → Bytes) (st : ShardStore S) (law : IsShardStore sha256 st)
    (new_engine : ℤ → ℤ → Result Engine) (k m : ℕ) (w : IsScheme new_engine k m) (size : ℕ)
    (positive : 1 ≤ size) (good : S → Type 0) (once : ListsOnce st good) where
  -- Over a store that keeps the contract, with a property of its states that every call keeps and in which no
  -- listing of an object names a shard twice, a scheme for which the library keeps its documentation, and
  -- stripes of at least one byte: let the request's body list parts of an upload to /b/k, for a valid bucket name b,
  -- that are all there and each of which gives some bytes when it is read, to the end or to an error
  -- that is no panic; and let /b/k have no shards. Then completing the upload answers with status 200 and the
  -- ETag of the number of all these bytes. In the store that it leaves, the object is read whole and is these
  -- bytes, one part after the other, also where the reading of a part ended with an error; and there is no
  -- part that was listed any more, nor the upload's marker. All the bytes are fewer than 2 ^ 63 and make fewer
  -- than 2 ^ 32 stripes.
  pub get_object-complete_upload :
      (unmarshal : Bytes → Option (List ℤ)) (atoi : Bytes → Option ℤ) (sizes : ℕ → ℕ) (fuel : ℕ)
      (wr : Writer) (r : Request) (b ob upload : Bytes) (s : S) (bytes : ℤ → Bytes) (ns : List ℤ)
      → good s
      → validate_bucket_name b ≡ ok tt
      → unmarshal r.body ≡ some ns
      → All
          (GivesPart st new_engine unmarshal atoi
            (store_of k m size)
            sizes
            fuel
            (object_id b ob)
            upload
            s
            bytes)
          ns
      → HasNoShards st (object_id b ob) s
      → length (concat (map bytes ns)) < 2 ^ 63
      → length (stripes_of size (concat (map bytes ns))) < 2 ^ 32
      → ((i : ℕ) → 1 ≤ sizes i)
      → length (concat (map bytes ns)) < fuel
      → (s' : S) × (complete_upload st new_engine unmarshal atoi
            (store_of k m size)
            sizes
            fuel
            wr
            r
            b
            ob
            upload
            s
          ≡ (
            write_xml 200
                (upload_completed (record {
                  location = slash ∷ object_id b ob;
                  bucket = b;
                  key = ob;
                  etag = etag (pos (length (concat (map bytes ns))));
                }))
                wr,
            s',
          ))
        × ((body : Body) × (get_object st new_engine (store_of k m size) s' (object_id b ob)
              ≡ ok (body, pos (length (concat (map bytes ns)))))
            × (read_body st sizes fuel s' body ≡ (concat (map bytes ns), ok tt)))
        × All
            (λ id. get_object st new_engine (store_of k m size) s' id ≡ err object_not_found)
            (upload_ids (object_id b ob) upload ns)
  unfolding complete_upload
  get_object-complete_upload unmarshal atoi sizes fuel wr r b ob upload s bytes ns g valid listed
        given fresh small few some_room enough =
      let o = store_of k m size in
      let id = object_id b ob in
      let d = concat (map bytes ns) in
      let ids = upload_ids id upload ns in
      let reply =
        write_xml 200
          (upload_completed
            (record { location = slash ∷ id; bucket = b; key = ob; etag = etag (pos (length d)) }))
          wr in
      let named : 1 ≤ length id = omega (arith, length-append b (slash ∷ ob)) in
      let (s₁, put, marked) =
        read_marker-put_object sha256 st law new_engine k m w size positive s id d [] named few in
      let stored =
        IsPut-put_object sha256 st law new_engine k m w size positive s s₁ id d [] named few put in
      let g₁ : good s₁ =
        subst good (ap (λ t. t.1) put)
          (put_object-good st good once new_engine o s id (d ++ []) (pos (length d)) g) in
      let s' = delete_all st ids s₁ in
      let kept : IsKept st id s₁ s' =
        delete_all-IsKept st good once sha256 law new_engine o ids s₁ id
          (All-upload_ids _ id upload (λ rest. (omega arith, object_id-multipart b ob rest valid))
            ns)
          g₁ in
      let gone =
        delete_all-IsAbsent st good once sha256 law new_engine o ids s₁
          (All-upload_ids _ id upload (λ rest. omega arith) ns) g₁ in
      let whole : put_object st new_engine o s id d (pos (length d)) ≡ (ok tt, s₁) =
        subst (λ t. put_object st new_engine o s id t (pos (length d)) ≡ (ok tt, s₁)) (append-nil d)
          put in
      (
        s',
        rw
            (
              listed,
              read_parts_lem st new_engine unmarshal atoi o sizes fuel id upload [] s bytes ns
                  given,
              whole,
            )
            (ap (λ t. (reply, t))
              (delete_all-upload_ids st new_engine unmarshal atoi o sizes fuel id upload ns s₁)),
        get_kept sha256 st law new_engine k m w size positive id d s s₁ s' named fresh stored
            kept.shards kept.marker few small sizes some_room fuel enough,
        All-map (λ i x. get_object-IsAbsent sha256 st law new_engine o i s' x.0 x.1) ids gone,
      )
