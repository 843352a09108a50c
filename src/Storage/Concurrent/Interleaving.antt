-- ===== src/Storage/Concurrent/Interleaving.antt =====
-- Two sequences of calls, interleaved call by call in any order.
use shardstore.Common.{◌≡◌, refl, sym, ap, ◌∙◌}
use shardstore.Common.{Bytes, List, [], ◌∷◌, length, pos, All}
use shardstore.Errors.{Result, ok, and_then}
use shardstore.Storage.ShardStore.{ShardStore, IsShardStore}
use shardstore.Storage.ShardStore.Calls.{Call, put, delete, write, remove, call, calls}
use shardstore.Storage.Concurrent.Plan.{attempt, follow}
use shardstore.Storage.Concurrent.Separate.{
  IsCallFor, SameOn, SameOn-trans, call-SameOn_ne, call-SameOn,
}

-- The third list has the calls of the first two, each in its order.
pub data Interleaves : List Call → List Call → List Call → Type 0 where
  done : Interleaves [] [] []
  first :
      {c : Call} {xs ys zs : List Call} → Interleaves xs ys zs → Interleaves (c ∷ xs) ys (c ∷ zs)
  second :
      {c : Call} {xs ys zs : List Call} → Interleaves xs ys zs → Interleaves xs (c ∷ ys) (c ∷ zs)

pub Interleaves-swap : {xs ys zs : List Call} → Interleaves xs ys zs → Interleaves ys xs zs
Interleaves-swap done = done
Interleaves-swap (first r) = second (Interleaves-swap r)
Interleaves-swap (second r) = first (Interleaves-swap r)

pub All-Interleaves :
    (P : Call → Type 0) {xs ys zs : List Call}
    → Interleaves xs ys zs
    → All P xs
    → All P ys
    → All P zs
All-Interleaves P done h h' = tt
All-Interleaves P (first r) (p, h) h' = (p, All-Interleaves P r h h')
All-Interleaves P (second r) h (p, h') = (p, All-Interleaves P r h h')

-- A call of an upload to the object: a shard with a header that agrees with it, or the marker.
abbrev pub IsUpload : Bytes → Call → Type 0
IsUpload id (put k h d) =
    (k.object_id ≡ id) × (k.object_id ≡ h.object_id) × (h.data_len ≡ pos (length d))
IsUpload id (delete k) = ⊥
IsUpload id (write i meta) = i ≡ id
IsUpload id (remove i) = ⊥

pub IsUpload-IsCallFor : (id : Bytes) (c : Call) → IsUpload id c → IsCallFor (λ i. i ≡ id) c
IsUpload-IsCallFor id (put k h d) p = p
IsUpload-IsCallFor id (delete k) p = absurd p
IsUpload-IsCallFor id (write i meta) p = p
IsUpload-IsCallFor id (remove i) p = absurd p

pub IsUpload-IsCallFor_ne :
    (id id' : Bytes) → ¬ (id ≡ id') → (c : Call) → IsUpload id c → IsCallFor (λ i. ¬ (i ≡ id')) c
IsUpload-IsCallFor_ne id id' differ (put k h d) (own, same, len) =
    (λ e. differ (sym own ∙ e), same, len)
IsUpload-IsCallFor_ne id id' differ (delete k) p = absurd p
IsUpload-IsCallFor_ne id id' differ (write i meta) own = λ e. differ (sym own ∙ e)
IsUpload-IsCallFor_ne id id' differ (remove i) p = absurd p

module _ {S : Type 0} (sha256 : Bytes → Bytes) (st : ShardStore S)
    (law : IsShardStore sha256 st) where
  -- Calls for other objects in between change nothing for an object.
  pub calls-SameOn :
      (id : Bytes) {xs ys zs : List Call} (r : Interleaves xs ys zs) (s t : S)
      → All (IsCallFor (λ i. i ≡ id)) xs
      → All (IsCallFor (λ i. ¬ (i ≡ id))) ys
      → SameOn sha256 st law id s t
      → SameOn sha256 st law id (calls st s zs).1 (calls st t xs).1
  unfolding calls
  calls-SameOn id done s t h h' a = a
  calls-SameOn id (first {c} r) s t (own, h) h' a =
      calls-SameOn id r (call st s c).1 (call st t c).1 h h'
        (call-SameOn sha256 st law id c s t own a)
  calls-SameOn id (second {c} r) s t h (other, h') a = calls-SameOn id r (call st s c).1 t h h' (
      SameOn-trans sha256 st law id (call st s c).1 s t (call-SameOn_ne sha256 st law id c s other)
        a)

  upload_ok : (id : Bytes) (c : Call) (s : S) → IsUpload id c → (call st s c).0 ≡ ok tt
  upload_ok id (put k h d) s (own, same, len) = law.put_ok s k h d same len
  upload_ok id (delete k) s p = absurd p
  upload_ok id (write i meta) s p = law.write_marker_ok s i meta
  upload_ok id (remove i) s p = absurd p

  -- The calls of uploads succeed.
  pub calls_ok :
      (P : Call → Type 0)
      → ((c : Call) → P c → (id : Bytes) × IsUpload id c)
      → (zs : List Call) (s : S) → All P zs
      → All (λ r. r ≡ ok tt) (calls st s zs).0
  unfolding calls
  calls_ok P f [] s h = tt
  calls_ok P f (c ∷ zs) s (p, h) =
      let (id, up) = f c p in (upload_ok id c s up, calls_ok P f zs (call st s c).1 h)

  attempt-upload :
      (id : Bytes) (c : Call) (s : S) → IsUpload id c → attempt st s c ≡ (ok tt, (call st s c).1)
  attempt-upload id (put k h d) s (own, same, len) = rw (law.put_ok s k h d same len) refl
  attempt-upload id (delete k) s p = absurd p
  attempt-upload id (write i meta) s p =
      ap (λ r. (r, (st.write_marker s i meta).1)) (law.write_marker_ok s i meta)
  attempt-upload id (remove i) s p = absurd p

  -- A plan for an upload is carried out to its end.
  pub follow-calls :
      {A : Type 0} (id : Bytes) (cs : List Call) (end : Result A) (s : S)
      → All (IsUpload id) cs
      → follow st cs end s ≡ (end, (calls st s cs).1)
  unfolding follow calls
  follow-calls id [] end s h = refl
  follow-calls id (c ∷ cs) end s (up, h) =
      ap (λ t. and_then t (λ _ s'. follow st cs end s')) (attempt-upload id c s up)
      ∙ follow-calls id cs end (call st s c).1 h
