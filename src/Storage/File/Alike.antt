-- ===== src/Storage/File/Alike.antt =====
-- Plans of calls carried out on a `FileStore` and on a `MemStore`.
use shardstore.Common.{◌≡◌, refl, sym, ap, ◌∙◌, arith, true, false, ◌&&◌, inl, inr, Bool-cases}
use shardstore.Common.{String, Bytes, List, [], ◌∷◌, length, All, str_eq, str_eq_iff}
use shardstore.Errors.{Result, ok, err, and_then, wrap_step}
use shardstore.Storage.Header.{ShardKey, ShardHeader}
use shardstore.Storage.ShardStore.{beq_key, beq_key_iff, is_there}
use shardstore.Storage.Mem
use shardstore.Storage.Mem.{MemStore, new_mem_store, mem_store, eq_len}
use shardstore.Storage.Mem.Laws.{mem_store-IsShardStore}
use shardstore.Storage.File.{FileStore, new_file_store, file_store}
use shardstore.Storage.File.Paths.{IsApart, IsKey}
use shardstore.Storage.File.Consistency.{eq_len→eq}
use shardstore.Storage.ShardStore.Calls.{Call, put, delete, write, remove, call, calls}
use shardstore.Storage.File.Calls.{IsCall}
use shardstore.Storage.File.Refinement.{Agree, simulated, new-Agree}
use shardstore.Storage.Concurrent.Plan.{attempt, follow}

module _ (sha256 : Bytes → Bytes) (in_use : Bytes → Type 0) where
  -- The shards of the `MemStore` have keys that are in use.
  abbrev pub HasKeys : MemStore → Type 0
  HasKeys m = (k : ShardKey) → is_there ((mem_store sha256).get_shard m k) ≡ true → IsKey in_use k

  pub record Alike (s : FileStore) (m : MemStore) : Type 0 where
    pub agree : Agree sha256 in_use s m
    pub keys : HasKeys m

  put-HasKeys :
      (m : MemStore) (k : ShardKey) (h : ShardHeader) (d : Bytes)
      → IsKey in_use k
      → HasKeys m
      → HasKeys ((mem_store sha256).put_shard m k h d).1
  unfolding Mem.put_shard
  put-HasKeys m k h d hk keys = elim (Bool-cases (str_eq k.object_id h.object_id)) [
    | inr differ ↦ rw differ keys
    | inl same_id ↦ elim (Bool-cases (eq_len h.data_len (length d))) [
      | inr differ ↦ rw (same_id, differ) keys
      | inl same_len ↦
          let law = mem_store-IsShardStore sha256 in
          let id = (str_eq_iff k.object_id h.object_id).0 same_id in
          let len = eq_len→eq h.data_len (length d) same_len in
          λ j there. elim (Bool-cases (beq_key k j)) [
            | inl same ↦ rw (sym ((beq_key_iff k j).0 same)) hk
            | inr other ↦
                let got = law.get-put m k h d j id len in
                keys j (sym (ap is_there (got ∙ rw other refl)) ∙ there)
          ]
    ]
  ]

  call-HasKeys :
      (m : MemStore) (c : Call)
      → IsCall sha256 in_use c
      → HasKeys m
      → HasKeys (call (mem_store sha256) m c).1
  call-HasKeys m (put k h d) (hk, w) keys = put-HasKeys m k h d hk keys
  call-HasKeys m (delete k) hk keys = λ j there. elim (Bool-cases (beq_key k j)) [
    | inl same ↦ rw (sym ((beq_key_iff k j).0 same)) hk
    | inr other ↦
        let got = (mem_store-IsShardStore sha256).get-delete m k j in
        keys j (sym (ap is_there (got ∙ rw other refl)) ∙ there)
  ]
  call-HasKeys m (write id meta) w keys = λ j there.
      keys j
        (sym (ap is_there ((mem_store-IsShardStore sha256).get-write_marker m id meta j)) ∙ there)
  call-HasKeys m (remove id) w keys = λ j there.
      keys j (sym (ap is_there ((mem_store-IsShardStore sha256).get-remove_marker m id j)) ∙ there)

  pub new-Alike : Alike new_file_store new_mem_store
  unfolding Mem.get_shard shardstore.Common.Assoc.lookup
  new-Alike = record { agree = new-Agree sha256 in_use; keys = λ k there. absurd (cc there) }

  -- The same result, and stores that are alike again.
  abbrev pub Same : {A : Type 0} → Result A × FileStore → Result A × MemStore → Type 0
  Same x y = (x.0 ≡ y.0) × Alike x.1 y.1

  Same-and_then :
      {A B : Type 0} (x : Result A × FileStore) (y : Result A × MemStore)
      (f : A → FileStore → Result B × FileStore) (g : A → MemStore → Result B × MemStore)
      → Same x y
      → ((a : A) (s : FileStore) (m : MemStore) → Alike s m → Same (f a s) (g a m))
      → Same (and_then x f) (and_then y g)
  Same-and_then (ok a, s) (ok b, m) f g (e, h) k = let same : a ≡ b = cc e in rw same (k b s m h)
  Same-and_then (ok a, s) (err y, m) f g (e, h) k = absurd (cc e)
  Same-and_then (err x, s) (ok b, m) f g (e, h) k = absurd (cc e)
  Same-and_then (err x, s) (err y, m) f g (e, h) k = (let same : x ≡ y = cc e in rw same refl, h)

  Same-wrap_step :
      {A : Type 0} (t : String) (x : Result A × FileStore) (y : Result A × MemStore)
      → Same x y
      → Same (wrap_step t x) (wrap_step t y)
  Same-wrap_step t (ok a, s) (ok b, m) h = h
  Same-wrap_step t (ok a, s) (err y, m) (e, h) = absurd (cc e)
  Same-wrap_step t (err x, s) (ok b, m) (e, h) = absurd (cc e)
  Same-wrap_step t (err x, s) (err y, m) (e, h) = (let same : x ≡ y = cc e in rw same refl, h)

  module _ (apart : IsApart sha256 in_use) where
    pub call-Same :
        (c : Call) (s : FileStore) (m : MemStore)
        → Alike s m
        → IsCall sha256 in_use c
        → Same (call (file_store sha256) s c) (call (mem_store sha256) m c)
    call-Same c s m a w =
        let (same, agree) = simulated sha256 in_use apart s m a.agree c w in
        (same, record { agree = agree; keys = call-HasKeys m c w a.keys })

    attempt-Same :
        (c : Call) (s : FileStore) (m : MemStore)
        → Alike s m
        → IsCall sha256 in_use c
        → Same (attempt (file_store sha256) s c) (attempt (mem_store sha256) m c)
    attempt-Same (put k h d) s m a w = Same-wrap_step _ _ _ (call-Same (put k h d) s m a w)
    attempt-Same (delete k) s m a w = call-Same (delete k) s m a w
    attempt-Same (write id meta) s m a w = call-Same (write id meta) s m a w
    attempt-Same (remove id) s m a w = call-Same (remove id) s m a w

    pub follow-Same :
        {A : Type 0} (cs : List Call) (end : Result A) (s : FileStore) (m : MemStore)
        → Alike s m
        → All (IsCall sha256 in_use) cs
        → Same (follow (file_store sha256) cs end s) (follow (mem_store sha256) cs end m)
    unfolding follow
    follow-Same [] end s m a h = (refl, a)
    follow-Same (c ∷ cs) end s m a (w, h) =
        Same-and_then _ _ _ _ (attempt-Same c s m a w) (λ _ s' m' a'. follow-Same cs end s' m' a' h)

    pub calls-Same :
        (cs : List Call) (s : FileStore) (m : MemStore)
        → Alike s m
        → All (IsCall sha256 in_use) cs
        → Alike (calls (file_store sha256) s cs).1 (calls (mem_store sha256) m cs).1
    unfolding calls
    calls-Same [] s m a h = a
    calls-Same (c ∷ cs) s m a (w, h) = calls-Same cs _ _ (call-Same c s m a w).1 h
