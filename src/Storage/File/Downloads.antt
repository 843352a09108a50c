-- ===== src/Storage/File/Downloads.antt =====
-- `GetObject` and its reader, over a `FileStore` and over a `MemStore` that is like it.
use shardstore.Common.{
  ℕ, zero, suc, ◌+◌, ◌^◌, ◌<◌, ◌≡◌, refl, sym, ap, ◌∙◌, arith, Bool, true, inl, inr, Bool-cases,
}
use shardstore.Common.{Bytes}
use shardstore.Common.Assoc.{mem_key}
use shardstore.Errors.{err, shard_not_found, Result-cases}
use shardstore.Storage.Header.{ShardKey}
use shardstore.Storage.ShardStore.{ShardStore, key_eq}
use shardstore.Storage.Mem.{MemStore, mem_store}
use shardstore.Storage.Mem.Laws.{mem_store-IsShardStore}
use shardstore.Storage.File.{FileStore, file_store, get_shard}
use shardstore.Storage.File.Paths.{IsApart, IsKey}
use shardstore.Storage.File.Listed.{list-IsKey}
use shardstore.Storage.File.Refinement.{SameReads-Agree}
use shardstore.Storage.File.Alike.{Alike}
use shardstore.Storage.Object.{key_of}
use shardstore.Storage.Recovery.Damage.{there_or_not}
use shardstore.Storage.Recovery.Shards.{count_ok}
use shardstore.Storage.Recovery.RoundTrip.{HasNoShards}
use shardstore.Storage.Recovery.SameObject.{LooksSame}

same_bool : (a b : Bool) → (a ≡ true → a ≡ b) → (b ≡ true → a ≡ b) → a ≡ b
same_bool a b f g = elim (Bool-cases a) [
  | inl e ↦ f e
  | inr e ↦ elim (Bool-cases b) [ inl e' ↦ g e' | inr e' ↦ e ∙ sym e' ]
]

count_ok-congr :
    {S T : Type 0} (st : ShardStore S) (su : ShardStore T) (id : Bytes) (s : S) (t : T)
    → LooksSame st su id s t
    → (idx rounds i : ℕ) → idx < 2 ^ 32
    → count_ok st id idx s rounds i ≡ count_ok su id idx t rounds i
unfolding count_ok
count_ok-congr st su id s t same idx zero i h = refl
count_ok-congr st su id s t same idx (suc rounds) i h =
    let here = same.get idx i h in
    let rest = count_ok-congr st su id s t same idx rounds (i + 1) h in
    elim (Result-cases (su.get_shard t (key_of id idx i))) [
      | inl (x, e) ↦ rw (count_ok, here, e) (ap suc rest)
      | inr (x, e) ↦ rw (count_ok, here, e) rest
    ]

module _ (sha256 : Bytes → Bytes) (in_use : Bytes → Type 0) (apart : IsApart sha256 in_use)
    (s : FileStore) (m : MemStore) (a : Alike sha256 in_use s m) (id : Bytes)
    (used : in_use id) where
  key_of-IsKey : (idx i : ℕ) → idx < 2 ^ 32 → IsKey in_use (key_of id idx i)
  key_of-IsKey idx i h = record { id = used; stripe = h; shard = omega arith }

  pub Alike-LooksSame : LooksSame (file_store sha256) (mem_store sha256) id s m
  Alike-LooksSame =
      let reads = SameReads-Agree sha256 in_use s m apart a.agree in
      let (ks, (js, (listed, (found, here)))) = reads.list id in
      let (ks', listed', in_file) = list-IsKey sha256 in_use s id a.agree.consistent in
      let (js', found', there) = (mem_store-IsShardStore sha256).list_lem m id in
      let same_ks : ks' ≡ ks = cc (listed, listed') in
      let same_js : js' ≡ js = cc (found, found') in
      let keys : (j : ShardKey) → mem_key j ks ≡ true → IsKey in_use j =
        λ j h. in_file j (ap (mem_key j) same_ks ∙ h) in
      let keys' : (j : ShardKey) → mem_key j js ≡ true → IsKey in_use j =
        λ j h. a.keys j (ground (arith, there j, ap (mem_key j) same_js, h)) in
      record {
        get = λ idx i h. reads.get (key_of id idx i) (key_of-IsKey idx i h);
        verify = λ idx i h. reads.verify (key_of id idx i) (key_of-IsKey idx i h);
        marker = reads.read id used;
        keys = ks;
        keys' = js;
        listed = listed;
        listed' = found;
        members = λ j.
            same_bool (mem_key j ks) (mem_key j js) (λ h. here j (keys j h))
              (λ h. here j (keys' j h));
        stripes = λ j h. (keys j h).stripe;
      }

  -- An id without shards on the one has none on the other.
  pub HasNoShards-Alike :
      ((j : ShardKey)
        → IsKey in_use j
        → j.object_id ≡ id
        → get_shard sha256 s j ≡ err shard_not_found)
      → HasNoShards (mem_store sha256) id m
  HasNoShards-Alike none j mine = elim (there_or_not ((mem_store sha256).get_shard m j)) [
    | inr gone ↦ gone
    | inl there ↦ let hj = a.keys j there in sym (a.agree.get j hj) ∙ none j hj mine
  ]

  pub count_ok-Alike :
      (idx rounds : ℕ)
      → idx < 2 ^ 32
      → count_ok (file_store sha256) id idx s rounds 0
        ≡ count_ok (mem_store sha256) id idx m rounds 0
  count_ok-Alike idx rounds h =
      count_ok-congr (file_store sha256) (mem_store sha256) id s m Alike-LooksSame idx rounds 0 h
