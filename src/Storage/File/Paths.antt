-- ===== src/Storage/File/Paths.antt =====
-- The files of shards and markers, and when two of them are the same.
use shardstore.Common.{
  ◌^◌, ◌<◌, ◌≡◌, refl, sym, ap, ◌∙◌, arith, Bool, true, false, Bytes, inl, inr, Bool-cases,
}
use shardstore.Common.Search.{has_suffix, has_prefix}
use shardstore.Storage.Header.{ShardKey}
use shardstore.Storage.ShardStore.{beq_key, beq_key_iff}
use shardstore.Storage.File.Names.{
  shard_file_name, parse_shard_file_name, parse-shard_file_name, shard_suffix,
}
use shardstore.Storage.File.{
  FilePath, beq_path, beq_path→eq, eq→beq_path, object_dir, shard_path, marker_path,
  marker_file_name,
}

-- No two of the ids in use have digests that agree in the first 20 bytes.
abbrev pub IsApart : (Bytes → Bytes) → (Bytes → Type 0) → Type 0
IsApart sha256 in_use =
    (a b : Bytes) → in_use a → in_use b → object_dir sha256 a ≡ object_dir sha256 b → a ≡ b

-- A key of an id in use, with indices that are uint32.
pub record IsKey (in_use : Bytes → Type 0) (k : ShardKey) : Type 0 where
  pub id : in_use k.object_id
  pub stripe : k.stripe_idx < 2 ^ 32
  pub shard : k.shard_idx < 2 ^ 32

false_of : {a b : Bool} → (a ≡ true → b ≡ true) → b ≡ false → a ≡ false
false_of {a} f h = elim (Bool-cases a) [ inl e ↦ absurd (cc (f e, h)) | inr e ↦ e ]

module _ (sha256 : Bytes → Bytes) (in_use : Bytes → Type 0) (apart : IsApart sha256 in_use) where
  same_indices :
      (a b : ShardKey)
      → IsKey in_use a
      → IsKey in_use b
      → shard_file_name a ≡ shard_file_name b
      → (a.stripe_idx ≡ b.stripe_idx) × (a.shard_idx ≡ b.shard_idx)
  same_indices a b ha hb e =
      let pa = (parse-shard_file_name a ha.stripe ha.shard).1 in
      let pb = (parse-shard_file_name b hb.stripe hb.shard).1 in
      let same = sym pa ∙ (ap parse_shard_file_name e ∙ pb) in (cc same, cc same)

  shard_path_inj :
      (a b : ShardKey)
      → IsKey in_use a
      → IsKey in_use b
      → shard_path sha256 a ≡ shard_path sha256 b
      → a ≡ b
  shard_path_inj a b ha hb e =
      let id = apart a.object_id b.object_id ha.id hb.id (ap (λ (p : FilePath). p.dir) e) in
      let (stripe, shard) = same_indices a b ha hb (ap (λ (p : FilePath). p.name) e) in
      ground (arith, id, stripe, shard)

  pub beq_path-shard_path :
      (a b : ShardKey)
      → IsKey in_use a
      → IsKey in_use b
      → beq_path (shard_path sha256 a) (shard_path sha256 b) ≡ beq_key a b
  beq_path-shard_path a b ha hb = elim (Bool-cases (beq_key a b)) [
    | inl e ↦
        eq→beq_path (shard_path sha256 a) (shard_path sha256 b)
          (ap (shard_path sha256) ((beq_key_iff a b).0 e))
        ∙ sym e
    | inr e ↦
        false_of (λ h. (beq_key_iff a b).1 (shard_path_inj a b ha hb (beq_path→eq _ _ h))) e ∙ sym e
  ]

  pub beq_path-marker_path :
      (a b : Bytes)
      → in_use a
      → in_use b
      → (e : Bool) → ((e ≡ true) → a ≡ b)
      → (a ≡ b → e ≡ true)
      → beq_path (marker_path sha256 a) (marker_path sha256 b) ≡ e
  beq_path-marker_path a b ha hb e to from = elim (Bool-cases e) [
    | inl h ↦
        eq→beq_path (marker_path sha256 a) (marker_path sha256 b) (ap (marker_path sha256) (to h))
        ∙ sym h
    | inr h ↦
        false_of (λ p. from (apart a b ha hb (ap (λ (q : FilePath). q.dir) (beq_path→eq _ _ p)))) h
        ∙ sym h
  ]

-- A path whose name is no shard's is not that of a shard.
module _ (sha256 : Bytes → Bytes) (k : ShardKey) (hi : k.stripe_idx < 2 ^ 32)
    (hj : k.shard_idx < 2 ^ 32) where
  pub beq_path-other :
      (p : FilePath)
      → has_suffix p.name shard_suffix ≡ false
      → beq_path p (shard_path sha256 k) ≡ false
  beq_path-other p h =
      false_of
        (λ e.
          let same : p.name ≡ shard_file_name k =
            ap (λ (q : FilePath). q.name) (beq_path→eq p (shard_path sha256 k) e) in
          ap (λ n. has_suffix n shard_suffix) same ∙ (parse-shard_file_name k hi hj).0)
        h

  pub beq_path-other' :
      (p : FilePath)
      → has_suffix p.name shard_suffix ≡ false
      → beq_path (shard_path sha256 k) p ≡ false
  beq_path-other' p h =
      false_of
        (λ e.
          let same : shard_file_name k ≡ p.name =
            ap (λ (q : FilePath). q.name) (beq_path→eq (shard_path sha256 k) p e) in
          ap (λ n. has_suffix n shard_suffix) (sym same) ∙ (parse-shard_file_name k hi hj).0)
        h

pub marker_file_name_lem : has_suffix marker_file_name shard_suffix ≡ false
unfolding has_suffix has_prefix
marker_file_name_lem = refl
