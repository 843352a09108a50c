-- ===== src/Storage/Concurrent/Separate.antt =====
-- Calls for one object, and what they leave of another.
use shardstore.Common.{◌≡◌, refl, sym, ap, ◌∙◌, inl, inr, false, Bool-cases}
use shardstore.Common.{Bytes, length, pos, str_eq, str_eq_iff}
use shardstore.Storage.Header.{ShardKey}
use shardstore.Storage.ShardStore.{ShardStore, IsShardStore, beq_key, beq_key_iff}
use shardstore.Storage.ShardStore.Calls.{Call, put, delete, write, remove, call}
use shardstore.Storage.Recovery.Damage.{IsDamaged}

-- A call for an object with an id in `P`; a shard that is put has a header that agrees with it.
abbrev pub IsCallFor : (Bytes → Type 0) → Call → Type 0
IsCallFor P (put k h d) =
    P k.object_id × (k.object_id ≡ h.object_id) × (h.data_len ≡ pos (length d))
IsCallFor P (delete k) = P k.object_id
IsCallFor P (write id meta) = P id
IsCallFor P (remove id) = P id

module _ {S : Type 0} (sha256 : Bytes → Bytes) (st : ShardStore S) (law : IsShardStore sha256 st)
    (id : Bytes) where
  -- The two states hold the same of the object.
  pub record SameOn (s t : S) : Type 0 where
    pub shards : (j : ShardKey) → j.object_id ≡ id → st.get_shard s j ≡ st.get_shard t j
    pub marker : st.read_marker s id ≡ st.read_marker t id

  pub SameOn-refl : (s : S) → SameOn s s
  SameOn-refl s = record { shards = λ j mine. refl; marker = refl }

  pub SameOn-trans : (s t u : S) → SameOn s t → SameOn t u → SameOn s u
  SameOn-trans s t u a b = record {
    shards = λ j mine. a.shards j mine ∙ b.shards j mine;
    marker = a.marker ∙ b.marker;
  }

  pub IsDamaged-SameOn : (s t : S) → SameOn t s → IsDamaged st id s t
  IsDamaged-SameOn s t a = record { shards = λ j mine. inl (a.shards j mine); marker = a.marker }

  not_mine : (k j : ShardKey) → ¬ (k.object_id ≡ id) → j.object_id ≡ id → beq_key k j ≡ false
  not_mine k j other mine = elim (Bool-cases (beq_key k j)) [
    | inl same ↦
        absurd (other (ap (λ (t : ShardKey). t.object_id) ((beq_key_iff k j).0 same) ∙ mine))
    | inr differ ↦ differ
  ]

  not_this : (i : Bytes) → ¬ (i ≡ id) → str_eq i id ≡ false
  not_this i other = elim (Bool-cases (str_eq i id)) [
    | inl same ↦ absurd (other ((str_eq_iff i id).0 same))
    | inr differ ↦ differ
  ]

  -- A call for another object leaves this one as it was.
  pub call-SameOn_ne : (c : Call) (s : S) → IsCallFor (λ i. ¬ (i ≡ id)) c → SameOn (call st s c).1 s
  call-SameOn_ne (put k h d) s (other, same, len) = record {
    shards = λ j mine. law.get-put s k h d j same len ∙ rw (not_mine k j other mine) refl;
    marker = law.read_marker-put s k h d id;
  }
  call-SameOn_ne (delete k) s other = record {
    shards = λ j mine. law.get-delete s k j ∙ rw (not_mine k j other mine) refl;
    marker = law.read_marker-delete s k id;
  }
  call-SameOn_ne (write i meta) s other = record {
    shards = λ j mine. law.get-write_marker s i meta j;
    marker = law.read-write_marker s i meta id ∙ rw (not_this i other) refl;
  }
  call-SameOn_ne (remove i) s other = record {
    shards = λ j mine. law.get-remove_marker s i j;
    marker = law.read-remove_marker s i id ∙ rw (not_this i other) refl;
  }

  -- A call for this object does with it the same, whatever the states hold of others.
  pub call-SameOn :
      (c : Call) (s t : S)
      → IsCallFor (λ i. i ≡ id) c
      → SameOn s t
      → SameOn (call st s c).1 (call st t c).1
  call-SameOn (put k h d) s t (own, same, len) a = record {
    shards = λ j mine.
        law.get-put s k h d j same len
        ∙ (rw (a.shards j mine) refl ∙ sym (law.get-put t k h d j same len));
    marker = law.read_marker-put s k h d id ∙ (a.marker ∙ sym (law.read_marker-put t k h d id));
  }
  call-SameOn (delete k) s t own a = record {
    shards =
        λ j mine. law.get-delete s k j ∙ (rw (a.shards j mine) refl ∙ sym (law.get-delete t k j));
    marker = law.read_marker-delete s k id ∙ (a.marker ∙ sym (law.read_marker-delete t k id));
  }
  call-SameOn (write i meta) s t own a = record {
    shards = λ j mine.
        law.get-write_marker s i meta j ∙ (a.shards j mine ∙ sym (law.get-write_marker t i meta j));
    marker =
        law.read-write_marker s i meta id
        ∙ (rw a.marker refl ∙ sym (law.read-write_marker t i meta id));
  }
  call-SameOn (remove i) s t own a = record {
    shards = λ j mine.
        law.get-remove_marker s i j ∙ (a.shards j mine ∙ sym (law.get-remove_marker t i j));
    marker =
        law.read-remove_marker s i id ∙ (rw a.marker refl ∙ sym (law.read-remove_marker t i id));
  }
