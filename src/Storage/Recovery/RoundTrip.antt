-- ===== src/Storage/Recovery/RoundTrip.antt =====
-- What was put can be got, whatever shards were lost, as long as k of each stripe are left.
use shardstore.Common.{ℕ, ◌+◌, ◌^◌, ◌≤◌, ◌<◌, ◌≡◌, sym, ap, ◌∙◌, arith, inl, inr, true}
use shardstore.Common.{Bytes, List, [], ◌∷◌, length, concat, ℤ, pos, le_or_lt}
use shardstore.Common.{str_eq_refl}
use shardstore.Errors.{Result, ok, err, shard_not_found}
use shardstore.Ec.ReedSolomon.{Engine}
use native.Mathlib.Nat.{zero-add}
use shardstore.Ec.Created.{IsScheme, the_encoder}
use shardstore.Storage.Header.{ShardKey}
use shardstore.Storage.ShardStore.{ShardStore, IsShardStore, key_eq, is_there}
use shardstore.Storage.Object.{Body, empty_reader, object_reader, read_body}
use shardstore.Storage.Object.{get_object}
use shardstore.Storage.Recovery.Load.{reader_at, IsReadable}
use shardstore.Storage.Recovery.Reading.{AllReadable, AllReadable-last, read_all_lem}
use shardstore.Storage.Recovery.Stripes.{last, concat-chunks}
use shardstore.Storage.Recovery.Putting.{store_of, stripes_of, IsPut}
use shardstore.Storage.Recovery.Damage.{IsDamaged}
use shardstore.Storage.Recovery.Listed.{get_empty_lem, get_full_lem}

-- The object id names no shard.
abbrev pub HasNoShards : {S : Type 0} → ShardStore S → Bytes → S → Type 0
HasNoShards st id s = (j : ShardKey) → j.object_id ≡ id → st.get_shard s j ≡ err shard_not_found

module _ {S : Type 0} (sha256 : Bytes → Bytes) (st : ShardStore S) (law : IsShardStore sha256 st)
    (new_engine : ℤ → ℤ → Result Engine) (k m : ℕ) (w : IsScheme new_engine k m) (size : ℕ)
    (positive : 1 ≤ size) where
  module _ (id d : Bytes) (hid : 1 ≤ length id) (s₀ s₁ s : S) (fresh : HasNoShards st id s₀)
      (put : IsPut sha256 st law new_engine k m w size positive id d s₀ s₁)
      (damage : IsDamaged st id s₁ s) where
    -- A shard that is there belongs to a stripe of the object.
    there-lt :
        (j : ShardKey)
        → j.object_id ≡ id
        → is_there (st.get_shard s j) ≡ true
        → j.stripe_idx < length (stripes_of size d)
    there-lt j mine there = elim (le_or_lt (length (stripes_of size d)) j.stripe_idx) [
      | inr h ↦ h
      | inl h ↦
          let gone : st.get_shard s₁ j ≡ err shard_not_found =
            put.shards j (λ x. absurd (omega (arith, x.2))) ∙ fresh j mine in
          elim (damage.shards j mine) [
            | inl same ↦ absurd (cc (there, same, gone))
            | inr (e, was, lost, is) ↦ absurd (cc (was, gone))
          ]
    ]

    -- What `GetObject` gives: of the empty object the empty reader, of another its reader.
    get_empty :
        length d ≡ 0 → get_object st new_engine (store_of k m size) s id ≡ ok (empty_reader, pos 0)
    get_empty none =
        get_empty_lem sha256 st law new_engine k m w size positive id d hid s there-lt
          (pos (length d)) none (damage.marker ∙ put.markers id ∙ rw (str_eq_refl id))
        ∙ rw none

    -- The object of at least one stripe, all of which can be read.
    module _ (x : Bytes) (xs : List Bytes) (cut : stripes_of size d ≡ x ∷ xs)
        (readable : AllReadable st k m
          (the_encoder new_engine k m w)
          w.code
          w.data_pos
          w.small
          s
          id
          0
          (x ∷ xs)) where
      last-IsReadable :
          IsReadable st k m
            (the_encoder new_engine k m w)
            w.code
            w.data_pos
            s
            id
            (length xs)
            (last x xs)
      last-IsReadable = rw zero-add at (
          AllReadable-last st k m (the_encoder new_engine k m w) w.code w.data_pos w.small s id 0 x
            xs readable)

      get_full :
          length (stripes_of size d) < 2 ^ 32
          → length d < 2 ^ 63
          → get_object st new_engine (store_of k m size) s id
            ≡ ok (
              object_reader
                  (reader_at k m (the_encoder new_engine k m w) id size (length xs + 1) 0 [] 0),
              pos (length d),
            )
      get_full few small =
          get_full_lem sha256 st law new_engine k m w size positive id d hid s there-lt x xs cut
            last-IsReadable few small

    -- The bytes that the reader gives.
    read_full_object :
        (x : Bytes) (xs : List Bytes)
        → concat (x ∷ xs) ≡ d
        → AllReadable st k m
            (the_encoder new_engine k m w)
            w.code
            w.data_pos
            w.small
            s
            id
            0
            (x ∷ xs)
        → length xs + 1 < 2 ^ 32
        → (sizes : ℕ → ℕ) → ((i : ℕ) → 1 ≤ sizes i)
        → (fuel : ℕ) → length d < fuel
        → read_body st sizes fuel s (
            object_reader
              (reader_at k m (the_encoder new_engine k m w) id size (length xs + 1) 0 [] 0))
          ≡ (d, ok tt)
    unfolding read_body
    read_full_object x xs whole readable few sizes some_room fuel enough =
        read_all_lem st k m (the_encoder new_engine k m w) w.code w.data_pos w.small s id size
          (length xs + 1) few sizes some_room fuel x xs readable (omega arith) (rw whole enough)
        ∙ rw whole

    -- The object, empty or not.
    pub get_stored :
        (xs : List Bytes)
        → stripes_of size d ≡ xs
        → AllReadable st k m (the_encoder new_engine k m w) w.code w.data_pos w.small s id 0 xs
        → length xs < 2 ^ 32
        → length d < 2 ^ 63
        → (sizes : ℕ → ℕ) → ((i : ℕ) → 1 ≤ sizes i)
        → (fuel : ℕ) → length d < fuel
        → (body : Body) × (get_object st new_engine (store_of k m size) s id
            ≡ ok (body, pos (length d)))
          × (read_body st sizes fuel s body ≡ (d, ok tt))
    unfolding read_body
    get_stored [] cut readable few small sizes some_room fuel enough =
        let none : d ≡ [] =
          sym (concat-chunks size positive (length d) d (omega arith)) ∙ ap concat cut in
        let no_bytes : length d ≡ 0 = ap (λ (t : Bytes). length t) none in
        (empty_reader, get_empty no_bytes ∙ rw no_bytes, rw none)
    get_stored (x ∷ xs) cut readable few small sizes some_room fuel enough =
        let whole : concat (x ∷ xs) ≡ d =
          ap concat (sym cut) ∙ concat-chunks size positive (length d) d (omega arith) in
        let few' : length (stripes_of size d) < 2 ^ 32 = rw cut few in
        (
          object_reader
              (reader_at k m (the_encoder new_engine k m w) id size (length xs + 1) 0 [] 0),
          get_full x xs cut readable few' small,
          read_full_object x xs whole readable (omega arith) sizes some_room fuel enough,
        )
