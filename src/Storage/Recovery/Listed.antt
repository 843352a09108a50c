-- ===== src/Storage/Recovery/Listed.antt =====
-- `GetObject` of an object whose shards all belong to the stripes of `d`.
use shardstore.Common.{
  ℕ, suc, ◌+◌, ◌*◌, ◌^◌, ◌≤◌, ◌<◌, ◌≡◌, refl, sym, ap, ◌∙◌, arith, inl, inr, Bool, true, false,
}
use shardstore.Common.{◌&&◌, ◌||◌, Bytes, List, [], ◌∷◌, length, concat, ℤ, pos, Bool-cases}
use shardstore.Common.{str_eq, str_eq_iff}
use shardstore.Common.Assoc.{mem_key}
use shardstore.Errors.{Result, ok}
use shardstore.Ec.ReedSolomon.{Engine}
use shardstore.Ec.Created.{IsScheme, scheme_params, the_encoder}
use shardstore.Storage.Header.{ShardKey}
use shardstore.Storage.ShardStore.{ShardStore, IsShardStore, key_eq, is_there}
use shardstore.Storage.Object.{key_of, max_stripe, empty_reader, object_reader}
use shardstore.Storage.Object.{get_object}
use shardstore.Storage.Recovery.Shards.{count_ok}
use shardstore.Storage.Recovery.Load.{reader_at, IsReadable}
use shardstore.Storage.Recovery.Stripes.{last, IsChunked, concat-chunks, chunks-IsChunked}
use shardstore.Storage.Recovery.Opening.{
  max_stripe_lem, last_stripe_len_lem, one_there, length-concat,
}
use shardstore.Storage.Recovery.Putting.{store_of, stripes_of, length-chunks}
use shardstore.Storage.Recovery.Getting.{get_object_lem, get_object-marker, empty_of_no_members}

module _ {S : Type 0} (sha256 : Bytes → Bytes) (st : ShardStore S) (law : IsShardStore sha256 st)
    (new_engine : ℤ → ℤ → Result Engine) (k m : ℕ) (w : IsScheme new_engine k m) (size : ℕ)
    (positive : 1 ≤ size) where
  module _ (id d : Bytes) (hid : 1 ≤ length id) (s : S)
      (bounded : (j : ShardKey)
        → j.object_id ≡ id
        → is_there (st.get_shard s j) ≡ true
        → j.stripe_idx < length (stripes_of size d)) where
    unnamed : str_eq id [] ≡ false
    unnamed = elim (Bool-cases (str_eq id [])) [
      | inl e ↦
          let none : length id ≡ 0 = ap (λ (t : Bytes). length t) ((str_eq_iff id []).0 e) in
          absurd (omega arith)
      | inr e ↦ e
    ]

    is_listed : ShardKey → Bool
    is_listed j = is_there (st.get_shard s j) && (str_eq id [] || str_eq j.object_id id)

    listed_parts :
        (j : ShardKey)
        → is_listed j ≡ true
        → (j.object_id ≡ id) × (is_there (st.get_shard s j) ≡ true)
    unfolding is_listed
    listed_parts j h = ground (arith, unnamed, str_eq_iff j.object_id id)

    listed-lt : (j : ShardKey) → is_listed j ≡ true → j.stripe_idx < length (stripes_of size d)
    listed-lt j h = let (mine, there) = listed_parts j h in bounded j mine there

    is_listed_mine :
        (j : ShardKey) → j.object_id ≡ id → is_there (st.get_shard s j) ≡ true → is_listed j ≡ true
    unfolding is_listed
    is_listed_mine j mine there = ground (arith, unnamed, str_eq_iff j.object_id id)

    -- The object without stripes.
    pub get_empty_lem :
        (size' : ℤ)
        → length d ≡ 0
        → st.read_marker s id
          ≡ ok (record {
            size = size';
            stripes = length (stripes_of size d);
            params = scheme_params k m;
          })
        → get_object st new_engine (store_of k m size) s id ≡ ok (empty_reader, size')
    get_empty_lem size' none marked =
        let (ks, listed, members) = law.list_lem s id in
        let no_stripes : length (stripes_of size d) ≡ 0 =
          omega (arith, length-chunks (length d) size d) in
        let no_keys : ks ≡ [] = empty_of_no_members ks (λ j. elim (Bool-cases (is_listed j)) [
          | inl h ↦ absurd (omega (arith, listed-lt j h))
          | inr h ↦ members j ∙ unfold is_listed in h
        ]) in
        get_object-marker st new_engine k m w size s id
          (record {
            size = size';
            stripes = length (stripes_of size d);
            params = scheme_params k m;
          })
          (listed ∙ ap ok no_keys) marked

    -- The object whose last stripe can be read.
    module _ (x : Bytes) (xs : List Bytes) (cut : stripes_of size d ≡ x ∷ xs)
        (r : IsReadable st k m
          (the_encoder new_engine k m w)
          w.code
          w.data_pos
          s
          id
          (length xs)
          (last x xs)) where
      pub get_full_lem :
          length (stripes_of size d) < 2 ^ 32
          → length d < 2 ^ 63
          → get_object st new_engine (store_of k m size) s id
            ≡ ok (
              object_reader
                  (reader_at k m (the_encoder new_engine k m w) id size (length xs + 1) 0 [] 0),
              pos (length d),
            )
      get_full_lem few small =
          let chunked : IsChunked size (x ∷ xs) =
            rw cut at (chunks-IsChunked size positive (length d) d (omega arith)) in
          let whole : concat (x ∷ xs) ≡ d =
            ap concat (sym cut) ∙ concat-chunks size positive (length d) d (omega arith) in
          let total : length xs * size + length (last x xs) ≡ length d =
            sym (length-concat size x xs chunked) ∙ ap (λ (t : Bytes). length t) whole in
          let (ks, listed, members) = law.list_lem s id in
          let count : length r.codeword ≡ k + m = r.is_codeword.shape.count_eq in
          let some_ok : 1 ≤ count_ok st id (length xs) s (length r.codeword) 0 =
            omega (arith, r.enough, w.data_pos) in
          let (i, there) =
            one_there sha256 st law id (length xs) (length (last x xs)) s 0 (length r.codeword)
              some_ok in
          let j = key_of id (length xs) i in
          let stripes : length (stripes_of size d) ≡ suc (length xs) =
            ap (λ (t : List Bytes). length t) cut in
          let there' : mem_key j ks ≡ true =
            members j ∙ unfold is_listed in is_listed_mine j refl there in
          let top : max_stripe 0 ks ≡ length xs = max_stripe_lem j ks there' (λ i h.
            let listed_i : is_listed i ≡ true = unfold is_listed in (sym (members i) ∙ h) in
            omega (arith, listed-lt i listed_i)) in
          let len =
            last_stripe_len_lem sha256 st law id (length xs) (length (last x xs)) s 0 r.codeword
              r.shards some_ok in
          rw total at (
            get_object_lem st new_engine k m w size s id ks j (length (last x xs)) listed there' top
              (rw (← count) len) (omega arith) (omega (arith, total)))
