-- ===== src/Storage/Recovery/Reading.antt =====
-- `io.ReadAll` over the reader of an object whose stripes can all be read.
use shardstore.Common.{
  ℕ, zero, suc, ◌+◌, ◌^◌, ◌≤◌, ◌<◌, ◌≡◌, refl, sym, ap, ◌∙◌, arith, inl, inr, false,
}
use shardstore.Common.{◌==◌, leb, Bytes, List, [], ◌∷◌, ◌++◌, length, take, drop, concat}
use shardstore.Common.{
  take-append-drop, length-drop, length-take, length-append, drop-add, take_all, le_or_lt,
}
use shardstore.Errors.{ok}
use shardstore.Ec.{Encoder}
use shardstore.Ec.ReedSolomon.{IsErasureCode}
use shardstore.Storage.ShardStore.{ShardStore}
use shardstore.Storage.Object.{ObjectReader, read, read_buffered, read_all, wrap_32}
use shardstore.Storage.Recovery.Load.{reader_at, IsReadable, load_stripe_lem}
use shardstore.Storage.Recovery.Stripes.{last}
use mathlib.Core.List.{append-nil, append_assoc}
use native.Mathlib.Nat.{add-zero}

module _ (k m : ℕ) (e : Encoder) (id : Bytes) (size total idx : ℕ) (buf : Bytes) (off n : ℕ)
    (inside : off < length buf) where
  -- The slice is at least as long as what the buffer holds.
  read_rest :
      length (drop off buf) ≤ n
      → read_buffered (reader_at k m e id size total idx buf off) n
        ≡ (ok (drop off buf), reader_at k m e id size total (wrap_32 (idx + 1)) [] 0)
  unfolding read_buffered
  read_rest h = rw (take_all n (drop off buf) h) (ground (arith, length-drop off buf))

  read_some :
      n < length (drop off buf)
      → read_buffered (reader_at k m e id size total idx buf off) n
        ≡ (ok (take n (drop off buf)), reader_at k m e id size total idx buf (off + n))
  unfolding read_buffered
  read_some h = ground (arith, length-drop off buf, length-take n (drop off buf))

-- One round of `io.ReadAll` that gets bytes.
module _ {S : Type 0} (st : ShardStore S) (sizes : ℕ → ℕ) where
  read_all_round :
      (fuel i : ℕ) (s : S) (r r' : ObjectReader) (bs out : Bytes)
      → read st s r (sizes i) ≡ (ok bs, r')
      → read_all st sizes (suc fuel) i s r out ≡ read_all st sizes fuel (i + 1) s r' (out ++ bs)
  unfolding read_all
  read_all_round fuel i s r r' bs out e = rw (e, read_all)

  read_all_congr :
      (fuel i : ℕ) (s : S) (r r' : ObjectReader) (out : Bytes)
      → read st s r (sizes i) ≡ read st s r' (sizes i)
      → read_all st sizes (suc fuel) i s r out ≡ read_all st sizes (suc fuel) i s r' out
  unfolding read_all
  read_all_congr fuel i s r r' out e = rw (e, read_all)

module _ {S : Type 0} (st : ShardStore S) (k m : ℕ) (e : Encoder) (law : IsErasureCode k m e.enc)
    (hk : 1 ≤ k) (small : k + m ≤ 256) where
  abbrev pub AllReadable : S → Bytes → ℕ → List Bytes → Type 0
  AllReadable s id idx [] = Unit
  AllReadable s id idx (x ∷ xs) =
      IsReadable st k m e law hk s id idx x × AllReadable s id (idx + 1) xs

  module _ (s : S) (id : Bytes) (size total : ℕ) (fits : total < 2 ^ 32) (sizes : ℕ → ℕ)
      (positive : (i : ℕ) → 1 ≤ sizes i) where
    abbrev at : ℕ → Bytes → ℕ → ObjectReader
    at idx buf off = reader_at k m e id size total idx buf off

    read_mid :
        (idx : ℕ) (buf : Bytes) (off n : ℕ)
        → idx < total
        → off < length buf
        → read st s (at idx buf off) n ≡ read_buffered (at idx buf off) n
    unfolding read
    read_mid idx buf off n h inside = ground arith

    read_fresh :
        (idx n : ℕ) (x : Bytes)
        → idx < total
        → IsReadable st k m e law hk s id idx x
        → read st s (at idx [] 0) n ≡ read_buffered (at idx x 0) n
    unfolding read
    read_fresh idx n x h w =
        let more : leb total idx ≡ false = ground arith in
        let full : (length x == 0) ≡ false = ground (arith, w.nonempty) in
        rw (more, load_stripe_lem st k m e law hk s id idx x w size total 0 [] small, full)

    -- A stripe is read in the same way whether it is in the buffer yet or not.
    read_all_fresh :
        (fuel i idx : ℕ) (x out : Bytes)
        → idx < total
        → IsReadable st k m e law hk s id idx x
        → read_all st sizes fuel i s (at idx [] 0) out ≡ read_all st sizes fuel i s (at idx x 0) out
    unfolding read_all
    read_all_fresh zero i idx x out h w = refl
    read_all_fresh (suc fuel) i idx x out h w =
        read_all_congr st sizes fuel i s _ _ out
          (read_fresh idx (sizes i) x h w ∙ sym (read_mid idx x 0 (sizes i) h w.nonempty))

    read_all_end :
        (fuel i : ℕ) (out : Bytes)
        → 0 < fuel
        → read_all st sizes fuel i s (at total [] 0) out ≡ (out, ok tt)
    unfolding read_all read
    read_all_end zero i out h = absurd (omega arith)
    read_all_end (suc fuel) i out h = ground arith

    -- The calls of `Read` on a stripe in the buffer: the rest of it, or a part of the rest.
    read_all_rest :
        (fuel i idx : ℕ) (buf : Bytes) (off : ℕ) (out : Bytes)
        → idx < total
        → off < length buf
        → length (drop off buf) ≤ sizes i
        → read_all st sizes (suc fuel) i s (at idx buf off) out
          ≡ read_all st sizes fuel (i + 1) s (at (idx + 1) [] 0) (out ++ drop off buf)
    unfolding read_all
    read_all_rest fuel i idx buf off out h inside short =
        let next : wrap_32 (idx + 1) ≡ idx + 1 = omega arith in
        read_all_round st sizes fuel i s _ _ _ out (
          read_mid idx buf off (sizes i) h inside
          ∙ rw (read_rest k m e id size total idx buf off (sizes i) inside short, next))

    read_all_some :
        (fuel i idx : ℕ) (buf : Bytes) (off : ℕ) (out : Bytes)
        → idx < total
        → off < length buf
        → sizes i < length (drop off buf)
        → read_all st sizes (suc fuel) i s (at idx buf off) out
          ≡ read_all st sizes fuel
              (i + 1)
              s
              (at idx buf (off + sizes i))
              (out ++ take (sizes i) (drop off buf))
    unfolding read_all
    read_all_some fuel i idx buf off out h inside long =
        read_all_round st sizes fuel i s _ _ _ out (
          read_mid idx buf off (sizes i) h inside
          ∙ read_some k m e id size total idx buf off (sizes i) inside long)

    -- The bytes taken and those left are the bytes there were.
    regroup :
        (n off : ℕ) (buf out more : Bytes)
        → (out ++ take n (drop off buf)) ++ (drop (off + n) buf ++ more)
          ≡ out ++ (drop off buf ++ more)
    regroup n off buf out more = rw (
      drop-add off n buf,
      append_assoc out,
      ← append_assoc (take n (drop off buf)),
      take-append-drop n (drop off buf),
    )

    -- A call that takes a part of the stripe, and the rest by the hypothesis `later`.
    module _ (fuel i idx : ℕ) (buf : Bytes) (off : ℕ) (xs : List Bytes) (out : Bytes)
        (inside : off < length buf) where
      read_all_part :
          total ≡ idx + 1 + length xs
          → length (drop off buf ++ concat xs) < suc fuel
          → sizes i < length (drop off buf)
          → ((out' : Bytes)
              → off + sizes i < length buf
              → length (drop (off + sizes i) buf ++ concat xs) < fuel
              → read_all st sizes fuel (i + 1) s (at idx buf (off + sizes i)) out'
                ≡ (out' ++ (drop (off + sizes i) buf ++ concat xs), ok tt))
          → read_all st sizes (suc fuel) i s (at idx buf off) out
            ≡ (out ++ (drop off buf ++ concat xs), ok tt)
      read_all_part count enough long later =
          let sum = length-append (drop off buf) (concat xs) in
          let sum' = length-append (drop (off + sizes i) buf) (concat xs) in
          let part = length-drop off buf in
          let part' = length-drop (off + sizes i) buf in
          read_all_some fuel i idx buf off out (omega arith) inside long
          ∙ later (out ++ take (sizes i) (drop off buf)) (omega (arith, part))
              (omega (arith, sum, sum', part, part', positive i))
          ∙ ap (λ t. (t, ok tt)) (regroup (sizes i) off buf out (concat xs))

    read_all_mid :
        (fuel i idx : ℕ) (buf : Bytes) (off : ℕ) (xs : List Bytes) (out : Bytes)
        → off < length buf
        → AllReadable s id (idx + 1) xs
        → total ≡ idx + 1 + length xs
        → length (drop off buf ++ concat xs) < fuel
        → read_all st sizes fuel i s (at idx buf off) out
          ≡ (out ++ (drop off buf ++ concat xs), ok tt)
    read_all_mid zero i idx buf off xs out inside w count enough = absurd (omega arith)
    read_all_mid (suc fuel) i idx buf off [] out inside w count enough =
        elim (le_or_lt (length (drop off buf)) (sizes i)) [
          | inl short ↦
              let last : idx + 1 ≡ total = omega arith in
              let more : 0 < fuel =
                omega (arith, length-drop off buf, length-append (drop off buf) []) in
              read_all_rest fuel i idx buf off out (omega arith) inside short
              ∙ rw (last, read_all_end fuel (i + 1) (out ++ drop off buf) more, append-nil)
          | inr long ↦
              read_all_part fuel i idx buf off [] out inside count enough long
                λ out' h h'. read_all_mid fuel (i + 1) idx buf (off + sizes i) [] out' h w count h'
        ]
    read_all_mid (suc fuel) i idx buf off (y ∷ ys) out inside (wy, wys) count enough =
        elim (le_or_lt (length (drop off buf)) (sizes i)) [
          | inl short ↦
              read_all_rest fuel i idx buf off out (omega arith) inside short
              ∙ read_all_fresh fuel (i + 1) (idx + 1) y (out ++ drop off buf) (omega arith) wy
              ∙ read_all_mid fuel (i + 1) (idx + 1) y 0 ys (out ++ drop off buf) wy.nonempty wys
                  (omega arith)
                  (omega
                    (arith, length-append (drop off buf) (y ++ concat ys), length-drop off buf))
              ∙ ap (λ t. (t, ok tt)) (append_assoc out (drop off buf) (y ++ concat ys))
          | inr long ↦
              read_all_part fuel i idx buf off (y ∷ ys) out inside count enough long λ out' h h'.
                read_all_mid fuel (i + 1) idx buf (off + sizes i) (y ∷ ys) out' h (wy, wys) count h'
        ]

    -- All the bytes of an object of at least one stripe, and then EOF.
    pub read_all_lem :
        (fuel : ℕ) (x : Bytes) (xs : List Bytes)
        → AllReadable s id 0 (x ∷ xs)
        → total ≡ suc (length xs)
        → length (concat (x ∷ xs)) < fuel
        → read_all st sizes fuel 0 s (at 0 [] 0) [] ≡ (concat (x ∷ xs), ok tt)
    read_all_lem fuel x xs (w, ws) count enough =
        read_all_fresh fuel 0 0 x [] (omega arith) w
        ∙ read_all_mid fuel 0 0 x 0 xs [] w.nonempty ws (omega arith) enough

  -- The last stripe can be read.
  pub AllReadable-last :
      (s : S) (id : Bytes) (idx : ℕ) (x : Bytes) (xs : List Bytes)
      → AllReadable s id idx (x ∷ xs)
      → IsReadable st k m e law hk s id (idx + length xs) (last x xs)
  AllReadable-last s id idx x [] (w, ws) = rw add-zero w
  AllReadable-last s id idx x (y ∷ ys) (w, ws) =
      let same : idx + suc (length ys) ≡ idx + 1 + length ys = omega arith in
      rw same (AllReadable-last s id (idx + 1) y ys ws)
