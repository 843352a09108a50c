-- ===== src/Storage/Recovery/Stripes.antt =====
-- How the bytes of an object are cut into stripes.
use shardstore.Common.{ℕ, zero, suc, ◌≤◌, ◌≡◌, refl, ap, arith}
use shardstore.Common.{Bytes, List, [], ◌∷◌, ◌++◌, length, take, drop, concat}
use shardstore.Common.{length-take, length-drop, take-append-drop, length-append}

-- Every stripe but the last has `size` bytes, and the last at least one and at most `size`.
abbrev pub IsChunked : ℕ → List Bytes → Type 0
IsChunked size [] = Unit
IsChunked size (x ∷ []) = (1 ≤ length x) × (length x ≤ size)
IsChunked size (x ∷ y ∷ ys) = (1 ≤ length x) × (length x ≡ size) × IsChunked size (y ∷ ys)

-- The last of the stripes.
abbrev pub last : Bytes → List Bytes → Bytes
last x [] = x
last x (y ∷ ys) = last y ys

-- The stripes of some bytes, in at most `fuel` rounds.
unfoldable pub chunks : ℕ → ℕ → Bytes → List Bytes
chunks zero size [] = []
chunks zero size (b ∷ d) = []
chunks (suc fuel) size [] = []
chunks (suc fuel) size (b ∷ d) = take size (b ∷ d) ∷ chunks fuel size (drop size (b ∷ d))

module _ (size : ℕ) (positive : 1 ≤ size) where
  pub concat-chunks : (fuel : ℕ) (d : Bytes) → length d ≤ fuel → concat (chunks fuel size d) ≡ d
  unfolding chunks
  concat-chunks zero [] h = refl
  concat-chunks zero (b ∷ d) h = absurd (omega arith)
  concat-chunks (suc fuel) [] h = refl
  concat-chunks (suc fuel) (b ∷ d) h =
      rw (concat-chunks fuel (drop size (b ∷ d)) (omega (arith, length-drop size (b ∷ d))))
        (take-append-drop size (b ∷ d))

  cons-IsChunked :
      (b : ℕ) (d : Bytes) (xs : List Bytes)
      → IsChunked size xs
      → concat xs ≡ drop size (b ∷ d)
      → IsChunked size (take size (b ∷ d) ∷ xs)
  cons-IsChunked b d [] w e =
      (omega (arith, length-take size (b ∷ d)), omega (arith, length-take size (b ∷ d)))
  cons-IsChunked b d (y ∷ []) w e =
      let left = ap (λ (t : Bytes). length t) e in
      omega (arith, w, left, length-append y [], length-take size (b ∷ d), length-drop size (b ∷ d))
  cons-IsChunked b d (y ∷ z ∷ xs) w e =
      let left = ap (λ (t : Bytes). length t) e in
      (
        omega (arith, length-take size (b ∷ d)),
        omega (
          arith,
          w.0,
          left,
          length-append y (z ++ concat xs),
          length-take size (b ∷ d),
          length-drop size (b ∷ d),
        ),
        w,
      )

  pub chunks-IsChunked :
      (fuel : ℕ) (d : Bytes) → length d ≤ fuel → IsChunked size (chunks fuel size d)
  unfolding chunks
  chunks-IsChunked zero [] h = tt
  chunks-IsChunked zero (b ∷ d) h = tt
  chunks-IsChunked (suc fuel) [] h = tt
  chunks-IsChunked (suc fuel) (b ∷ d) h =
      let shorter : length (drop size (b ∷ d)) ≤ fuel = omega (arith, length-drop size (b ∷ d)) in
      cons-IsChunked b d (chunks fuel size (drop size (b ∷ d)))
        (chunks-IsChunked fuel (drop size (b ∷ d)) shorter)
        (concat-chunks fuel (drop size (b ∷ d)) shorter)
