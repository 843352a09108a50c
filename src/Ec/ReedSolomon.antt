-- ===== src/Ec/ReedSolomon.antt =====
-- github.com/klauspost/reedsolomon: the interface `Encoder` as the program uses it, and the
-- documented behaviour that the program relies on. The library's code is not modelled.
use shardstore.Common.{
  ℕ, ◌+◌, ◌-◌, ◌*◌, ◌/◌, ◌≤◌, ◌≡◌, ◌==◌, ℤ, pos, Bool, true, Bytes, List, [], ◌∷◌,
}
use shardstore.Common.{length, take, concat, All, ◌⊎◌, if◌then◌else◌, suc}
use shardstore.Errors.{Result, ok}

-- A method that fills shards in place returns them; `join` returns what it writes.
pub record Engine : Type 0 where
  pub split : Bytes → Result (List Bytes)
  pub encode : List Bytes → Result (List Bytes)
  pub reconstruct : List Bytes → Result (List Bytes)
  pub verify : List Bytes → Result Bool
  pub join : List Bytes → ℤ → Result Bytes

-- `count` shards of `size` bytes each.
pub record HasShape (count size : ℕ) (c : List Bytes) : Type 0 where
  pub count_eq : length c ≡ count
  pub size_eq : All (λ s. length s ≡ size) c

-- `shards` is `c` with some shards lost, which stand as empty ones.
abbrev pub Survives : List Bytes → List Bytes → Type 0
Survives [] [] = Unit
Survives [] (t ∷ shards) = ⊥
Survives (s ∷ c) [] = ⊥
Survives (s ∷ c) (t ∷ shards) = ((t ≡ s) ⊎ (t ≡ [])) × Survives c shards

-- The shards that are there.
unfoldable pub present : List Bytes → ℕ
present [] = 0
present (s ∷ shards) = let rest = present shards in if length s == 0 then rest else suc rest

-- What the library documents of an encoder for k data and m parity shards.
pub record IsErasureCode (k m : ℕ) (e : Engine) : Type 0 where
  -- Equally sized shards that hold the text in order, the last ones padded.
  pub split_lem :
      (d : Bytes)
      → 1 ≤ length d
      → (c : List Bytes) × (e.split d ≡ ok c)
        × HasShape (k + m) ((length d + k - 1) / k) c
        × (take (length d) (concat (take k c)) ≡ d)
  -- The parity shards are overwritten, the data shards stay, and the result verifies.
  pub encode_lem :
      (n : ℕ) (c : List Bytes)
      → 1 ≤ n
      → HasShape (k + m) n c
      → (c' : List Bytes) × (e.encode c ≡ ok c')
        × HasShape (k + m) n c'
        × (take k c' ≡ take k c)
        × (e.verify c' ≡ ok true)
  -- Any k shards of a codeword give back all of it.
  pub reconstruct_lem :
      (n : ℕ) (c shards : List Bytes)
      → 1 ≤ n
      → HasShape (k + m) n c
      → e.verify c ≡ ok true
      → Survives c shards
      → k ≤ present shards
      → e.reconstruct shards ≡ ok c
  -- The first bytes of the data shards.
  pub join_lem :
      (n size : ℕ) (c : List Bytes)
      → HasShape (k + m) n c
      → size ≤ k * n
      → e.join c (pos size) ≡ ok (take size (concat (take k c)))
