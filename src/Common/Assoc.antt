-- ===== src/Common/Assoc.antt =====
-- Go maps, as association lists over keys with a Boolean equality.
use mathlib.Core.Path.{◌≡◌, refl, ap, ◌∙◌, sym}
use mathlib.Core.Logic.{◌↔◌}
use mathlib.Core.Bool.{Bool, true, false, ◌||◌}
use mathlib.Core.Option.{Option, none, some}
use mathlib.Core.List.{List, [], ◌∷◌}
use native.Mathlib.Omega.{arith}
use shardstore.Common.Tests.{if◌then◌else◌}
use shardstore.Common.Lists.{All}
use mathlib.Core.Path.{subst}
use mathlib.Core.Logic.{inl, inr}
use shardstore.Common.Tests.{Bool-cases}
use shardstore.Common.ByteStrings.{Bytes, str_eq, str_eq_iff}

pub record Eq (A : Type 0) : Type 0 where
  pub beq : A → A → Bool
  pub beq_iff : (a b : A) → (beq a b ≡ true) ↔ (a ≡ b)

instance abbrev pub bytes_eq : Eq Bytes
bytes_eq = record { beq = str_eq; beq_iff = str_eq_iff }

abbrev pub is_some {ℓ} : {A : Type ℓ} → Option A → Bool
is_some none = false
is_some (some a) = true

pub beq_refl : {A : Type 0} ⦃e : Eq A⦄ (a : A) → e.beq a a ≡ true
beq_refl ⦃e⦄ a = (e.beq_iff a a).1 refl

module _ {K : Type 0} ⦃e : Eq K⦄ where
  -- Does the list hold the key?
  unfoldable pub mem_key : K → List K → Bool
  mem_key k [] = false
  mem_key k (j ∷ ks) = e.beq j k || mem_key k ks

  -- A list without members is empty.
  pub no_members : (ks : List K) → ((k : K) → mem_key k ks ≡ false) → ks ≡ []
  unfolding mem_key
  no_members [] h = refl
  no_members (k ∷ ks) h = absurd (ground (arith, h k, beq_refl k))

  -- No key stands twice in the list.
  unfoldable pub IsUnique : List K → Type 0
  IsUnique [] = Unit {0}
  IsUnique (k ∷ ks) = (mem_key k ks ≡ false) × IsUnique ks

  module _ {V : Type 0} where
    -- v, ok := m[k]
    unfoldable pub lookup : K → List (K × V) → Option V
    lookup k [] = none
    lookup k ((j, v) ∷ m) = if e.beq j k then some v else lookup k m

    -- m[k] = v
    unfoldable pub insert : K → V → List (K × V) → List (K × V)
    insert k v [] = (k, v) ∷ []
    insert k v ((j, w) ∷ m) = if e.beq j k then (k, v) ∷ m else (j, w) ∷ insert k v m

    -- delete(m, k)
    unfoldable pub erase : K → List (K × V) → List (K × V)
    erase k [] = []
    erase k ((j, v) ∷ m) = let rest = erase k m in if e.beq j k then rest else (j, v) ∷ rest

    unfoldable pub keys : List (K × V) → List K
    keys [] = []
    keys ((j, v) ∷ m) = j ∷ keys m

    pub lookup-insert :
        (k j : K) (v : V) (m : List (K × V))
        → lookup j (insert k v m) ≡ (if e.beq k j then some v else lookup j m)
    unfolding lookup insert
    lookup-insert k j v [] = refl
    lookup-insert k j v ((i, w) ∷ m) =
        ground (arith, e.beq_iff k j, e.beq_iff i k, e.beq_iff i j, lookup-insert k j v m)

    pub lookup-erase :
        (k j : K) (m : List (K × V))
        → lookup j (erase k m) ≡ (if e.beq k j then none else lookup j m)
    unfolding lookup erase
    lookup-erase k j [] = ground arith
    lookup-erase k j ((i, w) ∷ m) =
        ground (arith, e.beq_iff k j, e.beq_iff i k, e.beq_iff i j, lookup-erase k j m)

    pub mem_key-keys : (k : K) (m : List (K × V)) → mem_key k (keys m) ≡ is_some (lookup k m)
    unfolding mem_key keys lookup
    mem_key-keys k [] = refl
    mem_key-keys k ((j, v) ∷ m) = ground (arith, mem_key-keys k m)

    -- What holds of every entry, before and after.
    module _ (P : K × V → Type 0) where
      All-if : (b : Bool) (m n : List (K × V)) → All P m → All P n → All P (if b then m else n)
      All-if true m n hm hn = hm
      All-if false m n hm hn = hn

      pub All-insert :
          (k : K) (v : V) (m : List (K × V)) → P (k, v) → All P m → All P (insert k v m)
      unfolding insert
      All-insert k v [] new h = (new, tt)
      All-insert k v ((j, w) ∷ m) new (hj, h) =
          All-if (e.beq j k) ((k, v) ∷ m) ((j, w) ∷ insert k v m) (new, h)
            (hj, All-insert k v m new h)

      pub All-erase : (k : K) (m : List (K × V)) → All P m → All P (erase k m)
      unfolding erase
      All-erase k [] h = tt
      All-erase k ((j, w) ∷ m) (hj, h) =
          let rest = All-erase k m h in
          All-if (e.beq j k) (erase k m) ((j, w) ∷ erase k m) rest (hj, rest)

      pub All-lookup : (k : K) (v : V) (m : List (K × V)) → All P m → lookup k m ≡ some v → P (k, v)
      unfolding lookup
      All-lookup k v [] h same = absurd (ground arith)
      All-lookup k v ((j, w) ∷ m) (hj, h) same = elim (Bool-cases (e.beq j k)) [
        | inl same_key ↦
            let value : w ≡ v = ground (arith, same_key) in
            subst (λ x. P (x, v)) ((e.beq_iff j k).0 same_key) (subst (λ x. P (j, x)) value hj)
        | inr differ ↦ All-lookup k v m h (ground (arith, differ))
      ]

    -- A map holds each key once.
    pub IsUnique-insert :
        (k : K) (v : V) (m : List (K × V)) → IsUnique (keys m) → IsUnique (keys (insert k v m))
    unfolding IsUnique keys insert mem_key
    IsUnique-insert k v [] u = (refl, tt)
    IsUnique-insert k v ((j, w) ∷ m) (new, u) = helper (e.beq j k) refl (IsUnique-insert k v m u)
      where
        helper :
            (b : Bool)
            → e.beq j k ≡ b
            → IsUnique (keys (insert k v m))
            → IsUnique (keys (if b then (k, v) ∷ m else (j, w) ∷ insert k v m))
        helper true same rest =
            (ap (λ t. mem_key t (keys m)) (sym ((e.beq_iff j k).0 same)) ∙ new, u)
        helper false differ rest = (
          mem_key-keys j (insert k v m)
              ∙ ground (
                arith,
                lookup-insert k j v m,
                mem_key-keys j m,
                new,
                differ,
                e.beq_iff k j,
                e.beq_iff j k,
              ),
          rest,
        )

    pub IsUnique-erase :
        (k : K) (m : List (K × V)) → IsUnique (keys m) → IsUnique (keys (erase k m))
    unfolding IsUnique keys erase mem_key
    IsUnique-erase k [] u = tt
    IsUnique-erase k ((j, w) ∷ m) (new, u) = helper (e.beq j k) refl (IsUnique-erase k m u)
      where
        helper :
            (b : Bool)
            → e.beq j k ≡ b
            → IsUnique (keys (erase k m))
            → IsUnique (keys (if b then erase k m else (j, w) ∷ erase k m))
        helper true same rest = rest
        helper false differ rest = (
          mem_key-keys j (erase k m) ∙ ground (arith, lookup-erase k j m, mem_key-keys j m, new),
          rest,
        )
