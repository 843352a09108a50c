-- ===== src/Examples/Parity.antt =====
-- A code of two data shards and one parity shard, their sum byte by byte. (The sums are not cut to
-- bytes.) It keeps the documentation of the Reed-Solomon library for k = 2 and m = 1.
use shardstore.Common.{
  ℕ, suc, ◌+◌, ◌-◌, ◌/◌, ◌≤◌, ◌≡◌, refl, ap, ◌∙◌, arith, inl, inr, Bool, true, ◌==◌,
}
use shardstore.Common.{
  Bytes, List, [], ◌∷◌, ◌++◌, length, take, drop, replicate, concat, ℤ, pos, pos_part, str_eq,
  str_eq_iff, if◌then◌else◌,
}
use shardstore.Common.{
  length-take, length-drop, length-append, length-replicate, take-append, str_eq_refl,
  take-append-drop,
}
use shardstore.Errors.{Result, ok, err, message}
use shardstore.Ec.ReedSolomon.{Engine, HasShape, Survives, present, IsErasureCode}
use shardstore.Ec.Created.{IsScheme}
use mathlib.Core.List.{append-nil, append_assoc}

abbrev zip_add : Bytes → Bytes → Bytes
zip_add [] b = []
zip_add (x ∷ a) [] = []
zip_add (x ∷ a) (y ∷ b) = (x + y) ∷ zip_add a b

abbrev zip_sub : Bytes → Bytes → Bytes
zip_sub [] b = []
zip_sub (x ∷ a) [] = []
zip_sub (x ∷ a) (y ∷ b) = (x - y) ∷ zip_sub a b

abbrev pad : ℕ → Bytes → Bytes
pad n d = d ++ replicate (n - length d) 0

abbrev split : Bytes → Result (List Bytes)
split d = let n = (length d + 1) / 2 in ok (take n d ∷ pad n (drop n d) ∷ replicate n 0 ∷ [])

abbrev encode : List Bytes → Result (List Bytes)
encode (a ∷ b ∷ p ∷ []) = ok (a ∷ b ∷ zip_add a b ∷ [])
encode _ = err (message "too few shards")

abbrev verify : List Bytes → Result Bool
verify (a ∷ b ∷ p ∷ []) = ok (str_eq p (zip_add a b))
verify _ = err (message "too few shards")

abbrev fill : Bytes → Bytes → Bytes → List Bytes
fill [] b p = zip_sub p b ∷ b ∷ p ∷ []
fill (x ∷ a) [] p = (x ∷ a) ∷ zip_sub p (x ∷ a) ∷ p ∷ []
fill (x ∷ a) (y ∷ b) p = (x ∷ a) ∷ (y ∷ b) ∷ zip_add (x ∷ a) (y ∷ b) ∷ []

abbrev reconstruct : List Bytes → Result (List Bytes)
reconstruct (a ∷ b ∷ p ∷ []) = ok (fill a b p)
reconstruct _ = err (message "too few shards")

abbrev join : List Bytes → ℤ → Result Bytes
join c n = ok (take (pos_part n) (concat (take 2 c)))

abbrev pub parity_engine : Engine
parity_engine = record {
  split = split;
  encode = encode;
  reconstruct = reconstruct;
  verify = verify;
  join = join;
}

-- The engine for two data shards and a parity shard, and no other.
abbrev pub new_parity : ℤ → ℤ → Result Engine
new_parity (pos k) (pos m) =
    if k == 2 then (if m == 1 then ok parity_engine else err (message "")) else err (message "")
new_parity _ _ = err (message "")

length-zip_add : (a b : Bytes) → length a ≡ length b → length (zip_add a b) ≡ length a
length-zip_add [] b h = refl
length-zip_add (x ∷ a) [] h = absurd (omega arith)
length-zip_add (x ∷ a) (y ∷ b) h = ap suc (length-zip_add a b (omega arith))

zip_sub-right : (a b : Bytes) → length a ≡ length b → zip_sub (zip_add a b) b ≡ a
zip_sub-right [] b h = refl
zip_sub-right (x ∷ a) [] h = absurd (omega arith)
zip_sub-right (x ∷ a) (y ∷ b) h =
    let low : x + y - y ≡ x = omega arith in rw (low, zip_sub-right a b (omega arith))

zip_sub-left : (a b : Bytes) → length a ≡ length b → zip_sub (zip_add a b) a ≡ b
zip_sub-left [] [] h = refl
zip_sub-left [] (y ∷ b) h = absurd (omega arith)
zip_sub-left (x ∷ a) [] h = absurd (omega arith)
zip_sub-left (x ∷ a) (y ∷ b) h =
    let low : x + y - x ≡ y = omega arith in rw (low, zip_sub-left a b (omega arith))

length-pad : (n : ℕ) (d : Bytes) → length d ≤ n → length (pad n d) ≡ n
length-pad n d h =
    omega (
      arith,
      length-append d (replicate (n - length d) 0),
      length-replicate {A = ℕ} (n - length d) 0,
    )

split_lem :
    (d : Bytes)
    → 1 ≤ length d
    → (c : List Bytes) × (split d ≡ ok c)
      × HasShape 3 ((length d + 2 - 1) / 2) c
      × (take (length d) (concat (take 2 c)) ≡ d)
split_lem d h =
    let n : ℕ = (length d + 1) / 2 in
    (
      take n d ∷ pad n (drop n d) ∷ replicate n 0 ∷ [],
      refl,
      record {
        count_eq = refl;
        size_eq = (
          omega (arith, length-take n d),
          (
            omega
                (arith, length-pad n (drop n d) (omega (arith, length-drop n d)), length-drop n d),
            (omega (arith, length-replicate {A = ℕ} n 0), tt),
          ),
        );
      },
      rw
          (
            append-nil,
            ← (append_assoc (take n d) (drop n d) (replicate (n - length (drop n d)) 0)),
            take-append-drop,
          )
          (take-append d (replicate (n - length (drop n d)) 0)),
    )

encode_lem :
    (n : ℕ) (c : List Bytes)
    → 1 ≤ n
    → HasShape 3 n c
    → (c' : List Bytes) × (encode c ≡ ok c')
      × HasShape 3 n c'
      × (take 2 c' ≡ take 2 c)
      × (verify c' ≡ ok true)
encode_lem n (a ∷ b ∷ p ∷ []) h w = (
  a ∷ b ∷ zip_add a b ∷ [],
  refl,
  record {
    count_eq = refl;
    size_eq = (
      w.size_eq.0,
      (w.size_eq.1.0, (omega (arith, length-zip_add a b, w.size_eq.0, w.size_eq.1.0), tt)),
    );
  },
  refl,
  ap ok (str_eq_refl (zip_add a b)),
)
encode_lem n [] h w = absurd (omega (arith, w.count_eq))
encode_lem n (a ∷ []) h w = absurd (omega (arith, w.count_eq))
encode_lem n (a ∷ b ∷ []) h w = absurd (omega (arith, w.count_eq))
encode_lem n (a ∷ b ∷ p ∷ q ∷ c) h w = absurd (omega (arith, w.count_eq))

fill-both : (a b p : Bytes) → 1 ≤ length a → 1 ≤ length b → fill a b p ≡ a ∷ b ∷ zip_add a b ∷ []
fill-both [] b p ha hb = absurd (omega arith)
fill-both (x ∷ a) [] p ha hb = absurd (omega arith)
fill-both (x ∷ a) (y ∷ b) p ha hb = refl

fill-second : (a p : Bytes) → 1 ≤ length a → fill a [] p ≡ a ∷ zip_sub p a ∷ p ∷ []
fill-second [] p h = absurd (omega arith)
fill-second (x ∷ a) p h = refl

-- Of three shards two are there, so no two are lost.
no_two_lost :
    (a b p : Bytes)
    → 2 ≤ present (a ∷ b ∷ p ∷ [])
    → (1 ≤ length a + length b) × (1 ≤ length a + length p) × (1 ≤ length b + length p)
unfolding present
no_two_lost a b p h = (ground arith, ground arith, ground arith)

length-lost : (a : Bytes) → a ≡ [] → length a ≡ 0
length-lost a e = ap (λ (t : Bytes). length t) e

fill_lem :
    (n : ℕ) (a b p a' b' p' : Bytes)
    → 1 ≤ n
    → length a ≡ n
    → length b ≡ n
    → p ≡ zip_add a b
    → Survives (a ∷ b ∷ p ∷ []) (a' ∷ b' ∷ p' ∷ [])
    → 2 ≤ present (a' ∷ b' ∷ p' ∷ [])
    → fill a' b' p' ≡ a ∷ b ∷ p ∷ []
fill_lem n a b p a' b' p' h ha hb e (inl sa, (inl sb, (sp, u))) g =
    rw (sa, sb, e) (fill-both a b p' (omega arith) (omega arith))
fill_lem n a b p a' b' p' h ha hb e (inr sa, (inl sb, (inl sp, u))) g =
    rw (sa, sb, sp, e, zip_sub-right a b (omega arith)) refl
fill_lem n a b p a' b' p' h ha hb e (inl sa, (inr sb, (inl sp, u))) g =
    rw (sa, sb, sp, e)
      (fill-second a (zip_add a b) (omega arith) ∙ rw (zip_sub-left a b (omega arith)) refl)
fill_lem n a b p a' b' p' h ha hb e (inr sa, (inr sb, (sp, u))) g =
    absurd (omega (arith, (no_two_lost a' b' p' g).0, length-lost a' sa, length-lost b' sb))
fill_lem n a b p a' b' p' h ha hb e (inr sa, (inl sb, (inr sp, u))) g =
    absurd (omega (arith, (no_two_lost a' b' p' g).1, length-lost a' sa, length-lost p' sp))
fill_lem n a b p a' b' p' h ha hb e (inl sa, (inr sb, (inr sp, u))) g =
    absurd (omega (arith, (no_two_lost a' b' p' g).2, length-lost b' sb, length-lost p' sp))

reconstruct_lem :
    (n : ℕ) (c shards : List Bytes)
    → 1 ≤ n
    → HasShape 3 n c
    → verify c ≡ ok true
    → Survives c shards
    → 2 ≤ present shards
    → reconstruct shards ≡ ok c
reconstruct_lem n (a ∷ b ∷ p ∷ []) (a' ∷ b' ∷ p' ∷ []) h w v s g = ap ok (
    fill_lem n a b p a' b' p' h w.size_eq.0 w.size_eq.1.0 ((str_eq_iff p (zip_add a b)).0 (cc v)) s
      g)
reconstruct_lem n (a ∷ b ∷ p ∷ []) [] h w v s g = absurd s
reconstruct_lem n (a ∷ b ∷ p ∷ []) (a' ∷ []) h w v s g = absurd s.1
reconstruct_lem n (a ∷ b ∷ p ∷ []) (a' ∷ b' ∷ []) h w v s g = absurd s.1.1
reconstruct_lem n (a ∷ b ∷ p ∷ []) (a' ∷ b' ∷ p' ∷ q ∷ r) h w v s g = absurd s.1.1.1
reconstruct_lem n [] shards h w v s g = absurd (omega (arith, w.count_eq))
reconstruct_lem n (a ∷ []) shards h w v s g = absurd (omega (arith, w.count_eq))
reconstruct_lem n (a ∷ b ∷ []) shards h w v s g = absurd (omega (arith, w.count_eq))
reconstruct_lem n (a ∷ b ∷ p ∷ q ∷ c) shards h w v s g = absurd (omega (arith, w.count_eq))

pub parity_engine-IsErasureCode : IsErasureCode 2 1 parity_engine
parity_engine-IsErasureCode = record {
  split_lem = split_lem;
  encode_lem = encode_lem;
  reconstruct_lem = reconstruct_lem;
  join_lem = λ n size c w h. refl;
}

abbrev pub parity_scheme : IsScheme new_parity 2 1
parity_scheme = record {
  engine = parity_engine;
  data_pos = omega arith;
  parity_pos = omega arith;
  small = omega arith;
  created = refl;
  code = parity_engine-IsErasureCode;
}
