-- ===== src/Common/Digits.antt =====
-- Go's `fmt` and `strconv` on integers: printing to a base, and scanning what was printed.
use Prim.Native.Nat.{ℕ, zero, suc, ◌+◌, ◌-◌, ◌*◌, ◌/◌, ◌%◌, ◌^◌, ◌≤◌, ◌<◌}
use mathlib.Core.Path.{◌≡◌, refl, ap, ◌∙◌}
use mathlib.Core.Logic.{inl, inr}
use mathlib.Core.Bool.{true, false, ◌&&◌, ◌||◌}
use mathlib.Core.Option.{Option, none, some}
use mathlib.Core.List.{[], ◌∷◌, ◌++◌}
use native.Mathlib.Omega.{arith}
use shardstore.Common.Tests.{ltb, leb, ◌==◌, if◌then◌else◌, Bool-cases}
use shardstore.Common.Lists.{length, All, length-append}
use shardstore.Common.Ints.{ℤ, pos, negsuc}
use shardstore.Common.ByteStrings.{Bytes, codes}

abbrev pub digit : ℕ → ℕ
digit d = if ltb d 10 then 48 + d else 87 + d

-- The digits of a number, by fuel.
unfoldable pub format_nat : ℕ → ℕ → ℕ → Bytes
format_nat base zero n = []
format_nat base (suc fuel) n =
    let rest = format_nat base fuel (n / base) in
    if ltb n base then digit n ∷ [] else rest ++ digit (n % base) ∷ []

-- `strconv.FormatInt` and the verbs %d and %x: 64 binary digits are enough for an int64.
unfoldable pub format_int : ℕ → ℤ → Bytes
unfolding format_nat
format_int base (pos n) = format_nat base 64 n
format_int base (negsuc n) = codes "-" ++ format_nat base 64 (n + 1)

-- The verb %0wx for a number of at most `w` hexadecimal digits, and a byte of hex.EncodeToString.
unfoldable pub format_hex : ℕ → ℕ → Bytes
format_hex zero n = []
format_hex (suc w) n = format_hex w (n / 16) ++ digit (n % 16) ∷ []

-- The value of a digit, of either case; 16 and more for any other character.
abbrev pub digit_value : ℕ → ℕ
digit_value c =
    if leb 48 c && leb c 57
    then c - 48
    else if leb 97 c && leb c 102
    then c - 87
    else if leb 65 c && leb c 70
    then c - 55
    else 99

-- The digits at the front, `w` at most, read behind a number.
unfoldable pub scan_digits : ℕ → ℕ → ℕ → Bytes → ℕ
scan_digits base zero n s = n
scan_digits base (suc w) n [] = n
scan_digits base (suc w) n (c ∷ s) =
    let rest = scan_digits base w (n * base + digit_value c) s in
    if ltb (digit_value c) base then rest else n

-- `fmt.Sscanf` with %wx or %d into an unsigned number: spaces are skipped, one digit is wanted, and
-- what stands behind the digits does not matter.
unfoldable pub scan_uint : ℕ → ℕ → Bytes → Option ℕ
unfolding scan_digits
scan_uint base w [] = none
scan_uint base w (c ∷ s) =
    let rest = scan_uint base w s in
    if (c == 32) || (c == 9)
    then rest
    else if ltb (digit_value c) base
    then some (scan_digits base w 0 (c ∷ s))
    else none

-- The number that a list of digits means, behind another.
abbrev number : ℕ → ℕ → Bytes → ℕ
number base n [] = n
number base n (c ∷ s) = number base (n * base + digit_value c) s

abbrev pub AreDigits : ℕ → Bytes → Type 0
AreDigits base s = All (λ c. digit_value c < base) s

number-append :
    (base n d : ℕ) (s : Bytes)
    → number base n (s ++ d ∷ []) ≡ number base n s * base + digit_value d
number-append base n d [] = refl
number-append base n d (c ∷ s) = number-append base (n * base + digit_value c) d s

pub AreDigits-append :
    (base d : ℕ) (s : Bytes)
    → AreDigits base s
    → digit_value d < base
    → AreDigits base (s ++ d ∷ [])
AreDigits-append base d [] h hd = (hd, tt)
AreDigits-append base d (c ∷ s) (hc, h) hd = (hc, AreDigits-append base d s h hd)

pub digit_value-digit : (d : ℕ) → d < 16 → digit_value (digit d) ≡ d
digit_value-digit d h = ground arith

scan_digits-number :
    (base w n : ℕ) (s : Bytes)
    → length s ≤ w
    → AreDigits base s
    → scan_digits base w n s ≡ number base n s
unfolding scan_digits
scan_digits-number base zero n [] h a = refl
scan_digits-number base zero n (c ∷ s) h a = absurd (omega arith)
scan_digits-number base (suc w) n [] h a = refl
scan_digits-number base (suc w) n (c ∷ s) h (hc, a) =
    let here : ltb (digit_value c) base ≡ true = ground arith in
    rw here (scan_digits-number base w (n * base + digit_value c) s (omega arith) a)

scan_uint-number :
    (base w : ℕ) (s : Bytes)
    → base ≤ 16
    → 1 ≤ length s
    → length s ≤ w
    → AreDigits base s
    → scan_uint base w s ≡ some (number base 0 s)
unfolding scan_uint
scan_uint-number base w [] hb h1 hw a = absurd (omega arith)
scan_uint-number base w (c ∷ s) hb h1 hw (hc, a) =
    let here : ltb (digit_value c) base ≡ true = ground arith in
    let seen : ((c == 32) || (c == 9)) ≡ false = ground arith in
    rw (seen, here) (ap some (scan_digits-number base w 0 (c ∷ s) hw (hc, a)))

fuel_pos : (fuel n : ℕ) → n < 10 ^ suc fuel → 10 ≤ n → 1 ≤ fuel
fuel_pos zero n h large = omega arith
fuel_pos (suc fuel) n h large = omega arith

format_nat_short : (fuel n : ℕ) → ltb n 10 ≡ true → format_nat 10 (suc fuel) n ≡ digit n ∷ []
unfolding format_nat
format_nat_short fuel n e = rw e refl

format_nat_long :
    (fuel n : ℕ)
    → ltb n 10 ≡ false
    → format_nat 10 (suc fuel) n ≡ format_nat 10 fuel (n / 10) ++ digit (n % 10) ∷ []
unfolding format_nat
format_nat_long fuel n e = rw e refl

format_nat-AreDigits : (fuel n : ℕ) → AreDigits 10 (format_nat 10 fuel n)
format_nat-AreDigits zero n = unfold format_nat in tt
format_nat-AreDigits (suc fuel) n = elim (Bool-cases (ltb n 10)) [
  | inl h ↦
      let small : n < 10 = ground arith in
      let value = digit_value-digit n (omega arith) in
      rw (format_nat_short fuel n h) (omega (arith, value), tt)
  | inr h ↦
      let value = digit_value-digit (n % 10) (omega arith) in
      rw (format_nat_long fuel n h)
        (AreDigits-append 10 _ _ (format_nat-AreDigits fuel (n / 10)) (omega (arith, value)))
]

number-format_nat : (fuel n : ℕ) → 1 ≤ fuel → n < 10 ^ fuel → number 10 0 (format_nat 10 fuel n) ≡ n
number-format_nat zero n hf h = absurd (omega arith)
number-format_nat (suc fuel) n hf h = elim (Bool-cases (ltb n 10)) [
  | inl e ↦
      let small : n < 10 = ground arith in
      rw (format_nat_short fuel n e) (omega (arith, digit_value-digit n (omega arith)))
  | inr e ↦
      let large : 10 ≤ n = ground arith in
      let more : 1 ≤ fuel = fuel_pos fuel n h large in
      rw (format_nat_long fuel n e) (
        number-append 10 0 (digit (n % 10)) (format_nat 10 fuel (n / 10))
        ∙ omega (
          arith,
          number-format_nat fuel (n / 10) more (omega arith),
          digit_value-digit (n % 10) (omega arith),
        ))
]

format_nat_pos : (fuel n : ℕ) → 1 ≤ fuel → 1 ≤ length (format_nat 10 fuel n)
format_nat_pos zero n h = absurd (omega arith)
format_nat_pos (suc fuel) n h = elim (Bool-cases (ltb n 10)) [
  | inl e ↦ rw (format_nat_short fuel n e) (omega arith)
  | inr e ↦
      rw (format_nat_long fuel n e)
        (omega (arith, length-append (format_nat 10 fuel (n / 10)) (digit (n % 10) ∷ [])))
]

-- A number below 10 ^ 64 is printed in decimal digits only, and %d scans it back.
pub scan_uint-format_int :
    (w n : ℕ)
    → n < 10 ^ 64
    → length (format_int 10 (pos n)) ≤ w
    → (AreDigits 10 (format_int 10 (pos n))) × (scan_uint 10 w (format_int 10 (pos n)) ≡ some n)
unfolding format_int
scan_uint-format_int w n h hw =
    let digits = format_nat-AreDigits 64 n in
    (
      digits,
      scan_uint-number 10 w (format_nat 10 64 n) (omega arith) (format_nat_pos 64 n (omega arith))
            hw digits
          ∙ ap some (number-format_nat 64 n (omega arith) h),
    )

pub length-format_hex : (w n : ℕ) → length (format_hex w n) ≡ w
unfolding format_hex
length-format_hex zero n = refl
length-format_hex (suc w) n = omega (
  arith,
  length-format_hex w (n / 16),
  length-append (format_hex w (n / 16)) (digit (n % 16) ∷ []),
)

pub format_hex-AreDigits : (w n : ℕ) → AreDigits 16 (format_hex w n)
unfolding format_hex
format_hex-AreDigits zero n = tt
format_hex-AreDigits (suc w) n =
    let value = digit_value-digit (n % 16) (omega arith) in
    AreDigits-append 16 _ _ (format_hex-AreDigits w (n / 16)) (omega (arith, value))

number-format_hex : (w n : ℕ) → n < 16 ^ w → number 16 0 (format_hex w n) ≡ n
unfolding format_hex
number-format_hex zero n h = omega arith
number-format_hex (suc w) n h =
    number-append 16 0 (digit (n % 16)) (format_hex w (n / 16))
    ∙ omega (
      arith,
      number-format_hex w (n / 16) (omega arith),
      digit_value-digit (n % 16) (omega arith),
    )

-- What %0wx prints of a number of at most w digits, %wx scans back.
pub scan_uint-format_hex : (w n : ℕ) → 1 ≤ w → n < 16 ^ w → scan_uint 16 w (format_hex w n) ≡ some n
scan_uint-format_hex w n hw h =
    scan_uint-number 16 w (format_hex w n) (omega arith) (omega (arith, length-format_hex w n))
      (omega (arith, length-format_hex w n)) (format_hex-AreDigits w n)
    ∙ ap some (number-format_hex w n h)
