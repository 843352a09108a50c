-- ===== src/Common/Atoi.antt =====
-- Go's `strconv.Atoi` and `strconv.ParseInt` to base 10.
use Prim.Native.Nat.{ℕ, ◌+◌, ◌-◌, ◌*◌, ◌^◌}
use mathlib.Core.Bool.{◌&&◌}
use mathlib.Core.Option.{Option, none, some}
use mathlib.Core.List.{[], ◌∷◌}
use shardstore.Common.Tests.{ltb, leb, ◌==◌, if◌then◌else◌}
use shardstore.Common.Ints.{ℤ, pos, sub_ℕ}
use shardstore.Common.ByteStrings.{Bytes}

-- All the digits, read behind a number.
unfoldable pub decimal : ℕ → Bytes → Option ℕ
decimal n [] = some n
decimal n (c ∷ s) =
    let rest = decimal (n * 10 + (c - 48)) s in if leb 48 c && leb c 57 then rest else none

-- One digit at least.
abbrev pub magnitude : Bytes → Option ℕ
magnitude [] = none
magnitude (c ∷ s) = decimal 0 (c ∷ s)

-- The bounds of an int64.
abbrev pub positive : Option ℕ → Option ℤ
positive none = none
positive (some n) = if ltb n (2 ^ 63) then some (pos n) else none

abbrev pub negative : Option ℕ → Option ℤ
negative none = none
negative (some n) = if leb n (2 ^ 63) then some (sub_ℕ 0 n) else none

-- The number, unless there is an error.
unfoldable pub atoi : Bytes → Option ℤ
unfolding decimal
atoi [] = none
atoi (c ∷ s) =
    if c == 45
    then negative (magnitude s)
    else if c == 43
    then positive (magnitude s)
    else positive (magnitude (c ∷ s))
