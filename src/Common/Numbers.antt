-- ===== src/Common/Numbers.antt =====
-- strconv.Atoi: an optional sign and decimal digits, within the range of a 64-bit `int`.
use Prim.Native.Nat.{ℕ, ◌+◌, ◌-◌, ◌*◌, ◌^◌}
use mathlib.Core.Bool.{◌&&◌}
use mathlib.Core.Option.{Option, none, some}
use mathlib.Core.List.{[], ◌∷◌}
use ping_goat.Common.Tests.{ltb, leb, ◌==◌, if◌then◌else◌}
use ping_goat.Common.Int.{ℤ, pos, negsuc}
use ping_goat.Common.Text.{GoString}

-- The value of digits behind those read so far.
digits : ℕ → GoString → Option ℕ
digits n [] = some n
digits n (c ∷ s) =
    let rest = digits (10 * n + (c - b'0')) s in if leb b'0' c && leb c b'9' then rest else none

-- One digit at least.
abbrev magnitude : GoString → Option ℕ
magnitude [] = none
magnitude (c ∷ s) = digits 0 (c ∷ s)

abbrev in_range : ℕ → Option ℕ → (ℕ → ℤ) → Option ℤ
in_range bound none sign = none
in_range bound (some n) sign = if ltb n bound then some (sign n) else none

abbrev negative : ℕ → ℤ
negative n = if n == 0 then pos 0 else negsuc (n - 1)

-- `none` is an error, of the syntax or of the range.
unfoldable pub atoi : GoString → Option ℤ
unfolding digits
atoi [] = none
atoi (c ∷ s) =
    if c == b'-'
    then in_range (2 ^ 63 + 1) (magnitude s) negative
    else if c == b'+'
    then in_range (2 ^ 63) (magnitude s) pos
    else in_range (2 ^ 63) (magnitude (c ∷ s)) pos
