-- ===== src/Common/Int.antt =====
-- Go's signed integers over the native numbers: a value is an integer, and a conversion that can
-- wrap is written out at the place where the code makes it.
use Prim.Native.Nat.{ℕ, suc, ◌+◌, ◌-◌, ◌*◌, ◌%◌, ◌^◌, ◌≤◌, ◌<◌}
use mathlib.Core.Bool.{Bool}
use ping_goat.Common.Tests.{ltb, leb, ◌==◌, if◌then◌else◌}

-- `negsuc n` is -(n + 1).
pub data ℤ : Type 0 where
  pos : ℕ → ℤ
  negsuc : ℕ → ℤ

abbrev pub pos_part : ℤ → ℕ
pos_part (pos n) = n
pos_part (negsuc n) = 0

abbrev pub neg_part : ℤ → ℕ
neg_part (pos n) = 0
neg_part (negsuc n) = suc n

infix 50 ◌≤ℤ◌ ◌<ℤ◌
abbrev pub ◌≤ℤ◌ : ℤ → ℤ → Type 0
a ≤ℤ b = pos_part a + neg_part b ≤ pos_part b + neg_part a

abbrev pub ◌<ℤ◌ : ℤ → ℤ → Type 0
a <ℤ b = pos_part a + neg_part b < pos_part b + neg_part a

abbrev pub ltb_ℤ : ℤ → ℤ → Bool
ltb_ℤ a b = ltb (pos_part a + neg_part b) (pos_part b + neg_part a)

abbrev pub leb_ℤ : ℤ → ℤ → Bool
leb_ℤ a b = leb (pos_part a + neg_part b) (pos_part b + neg_part a)

-- The complement of every bit, -n - 1.
abbrev pub complement : ℤ → ℤ
complement (pos n) = negsuc n
complement (negsuc n) = pos n

-- The low 32 bits, read as two's complement.
abbrev pub low_int32 : ℕ → ℤ
low_int32 n =
    let low : ℕ = n % 2 ^ 32 in if ltb low (2 ^ 31) then pos low else negsuc (2 ^ 32 - 1 - low)

-- `int32(z)`, of an `int`.
abbrev pub to_int32 : ℤ → ℤ
to_int32 (pos n) = low_int32 n
to_int32 (negsuc n) = complement (low_int32 n)

-- The low 64 bits, read as two's complement.
abbrev pub low_int64 : ℕ → ℤ
low_int64 n =
    let low : ℕ = n % 2 ^ 64 in if ltb low (2 ^ 63) then pos low else negsuc (2 ^ 64 - 1 - low)

-- What an operation on `int64` leaves of its exact value.
abbrev pub to_int64 : ℤ → ℤ
to_int64 (pos n) = low_int64 n
to_int64 (negsuc n) = complement (low_int64 n)

-- `z * k`, exactly.
abbrev pub scale : ℤ → ℕ → ℤ
scale (pos n) k = pos (n * k)
scale (negsuc n) k = if k == 0 then pos 0 else negsuc (suc n * k - 1)

-- `n + z`
abbrev pub shift : ℕ → ℤ → ℤ
shift n (pos d) = pos (n + d)
shift n (negsuc d) = if ltb d n then pos (n - suc d) else negsuc (d - n)
