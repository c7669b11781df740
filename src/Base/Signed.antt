-- ===== src/Base/Signed.antt =====
-- Signed integers, and the 32 bits that hold one of type int32_t.
use Prim.Native.Nat.{ℕ, ◌+◌, ◌-◌, ◌%◌, ◌^◌, ◌<◌}
use mathlib.Core.Path.{◌≡◌}
use native.Mathlib.Omega.{arith}
use phonebook.Base.Tests.{ltb, if◌then◌else◌}

-- `negsuc n` is -(n + 1).
pub data ℤ : Type 0 where
  pos negsuc : ℕ → ℤ

infixl 65 ◌+ℤ◌
unfoldable pub ◌+ℤ◌ : ℤ → ℤ → ℤ
pos a +ℤ pos b = pos (a + b)
pos a +ℤ negsuc b = if ltb b a then pos (a - b - 1) else negsuc (b - a)
negsuc a +ℤ pos b = if ltb a b then pos (b - a - 1) else negsuc (a - b)
negsuc a +ℤ negsuc b = negsuc (a + b + 1)

-- From -2^31 to 2^31 - 1.
abbrev pub IsInt32 : ℤ → Type 0
IsInt32 (pos n) = n < 2 ^ 31
IsInt32 (negsuc n) = n < 2 ^ 31

-- The two's complement of an int32_t, and what 32 bits stand for.
unfoldable pub to_bits : ℤ → ℕ
to_bits (pos n) = n
to_bits (negsuc n) = 2 ^ 32 - 1 - n

unfoldable pub of_bits : ℕ → ℤ
of_bits n = if ltb n (2 ^ 31) then pos n else negsuc (2 ^ 32 - 1 - n)

pub to_bits-lt : (x : ℤ) → IsInt32 x → to_bits x < 2 ^ 32
unfolding to_bits
to_bits-lt (pos n) h = omega (arith, h)
to_bits-lt (negsuc n) h = omega (arith, h)

-- Where a sum is an int32_t, the sum of the bits stands for it.
pub of_bits-sum :
    (x y : ℤ)
    → IsInt32 x
    → IsInt32 y
    → IsInt32 (x +ℤ y)
    → of_bits ((to_bits x + to_bits y) % 2 ^ 32) ≡ x +ℤ y
unfolding ◌+ℤ◌ to_bits of_bits
of_bits-sum (pos a) (pos b) h k l = ground arith
of_bits-sum (pos a) (negsuc b) h k l = ground arith
of_bits-sum (negsuc a) (pos b) h k l = ground arith
of_bits-sum (negsuc a) (negsuc b) h k l = ground arith
