-- ===== src/Base/Int.antt =====
-- Signed integers over the native numbers, and the 32-bit `int` of C.
use Prim.Native.Nat.{ℕ, suc, ◌+◌, ◌-◌, ◌≤◌, ◌<◌, ◌^◌}
use mathlib.Core.Path.{◌≡◌}
use mathlib.Core.Bool.{Bool}
use native.Mathlib.Omega.{arith}
use so_2021v_li42d.Base.Tests.{ltb, leb, if◌then◌else◌}

-- `negsuc n` is -(n + 1).
pub data ℤ : Type 0 where
  pos : ℕ → ℤ
  negsuc : ℕ → ℤ

abbrev pub pos_part : ℤ → ℕ
pos_part (pos n) = n
pos_part (negsuc n) = 0

abbrev pub neg_part : ℤ → ℕ
neg_part (pos n) = 0
neg_part (negsuc n) = suc n

-- a - b, as an integer.
abbrev pub sub_ℕ : ℕ → ℕ → ℤ
sub_ℕ a b = if leb b a then pos (a - b) else negsuc (b - a - 1)

infixl 65 ◌+ℤ◌ ◌-ℤ◌
unfoldable pub ◌+ℤ◌ : ℤ → ℤ → ℤ
a +ℤ b = sub_ℕ (pos_part a + pos_part b) (neg_part a + neg_part b)

unfoldable pub ◌-ℤ◌ : ℤ → ℤ → ℤ
a -ℤ b = sub_ℕ (pos_part a + neg_part b) (neg_part a + pos_part b)

abbrev pub ltb_ℤ : ℤ → ℤ → Bool
ltb_ℤ a b = ltb (pos_part a + neg_part b) (pos_part b + neg_part a)

-- What a sum or difference of two values of `int` becomes in 32 bits, two's complement.
unfoldable pub wrap_int : ℤ → ℤ
unfolding ◌+ℤ◌ ◌-ℤ◌
wrap_int a =
    if ltb_ℤ a (pos (2 ^ 31))
    then (if ltb_ℤ a (negsuc (2 ^ 31 - 1)) then a +ℤ pos (2 ^ 32) else a)
    else a -ℤ pos (2 ^ 32)

pub wrap_int-add : (a b : ℕ) → a + b < 2 ^ 31 → wrap_int (pos a +ℤ pos b) ≡ pos (a + b)
unfolding wrap_int
wrap_int-add a b h = ground arith

pub wrap_int-sub : (a b : ℕ) → a < 2 ^ 31 → b ≤ a → wrap_int (pos a -ℤ pos b) ≡ pos (a - b)
unfolding wrap_int
wrap_int-sub a b small h = ground arith
