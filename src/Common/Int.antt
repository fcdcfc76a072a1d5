-- ===== src/Common/Int.antt =====
-- Go's `int64`: signed integers over the native numbers, with wrap-around written out.
use Prim.Native.Nat.{ℕ, suc, ◌+◌, ◌-◌, ◌*◌, ◌/◌, ◌%◌, ◌≤◌, ◌<◌}
use mathlib.Core.Path.{◌≡◌}
use mathlib.Core.Bool.{Bool}
use native.Mathlib.Omega.{arith}
use nobus_csi.Common.Tests.{ltb, leb, eqb, if◌then◌else◌}

-- `negsuc n` is -(n + 1).
pub data ℤ : Type 0 where
  pos : ℕ → ℤ
  negsuc : ℕ → ℤ

abbrev pub pos_part : ℤ → ℕ
pos_part (pos n) = n
pos_part (negsuc n) = 0

abbrev pub neg_part : ℤ → ℕ
neg_part (pos n) = 0
neg_part (negsuc n) = suc n

-- a - b, as an integer.
abbrev pub sub_ℕ : ℕ → ℕ → ℤ
sub_ℕ a b = if leb b a then pos (a - b) else negsuc (b - a - 1)

infix 50 ◌≤ℤ◌
abbrev pub ◌≤ℤ◌ : ℤ → ℤ → Type 0
a ≤ℤ b = pos_part a + neg_part b ≤ pos_part b + neg_part a

abbrev pub ltb_ℤ : ℤ → ℤ → Bool
ltb_ℤ a b = ltb (pos_part a + neg_part b) (pos_part b + neg_part a)

abbrev pub leb_ℤ : ℤ → ℤ → Bool
leb_ℤ a b = leb (pos_part a + neg_part b) (pos_part b + neg_part a)

abbrev pub eqb_ℤ : ℤ → ℤ → Bool
eqb_ℤ a b = eqb (pos_part a + neg_part b) (pos_part b + neg_part a)

-- The `int64` with a given bit pattern.
unfoldable pub signed64 : ℕ → ℤ
signed64 u =
    if ltb u 9_223_372_036_854_775_808 then pos u else negsuc (18_446_744_073_709_551_615 - u)

-- The value that `int64` arithmetic keeps of an exact result.
unfoldable pub wrap64 : ℤ → ℤ
unfolding signed64
wrap64 (pos n) = signed64 (n % 18_446_744_073_709_551_616)
wrap64 (negsuc n) = signed64 (18_446_744_073_709_551_615 - n % 18_446_744_073_709_551_616)

unfoldable pub add64 : ℤ → ℤ → ℤ
unfolding wrap64
add64 a b = wrap64 (sub_ℕ (pos_part a + pos_part b) (neg_part a + neg_part b))

unfoldable pub sub64 : ℤ → ℤ → ℤ
unfolding wrap64
sub64 a b = wrap64 (sub_ℕ (pos_part a + neg_part b) (neg_part a + pos_part b))

unfoldable pub mul64 : ℤ → ℤ → ℤ
unfolding wrap64
mul64 a b = wrap64 (
    sub_ℕ (pos_part a * pos_part b + neg_part a * neg_part b)
      (pos_part a * neg_part b + neg_part a * pos_part b))

-- `/` and `%` truncate towards zero. The code divides by no zero.
unfoldable pub quot64 : ℤ → ℤ → ℤ
unfolding wrap64
quot64 (pos a) (pos b) = pos (a / b)
quot64 (pos a) (negsuc b) = wrap64 (sub_ℕ 0 (a / suc b))
quot64 (negsuc a) (pos b) = wrap64 (sub_ℕ 0 (suc a / b))
quot64 (negsuc a) (negsuc b) = wrap64 (pos (suc a / suc b))

unfoldable pub rem64 : ℤ → ℤ → ℤ
rem64 (pos a) (pos b) = pos (a % b)
rem64 (pos a) (negsuc b) = pos (a % suc b)
rem64 (negsuc a) (pos b) = sub_ℕ 0 (suc a % b)
rem64 (negsuc a) (negsuc b) = sub_ℕ 0 (suc a % suc b)

-- 2 ^ 63, one more than the largest `int64`.
abbrev pub limit63 : ℕ
limit63 = 9_223_372_036_854_775_808

pub wrap64_pos : (n : ℕ) → n < limit63 → wrap64 (pos n) ≡ pos n
unfolding wrap64
wrap64_pos n h = ground arith

-- A positive result that is too large turns negative.
pub wrap64_overflow :
    (n : ℕ)
    → limit63 ≤ n
    → n < 18_446_744_073_709_551_616
    → wrap64 (pos n) ≡ negsuc (18_446_744_073_709_551_615 - n)
unfolding wrap64
wrap64_overflow n h k = ground arith

pub add64_pos : (a b : ℕ) → add64 (pos a) (pos b) ≡ wrap64 (pos (a + b))
unfolding add64
add64_pos a b = ground arith

pub mul64_pos : (a b : ℕ) → mul64 (pos a) (pos b) ≡ wrap64 (pos (a * b))
unfolding mul64
mul64_pos a b = ground arith
