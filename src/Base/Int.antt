-- ===== src/Base/Int.antt =====
-- C's `int`: signed integers over the native numbers, and 32-bit two's complement arithmetic.
-- Overflow of a signed `int`, which C leaves undefined, is modelled as wrapping.
use Prim.Native.Nat.{ℕ, zero, suc, ◌+◌, ◌-◌, ◌*◌, ◌%◌, ◌^◌, ◌≤◌, ◌<◌}
use mathlib.Core.Path.{◌≡◌}
use mathlib.Core.Bool.{Bool, true, false}
use native.Mathlib.Omega.{arith}
use log_aggregator_c.Base.Tests.{ltb, leb, if◌then◌else◌}

-- `negsuc n` is -(n + 1).
pub data ℤ : Type 0 where
  pos : ℕ → ℤ
  negsuc : ℕ → ℤ

abbrev pub pos_part : ℤ → ℕ
pos_part (pos n) = n
pos_part (negsuc n) = 0

abbrev pub neg_part : ℤ → ℕ
neg_part (pos n) = 0
neg_part (negsuc n) = suc n

-- a - b, as an integer.
abbrev pub sub_ℕ : ℕ → ℕ → ℤ
sub_ℕ a b = if leb b a then pos (a - b) else negsuc (b - a - 1)

infixl 65 ◌+ℤ◌ ◌-ℤ◌
infixl 70 ◌*ℤ◌
infix 50 ◌≤ℤ◌
unfoldable pub ◌+ℤ◌ : ℤ → ℤ → ℤ
a +ℤ b = sub_ℕ (pos_part a + pos_part b) (neg_part a + neg_part b)

unfoldable pub ◌-ℤ◌ : ℤ → ℤ → ℤ
a -ℤ b = sub_ℕ (pos_part a + neg_part b) (neg_part a + pos_part b)

unfoldable pub ◌*ℤ◌ : ℤ → ℤ → ℤ
a *ℤ b =
    sub_ℕ (pos_part a * pos_part b + neg_part a * neg_part b)
      (pos_part a * neg_part b + neg_part a * pos_part b)

abbrev pub ◌≤ℤ◌ : ℤ → ℤ → Type 0
a ≤ℤ b = pos_part a + neg_part b ≤ pos_part b + neg_part a

abbrev pub ltb_ℤ : ℤ → ℤ → Bool
ltb_ℤ a b = ltb (pos_part a + neg_part b) (pos_part b + neg_part a)

abbrev pub leb_ℤ : ℤ → ℤ → Bool
leb_ℤ a b = leb (pos_part a + neg_part b) (pos_part b + neg_part a)

-- result != 0
abbrev pub failed : ℤ → Bool
failed (pos zero) = false
failed (pos (suc n)) = true
failed (negsuc n) = true

-- The bits of a 32-bit word, and the `int` that they stand for.
abbrev pub unsigned32 : ℤ → ℕ
unsigned32 (pos n) = n % 2 ^ 32
unsigned32 (negsuc n) = 2 ^ 32 - 1 - n % 2 ^ 32

abbrev pub signed32 : ℕ → ℤ
signed32 u = if ltb u (2 ^ 31) then pos u else negsuc (2 ^ 32 - 1 - u)

unfoldable pub wrap32 : ℤ → ℤ
wrap32 z = signed32 (unsigned32 z)

unfoldable pub add32 : ℤ → ℤ → ℤ
unfolding ◌+ℤ◌ wrap32
add32 a b = wrap32 (a +ℤ b)

unfoldable pub sub32 : ℤ → ℤ → ℤ
unfolding ◌-ℤ◌ wrap32
sub32 a b = wrap32 (a -ℤ b)

unfoldable pub mul32 : ℤ → ℤ → ℤ
unfolding ◌*ℤ◌ wrap32
mul32 a b = wrap32 (a *ℤ b)

-- C's `%` by a positive number takes the sign of its left side.
unfoldable pub rem32 : ℤ → ℕ → ℤ
rem32 (pos n) m = pos (n % m)
rem32 (negsuc n) m = sub_ℕ 0 (suc n % m)

pub wrap32-pos : (n : ℕ) → n < 2 ^ 31 → wrap32 (pos n) ≡ pos n
unfolding wrap32
wrap32-pos n h = ground arith

pub wrap32-negsuc : (n : ℕ) → n < 2 ^ 31 → wrap32 (negsuc n) ≡ negsuc n
unfolding wrap32
wrap32-negsuc n h = ground arith

-- Sums and differences of small numbers are exact.
pub add32-pos : (a b : ℕ) → a + b < 2 ^ 31 → add32 (pos a) (pos b) ≡ pos (a + b)
unfolding add32
add32-pos a b h = ground arith

pub sub32-pos : (a b : ℕ) → a < 2 ^ 31 → b < 2 ^ 31 → sub32 (pos a) (pos b) ≡ sub_ℕ a b
unfolding sub32
sub32-pos a b h k = ground arith

pub mul32-pos : (a b : ℕ) → a * b < 2 ^ 31 → mul32 (pos a) (pos b) ≡ pos (a * b)
unfolding mul32
mul32-pos a b h = ground arith

-- a - 1 + m and a - 1 - o + m stay exact while they are small and do not end below 0.
pub add32-sub32 :
    (a b m : ℕ)
    → a < 2 ^ 30
    → b ≤ 2 ^ 30
    → m ≤ 2 ^ 30
    → b ≤ a + m
    → add32 (sub32 (pos a) (pos b)) (pos m) ≡ pos (a + m - b)
unfolding add32 sub32
add32-sub32 a b m ha hb hm h = ground arith

pub sub32-sub32 :
    (a b o : ℕ)
    → a < 2 ^ 30
    → b + o ≤ 2 ^ 30
    → sub32 (sub32 (pos a) (pos b)) (pos o) ≡ sub32 (pos a) (pos (b + o))
unfolding sub32
sub32-sub32 a b o ha hb = ground arith

pub add32-minus_one : (a : ℕ) → a < 2 ^ 30 → add32 (pos a) (negsuc 0) ≡ sub_ℕ a 1
unfolding add32
add32-minus_one a h = ground arith
