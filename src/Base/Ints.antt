-- ===== src/Base/Ints.antt =====
-- Go's `int` and `int64`: integers that wrap at 64 bits. `negsuc n` is -(n + 1).
use Prim.Native.Nat.{ℕ, suc, ◌+◌, ◌-◌, ◌%◌, ◌<◌, ◌≤◌}
use mathlib.Core.Path.{◌≡◌}
use mathlib.Core.Bool.{Bool}
use native.Mathlib.Omega.{arith}
use lucinda.Base.Tests.{ltb, leb, if◌then◌else◌}

pub data ℤ : Type 0 where
  pos : ℕ → ℤ
  negsuc : ℕ → ℤ

abbrev pub pos_part : ℤ → ℕ
pos_part (pos n) = n
pos_part (negsuc n) = 0

abbrev pub neg_part : ℤ → ℕ
neg_part (pos n) = 0
neg_part (negsuc n) = suc n

-- a - b, as an integer.
abbrev pub sub_ℕ : ℕ → ℕ → ℤ
sub_ℕ a b = if leb b a then pos (a - b) else negsuc (b - a - 1)

infix 50 ◌≤ℤ◌
abbrev pub ◌≤ℤ◌ : ℤ → ℤ → Type 0
a ≤ℤ b = pos_part a + neg_part b ≤ pos_part b + neg_part a

abbrev pub ltb_ℤ : ℤ → ℤ → Bool
ltb_ℤ a b = ltb (pos_part a + neg_part b) (pos_part b + neg_part a)

abbrev pub leb_ℤ : ℤ → ℤ → Bool
leb_ℤ a b = leb (pos_part a + neg_part b) (pos_part b + neg_part a)

-- 2 ^ 63 and 2 ^ 64
abbrev pub int_min_abs : ℕ
int_min_abs = 9223372036854775808

abbrev pub word : ℕ
word = 18446744073709551616

-- The 64-bit value of a bit pattern.
abbrev of_bits : ℕ → ℤ
of_bits b = if ltb b int_min_abs then pos b else negsuc (word - b - 1)

-- The value that a 64-bit register holds for an integer.
unfoldable pub wrap64 : ℤ → ℤ
wrap64 (pos n) = of_bits (n % word)
wrap64 (negsuc n) = of_bits (word - 1 - n % word)

unfoldable pub add64 : ℤ → ℤ → ℤ
unfolding wrap64
add64 a b = wrap64 (sub_ℕ (pos_part a + pos_part b) (neg_part a + neg_part b))

unfoldable pub sub64 : ℤ → ℤ → ℤ
unfolding wrap64
sub64 a b = wrap64 (sub_ℕ (pos_part a + neg_part b) (neg_part a + pos_part b))

abbrev pub InRange : ℤ → Type 0
InRange a = (pos_part a < int_min_abs) × (neg_part a ≤ int_min_abs)

-- Any integer that fits is its own register value.
pub wrap64_fits : (a : ℤ) → InRange a → wrap64 a ≡ a
unfolding wrap64
wrap64_fits (pos n) h = ground arith
wrap64_fits (negsuc n) h = ground arith

pub add64_pos : (m n : ℕ) → m + n < int_min_abs → add64 (pos m) (pos n) ≡ pos (m + n)
unfolding add64
add64_pos m n h = ground arith

pub sub64_pos : (m n : ℕ) → m < int_min_abs → n < int_min_abs → sub64 (pos m) (pos n) ≡ sub_ℕ m n
unfolding sub64
sub64_pos m n h k = ground arith

pub sub64_one : (n : ℕ) → suc n < int_min_abs → sub64 (pos (suc n)) (pos 1) ≡ pos n
unfolding sub64
sub64_one n h = ground arith
