-- ===== src/Prelude/Int.antt =====
-- Rust's `i64`: integers over the native numbers (the library's ℤ stands on the unary ℕ), their
-- order, and addition with the wrap-around of two's complement.
use moxui.Prelude.Tests.{ltb, leb, if◌then◌else◌}
use Prim.Native.Nat.{ℕ, suc, ◌+◌, ◌-◌, ◌%◌, ◌^◌, ◌≤◌, ◌<◌}
use mathlib.Core.Path.{◌≡◌}
use mathlib.Core.Bool.{Bool}
use native.Mathlib.Omega.{arith}

-- `negsuc n` is -(n + 1).
pub data ℤ : Type 0 where
  pos : ℕ → ℤ
  negsuc : ℕ → ℤ

abbrev pub pos_part : ℤ → ℕ
pos_part (pos n) = n
pos_part (negsuc n) = 0

abbrev pub neg_part : ℤ → ℕ
neg_part (pos n) = 0
neg_part (negsuc n) = suc n

-- a - b, as an integer.
abbrev pub sub_ℕ : ℕ → ℕ → ℤ
sub_ℕ a b = if leb b a then pos (a - b) else negsuc (b - a - 1)

infixl 65 ◌+ℤ◌
infix 50 ◌≤ℤ◌ ◌<ℤ◌
unfoldable pub ◌+ℤ◌ : ℤ → ℤ → ℤ
a +ℤ b = sub_ℕ (pos_part a + pos_part b) (neg_part a + neg_part b)

abbrev pub ◌≤ℤ◌ : ℤ → ℤ → Type 0
a ≤ℤ b = pos_part a + neg_part b ≤ pos_part b + neg_part a

abbrev pub ◌<ℤ◌ : ℤ → ℤ → Type 0
a <ℤ b = pos_part a + neg_part b < pos_part b + neg_part a

abbrev pub ltb_ℤ : ℤ → ℤ → Bool
ltb_ℤ a b = ltb (pos_part a + neg_part b) (pos_part b + neg_part a)

pub +ℤ_parts :
    (a b : ℤ)
    → pos_part (a +ℤ b) + neg_part a + neg_part b ≡ neg_part (a +ℤ b) + pos_part a + pos_part b
unfolding ◌+ℤ◌
+ℤ_parts a b = ground arith

-- The bit pattern of an integer, and the `i64` that a bit pattern stands for.
to_u64 : ℤ → ℕ
to_u64 (pos n) = n % 2 ^ 64
to_u64 (negsuc n) = 2 ^ 64 - 1 - n % 2 ^ 64

of_u64 : ℕ → ℤ
of_u64 m = if ltb m (2 ^ 63) then pos m else negsuc (2 ^ 64 - 1 - m)

-- `a + b` on `i64`, as a release build computes it.
unfoldable pub add_i64 : ℤ → ℤ → ℤ
unfolding to_u64 of_u64 ◌+ℤ◌
add_i64 a b = of_u64 (to_u64 (a +ℤ b))

-- The values of `i64`.
abbrev pub InI64 : ℤ → Type 0
InI64 a = (pos_part a < 2 ^ 63) × (neg_part a ≤ 2 ^ 63)

of_u64-to_u64 : (a : ℤ) → InI64 a → of_u64 (to_u64 a) ≡ a
unfolding to_u64 of_u64
of_u64-to_u64 (pos n) h = ground arith
of_u64-to_u64 (negsuc n) h = ground arith

-- Within the range of `i64` the sum is the integer sum.
pub add_i64_exact : (a b : ℤ) → InI64 (a +ℤ b) → add_i64 a b ≡ a +ℤ b
unfolding add_i64
add_i64_exact a b h = of_u64-to_u64 (a +ℤ b) h

-- `a - b` on `i64`, as a release build computes it.
infixl 65 ◌-ℤ◌
unfoldable pub ◌-ℤ◌ : ℤ → ℤ → ℤ
a -ℤ b = sub_ℕ (pos_part a + neg_part b) (neg_part a + pos_part b)

unfoldable pub sub_i64 : ℤ → ℤ → ℤ
unfolding to_u64 of_u64 ◌-ℤ◌
sub_i64 a b = of_u64 (to_u64 (a -ℤ b))

pub sub_i64_exact : (a b : ℤ) → InI64 (a -ℤ b) → sub_i64 a b ≡ a -ℤ b
unfolding sub_i64
sub_i64_exact a b h = of_u64-to_u64 (a -ℤ b) h
