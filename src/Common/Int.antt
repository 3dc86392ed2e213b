-- ===== src/Common/Int.antt =====
-- Signed integers over the native numbers, under the library's names. Sums and orders go through
-- the two parts of an integer.
use Prim.Native.Nat.{ℕ, suc, ◌+◌, ◌-◌, ◌%◌, ◌^◌, ◌≤◌}
use mathlib.Core.Bool.{Bool}
use native.Mathlib.Omega.{arith}
use kovanica_node.Common.Tests.{ltb, leb, if◌then◌else◌}

-- `negsuc n` is -(n + 1).
pub data ℤ : Type 0 where
  pos : ℕ → ℤ
  negsuc : ℕ → ℤ

abbrev pub pos_part : ℤ → ℕ
pos_part (pos n) = n
pos_part (negsuc n) = 0

abbrev pub neg_part : ℤ → ℕ
neg_part (pos n) = 0
neg_part (negsuc n) = suc n

-- a - b, as an integer.
abbrev pub sub_ℕ : ℕ → ℕ → ℤ
sub_ℕ a b = if leb b a then pos (a - b) else negsuc (b - a - 1)

infixl 65 ◌+ℤ◌
infix 50 ◌≤ℤ◌
unfoldable pub ◌+ℤ◌ : ℤ → ℤ → ℤ
a +ℤ b = sub_ℕ (pos_part a + pos_part b) (neg_part a + neg_part b)

abbrev pub ◌≤ℤ◌ : ℤ → ℤ → Type 0
a ≤ℤ b = pos_part a + neg_part b ≤ pos_part b + neg_part a

abbrev pub ltb_ℤ : ℤ → ℤ → Bool
ltb_ℤ a b = ltb (pos_part a + neg_part b) (pos_part b + neg_part a)

abbrev pub leb_ℤ : ℤ → ℤ → Bool
leb_ℤ a b = leb (pos_part a + neg_part b) (pos_part b + neg_part a)

-- The `i32` that a sum wraps to in a release build.
unfoldable pub wrap_i32 : ℤ → ℤ
wrap_i32 z = sub_ℕ ((pos_part z + 2 ^ 31 + 2 ^ 32 - neg_part z % 2 ^ 32) % 2 ^ 32) (2 ^ 31)

-- `Ord::clamp`, without its assertion that `lower <= upper`.
unfoldable pub clamp_ℤ : ℤ → ℤ → ℤ → ℤ
clamp_ℤ z lower upper = if ltb_ℤ z lower then lower else if ltb_ℤ upper z then upper else z

pub clamp_ℤ_bounds :
    (z lower upper : ℤ)
    → lower ≤ℤ upper
    → (lower ≤ℤ clamp_ℤ z lower upper) × (clamp_ℤ z lower upper ≤ℤ upper)
unfolding clamp_ℤ
clamp_ℤ_bounds z lower upper h = ground arith
