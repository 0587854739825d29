-- ===== src/Common/Ints.antt =====
-- Signed integers over the native numbers.
use Prim.Native.Nat.{ℕ, suc, ◌+◌, ◌-◌, ◌≤◌, ◌<◌}
use mathlib.Core.Path.{◌≡◌, refl}
use mathlib.Core.Bool.{Bool, true, false}
use native.Mathlib.Omega.{arith}
use cmsc_624_spring.Common.Tests.{ltb, if◌then◌else◌}

-- `negsuc n` is -(n + 1).
pub data ℤ : Type 0 where
  pos : ℕ → ℤ
  negsuc : ℕ → ℤ

-- An integer is its positive part less its negative part.
abbrev pub above_zero : ℤ → ℕ
above_zero (pos n) = n
above_zero (negsuc n) = 0

abbrev pub below_zero : ℤ → ℕ
below_zero (pos n) = 0
below_zero (negsuc n) = suc n

abbrev pub difference : ℕ → ℕ → ℤ
difference m n = if ltb m n then negsuc (n - m - 1) else pos (m - n)

infixl 65 ◌+ℤ◌ ◌-ℤ◌
unfoldable pub ◌+ℤ◌ : ℤ → ℤ → ℤ
x +ℤ y = difference (above_zero x + above_zero y) (below_zero x + below_zero y)

unfoldable pub ◌-ℤ◌ : ℤ → ℤ → ℤ
x -ℤ y = difference (above_zero x + below_zero y) (below_zero x + above_zero y)

abbrev pub is_negative : ℤ → Bool
is_negative (pos n) = false
is_negative (negsuc n) = true

pub +ℤ_lem :
    (x y : ℤ)
    → above_zero (x +ℤ y) + (below_zero x + below_zero y)
      ≡ below_zero (x +ℤ y) + (above_zero x + above_zero y)
unfolding ◌+ℤ◌
+ℤ_lem x y = ground arith

pub -ℤ_lem :
    (x y : ℤ)
    → above_zero (x -ℤ y) + (below_zero x + above_zero y)
      ≡ below_zero (x -ℤ y) + (above_zero x + below_zero y)
unfolding ◌-ℤ◌
-ℤ_lem x y = ground arith

-- One of the parts is zero.
pub one_part : (x : ℤ) → is_negative x ≡ false → below_zero x ≡ 0
one_part (pos n) h = refl
one_part (negsuc n) h = absurd cc

pub negative_part : (x : ℤ) → is_negative x ≡ true → (above_zero x ≡ 0) × (0 < below_zero x)
negative_part (pos n) h = absurd cc
negative_part (negsuc n) h = (refl, omega arith)

-- Integers with the same balance are the same.
pub same_balance : (x y : ℤ) → above_zero x + below_zero y ≡ above_zero y + below_zero x → x ≡ y
same_balance x y h = ground arith

pub difference_lem : (m n : ℕ) → above_zero (difference m n) + n ≡ below_zero (difference m n) + m
difference_lem m n = ground arith

pub -ℤ_positive :
    (x y : ℤ)
    → below_zero x + above_zero y ≤ above_zero x + below_zero y
    → is_negative (x -ℤ y) ≡ false
unfolding ◌-ℤ◌
-ℤ_positive x y h = ground arith

pub +ℤ_positive :
    (x y : ℤ)
    → below_zero x + below_zero y ≤ above_zero x + above_zero y
    → is_negative (x +ℤ y) ≡ false
unfolding ◌+ℤ◌
+ℤ_positive x y h = ground arith

pub -ℤ_self : (x : ℤ) → pos 0 ≡ x -ℤ x
-ℤ_self x = same_balance (pos 0) (x -ℤ x) (omega (arith, -ℤ_lem x x))

-- Two stretches one after the other.
pub -ℤ_chain : (x y z : ℤ) → (y -ℤ x) +ℤ (z -ℤ y) ≡ z -ℤ x
-ℤ_chain x y z =
    same_balance ((y -ℤ x) +ℤ (z -ℤ y)) (z -ℤ x)
      (omega (arith, +ℤ_lem (y -ℤ x) (z -ℤ y), -ℤ_lem y x, -ℤ_lem z y, -ℤ_lem z x))
