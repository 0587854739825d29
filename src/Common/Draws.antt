-- ===== src/Common/Draws.antt =====
-- Sources of numbers that keep giving every key.
use Prim.Native.Nat.{ℕ, zero, suc, ◌+◌, ◌%◌, ◌<◌, ◌≤◌}
use mathlib.Core.Path.{◌≡◌, refl}
use mathlib.Core.Logic.{inl, inr}
use mathlib.Core.Bool.{false, ◌||◌}
use mathlib.Core.List.{List, [], ◌∷◌, ◌++◌}
use native.Mathlib.Omega.{arith}
use cmsc_624_spring.Common.Tests.{Bool-cases}
use cmsc_624_spring.Common.Lists.{length}
use cmsc_624_spring.Common.Sets.{has, remove, has-remove, length-remove_lt}

-- Among any `fuel` draws in a row there is one of each key below `max`.
abbrev pub IsFair : (ℕ → ℕ) → ℕ → ℕ → Type 0
IsFair rand fuel max =
    (calls key : ℕ) → key < max → (c : ℕ) × (calls ≤ c) × (c < calls + fuel) × (rand c % max ≡ key)

-- Fewer than `n` keys leave one below `n` out.
pub unseen : (n : ℕ) (seen : List ℕ) → length seen < n → (k : ℕ) × (k < n) × (has k seen ≡ false)
unseen zero seen h = absurd (omega arith)
unseen (suc n) seen h = elim (Bool-cases (has n seen)) [
  | inl old ↦
      let shorter = length-remove_lt n seen old in
      let (k, lt, new) = unseen n (remove n seen) (omega arith) in
      (k, omega arith, ground (arith, has-remove n k seen))
  | inr new ↦ (n, omega arith, new)
]

pub has-append : (k : ℕ) (xs ys : List ℕ) → has k (xs ++ ys) ≡ (has k xs || has k ys)
unfolding has
has-append k [] ys = refl
has-append k (x ∷ xs) ys = ground (arith, has-append k xs ys)
