-- ===== src/Common/Sets.antt =====
-- `std::set` of integers: a list in ascending order, the order in which the program iterates.
use Prim.Native.Nat.{ℕ, suc, ◌≤◌, ◌<◌}
use mathlib.Core.Path.{◌≡◌, refl}
use mathlib.Core.Bool.{Bool, true, false, ◌||◌}
use mathlib.Core.List.{List, [], ◌∷◌}
use native.Mathlib.Omega.{arith}
use cmsc_624_spring.Common.Tests.{◌==◌, ltb, if◌then◌else◌}
use cmsc_624_spring.Common.Lists.{length}

unfoldable pub has : ℕ → List ℕ → Bool
has k [] = false
has k (j ∷ s) = j == k || has k s

unfoldable pub insert : ℕ → List ℕ → List ℕ
insert k [] = k ∷ []
insert k (j ∷ s) =
    let rest = insert k s in if k == j then j ∷ s else if ltb k j then k ∷ j ∷ s else j ∷ rest

unfoldable pub remove : ℕ → List ℕ → List ℕ
remove k [] = []
remove k (j ∷ s) = let rest = remove k s in if j == k then rest else j ∷ rest

pub has-insert : (k j : ℕ) (s : List ℕ) → has j (insert k s) ≡ (k == j || has j s)
unfolding has insert
has-insert k j [] = refl
has-insert k j (i ∷ s) = ground (arith, has-insert k j s)

pub has-remove : (k j : ℕ) (s : List ℕ) → has j (remove k s) ≡ (if k == j then false else has j s)
unfolding has remove
has-remove k j [] = ground arith
has-remove k j (i ∷ s) = ground (arith, has-remove k j s)

abbrev pub Ascends : ℕ → List ℕ → Type 0
Ascends n [] = Unit
Ascends n (k ∷ s) = (n < k) × Ascends k s

abbrev pub IsAscending : List ℕ → Type 0
IsAscending [] = Unit
IsAscending (k ∷ s) = Ascends k s

Ascends-mono : (m n : ℕ) (s : List ℕ) → m < n → Ascends n s → Ascends m s
Ascends-mono m n [] h a = tt
Ascends-mono m n (k ∷ s) h a = (omega arith, a.1)

pub Ascends-tail : (n : ℕ) (s : List ℕ) → Ascends n s → IsAscending s
Ascends-tail n [] a = tt
Ascends-tail n (k ∷ s) a = a.1

pub has-Ascends : (n j : ℕ) (s : List ℕ) → Ascends n s → j ≤ n → has j s ≡ false
unfolding has
has-Ascends n j [] a h = refl
has-Ascends n j (k ∷ s) a h = ground (arith, has-Ascends k j s a.1)

insert-Ascends : (n k : ℕ) (s : List ℕ) → n < k → Ascends n s → Ascends n (insert k s)
unfolding insert
insert-Ascends n k [] h a = (h, tt)
insert-Ascends n k (j ∷ s) h a = ground (arith, insert-Ascends j k s)

pub insert-IsAscending : (k : ℕ) (s : List ℕ) → IsAscending s → IsAscending (insert k s)
unfolding insert
insert-IsAscending k [] a = tt
insert-IsAscending k (j ∷ s) a = ground (arith, insert-Ascends j k s)

pub length-insert :
    (k : ℕ) (s : List ℕ)
    → IsAscending s
    → length (insert k s) ≡ (if has k s then length s else suc (length s))
unfolding has insert
length-insert k [] a = refl
length-insert k (j ∷ s) a =
    ground (arith, length-insert k s (Ascends-tail j s a), has-Ascends j k s a)

remove-Ascends : (n k : ℕ) (s : List ℕ) → Ascends n s → Ascends n (remove k s)
unfolding remove
remove-Ascends n k [] a = tt
remove-Ascends n k (j ∷ s) a =
    ground (arith, remove-Ascends j k s a.1, Ascends-mono n j (remove k s))

pub remove-IsAscending : (k : ℕ) (s : List ℕ) → IsAscending s → IsAscending (remove k s)
unfolding remove
remove-IsAscending k [] a = tt
remove-IsAscending k (j ∷ s) a = ground (arith, remove-Ascends j k s a, Ascends-tail j (remove k s))

remove_absent : (k : ℕ) (s : List ℕ) → has k s ≡ false → remove k s ≡ s
unfolding has remove
remove_absent k [] h = refl
remove_absent k (j ∷ s) h = ground (arith, remove_absent k s)

pub length-remove :
    (k : ℕ) (s : List ℕ)
    → IsAscending s
    → (if has k s then suc (length (remove k s)) else length (remove k s)) ≡ length s
unfolding has remove
length-remove k [] a = refl
length-remove k (j ∷ s) a =
    ground (arith, length-remove k s (Ascends-tail j s a), has-Ascends j k s a, remove_absent k s)

pub length-insert_le : (k : ℕ) (s : List ℕ) → length (insert k s) ≤ suc (length s)
unfolding insert
length-insert_le k [] = omega arith
length-insert_le k (j ∷ s) = ground (arith, length-insert_le k s)

length-remove_le : (k : ℕ) (s : List ℕ) → length (remove k s) ≤ length s
unfolding remove
length-remove_le k [] = omega arith
length-remove_le k (j ∷ s) = ground (arith, length-remove_le k s)

pub length-remove_lt : (k : ℕ) (s : List ℕ) → has k s ≡ true → length (remove k s) < length s
unfolding has remove
length-remove_lt k [] h = absurd cc
length-remove_lt k (j ∷ s) h = ground (arith, length-remove_lt k s, length-remove_le k s)
