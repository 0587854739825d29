-- ===== src/Common/Maps.antt =====
-- `std::map` over integer keys: a list in ascending order of its keys, which is the order in which
-- the program iterates. `std::unordered_map` is read and written through the same
-- operations; the program never depends on the order in which it iterates over one.
use Prim.Native.Nat.{ℕ, suc, ◌≤◌, ◌<◌}
use mathlib.Core.Path.{◌≡◌, refl}
use mathlib.Core.Bool.{Bool, true, false}
use mathlib.Core.Option.{Option, none, some}
use mathlib.Core.List.{List, [], ◌∷◌}
use native.Mathlib.Omega.{arith}
use cmsc_624_spring.Common.Tests.{◌==◌, ltb, if◌then◌else◌}
use cmsc_624_spring.Common.Lists.{length}
use cmsc_624_spring.Common.Sets.{has}

-- `*it` where `it` was found, and the value of another source where it was not.
abbrev pub or_else {ℓ} : {A : Type ℓ} → Option A → Option A → Option A
or_else none other = other
or_else (some a) other = some a

abbrev pub is_some {ℓ} : {A : Type ℓ} → Option A → Bool
is_some none = false
is_some (some a) = true

-- A function changed at one argument.
abbrev pub update {ℓ} : {A : Type ℓ} → (ℕ → A) → ℕ → A → ℕ → A
update f a x b = if a == b then x else f b

abbrev pub Map {ℓ} : Type ℓ → Type ℓ
Map V = List (ℕ × V)

module _ {ℓ} {V : Type ℓ} where
  unfoldable pub find : ℕ → Map V → Option V
  find k [] = none
  find k ((j, v) ∷ m) = if j == k then some v else find k m

  -- `m[k] = v`
  unfoldable pub put : ℕ → V → Map V → Map V
  put k v [] = (k, v) ∷ []
  put k v ((j, w) ∷ m) =
      let rest = put k v m in
      if k == j then (k, v) ∷ m else if ltb k j then (k, v) ∷ (j, w) ∷ m else (j, w) ∷ rest

  unfoldable pub erase : ℕ → Map V → Map V
  erase k [] = []
  erase k ((j, v) ∷ m) = let rest = erase k m in if j == k then rest else (j, v) ∷ rest

  abbrev pub keys : Map V → List ℕ
  keys [] = []
  keys ((k, v) ∷ m) = k ∷ keys m

  pub find-put :
      (k j : ℕ) (v : V) (m : Map V) → find j (put k v m) ≡ (if k == j then some v else find j m)
  unfolding find put
  find-put k j v [] = refl
  find-put k j v ((i, w) ∷ m) = ground (arith, find-put k j v m)

  pub find-erase : (k j : ℕ) (m : Map V) → find j (erase k m) ≡ (if k == j then none else find j m)
  unfolding find erase
  find-erase k j [] = ground arith
  find-erase k j ((i, w) ∷ m) = ground (arith, find-erase k j m)

  -- The keys ascend, and all lie above `n`.
  abbrev pub Above : ℕ → Map V → Type 0
  Above n [] = Unit
  Above n ((k, v) ∷ m) = (n < k) × Above k m

  abbrev pub IsSorted : Map V → Type 0
  IsSorted [] = Unit
  IsSorted ((k, v) ∷ m) = Above k m

  pub find-Above : (n j : ℕ) (m : Map V) → Above n m → j ≤ n → find j m ≡ none
  unfolding find
  find-Above n j [] a h = refl
  find-Above n j ((k, v) ∷ m) a h = ground (arith, find-Above k j m a.1)

  put-Above : (n k : ℕ) (v : V) (m : Map V) → n < k → Above n m → Above n (put k v m)
  unfolding put
  put-Above n k v [] h a = (h, tt)
  put-Above n k v ((j, w) ∷ m) h a = ground (arith, put-Above j k v m)

  pub put-IsSorted : (k : ℕ) (v : V) (m : Map V) → IsSorted m → IsSorted (put k v m)
  unfolding put
  put-IsSorted k v [] a = tt
  put-IsSorted k v ((j, w) ∷ m) a = ground (arith, put-Above j k v m)

  pub Above-tail : (n : ℕ) (m : Map V) → Above n m → IsSorted m
  Above-tail n [] a = tt
  Above-tail n ((k, v) ∷ m) a = a.1

  pub length-put :
      (k : ℕ) (v : V) (m : Map V)
      → IsSorted m
      → length (put k v m) ≡ (if is_some (find k m) then length m else suc (length m))
  unfolding find put
  length-put k v [] s = refl
  length-put k v ((j, w) ∷ m) s =
      ground (arith, length-put k v m (Above-tail j m s), find-Above j k m s)

  pub find_nil : (k : ℕ) → find k (let m : Map V = [] in m) ≡ none
  unfolding find
  find_nil k = refl

  pub or_else-none : (o : Option V) → or_else o none ≡ o
  or_else-none none = refl
  or_else-none (some v) = refl

-- A key is in a map exactly when it is one of its keys.
pub has-keys {ℓ} : {V : Type ℓ} (k : ℕ) (m : Map V) → has k (keys m) ≡ is_some (find k m)
unfolding has find
has-keys k [] = refl
has-keys k ((j, v) ∷ m) = ground (arith, has-keys k m)
