-- ===== src/Atomic/Map.antt =====
-- a2/src/utils/atomic.h, class AtomicMap, with integer keys.
use cmsc_624_spring.Common.{
  ℕ, suc, ◌≡◌, refl, Bool, Option, none, some, ◌==◌, if◌then◌else◌, length, Map, find, put, erase,
  find-put, find-erase, is_some, IsSorted, length-put,
}

pub record AtomicMap {ℓ} (V : Type ℓ) : Type ℓ where
  pub entries : Map V

module _ {ℓ} {V : Type ℓ} where
  pub size : AtomicMap V → ℕ
  size m = length m.entries

  pub contains : AtomicMap V → ℕ → Bool
  contains m key = is_some (find key m.entries)

  -- `none` is a return of false, which leaves `*value` alone.
  unfoldable pub lookup : AtomicMap V → ℕ → Option V
  lookup m key = find key m.entries

  unfoldable pub insert : AtomicMap V → ℕ → V → AtomicMap V
  insert m key value = record { entries = put key value m.entries }

  -- a synonym for `insert`
  unfoldable pub set : AtomicMap V → ℕ → V → AtomicMap V
  unfolding insert
  set m key value = insert m key value

  unfoldable pub erase_key : AtomicMap V → ℕ → AtomicMap V
  erase_key m key = record { entries = erase key m.entries }

  -- The map as a function of its keys: after any insert or erase only the given key's entry
  -- changes, to the new value or to none, whatever was stored under it before.
  pub lookup-update :
      (m : AtomicMap V) (key j : ℕ) (value : V)
      → (lookup (insert m key value) j ≡ (if key == j then some value else lookup m j))
        × (lookup (set m key value) j ≡ (if key == j then some value else lookup m j))
        × (lookup (erase_key m key) j ≡ (if key == j then none else lookup m j))
  unfolding lookup set insert erase_key
  lookup-update m key j value =
      (find-put key j value m.entries, find-put key j value m.entries, find-erase key j m.entries)

  contains-lookup : (m : AtomicMap V) (key : ℕ) → contains m key ≡ is_some (lookup m key)
  unfolding contains lookup
  contains-lookup m key = refl

  -- An insert adds one to the size if the key was absent, and nothing if it replaces a value.
  pub size-insert :
      (m : AtomicMap V) (key : ℕ) (value : V)
      → IsSorted m.entries
      → size (insert m key value) ≡ (if contains m key then size m else suc (size m))
  unfolding size contains insert
  size-insert m key value s = length-put key value m.entries s
