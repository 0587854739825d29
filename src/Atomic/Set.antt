-- ===== src/Atomic/Set.antt =====
-- a2/src/utils/atomic.h, class AtomicSet, over integers (the program keeps addresses in it).
use cmsc_624_spring.Common.{
  ℕ, suc, ◌≡◌, ◌≤◌, refl, Bool, true, false, ◌||◌, Option, none, some, List, [], ◌∷◌, arith, ◌==◌,
  if◌then◌else◌, length, has, remove, has-insert, has-remove, Ascends, IsAscending, has-Ascends,
  insert-IsAscending, remove-IsAscending, length-insert, length-remove,
}
use cmsc_624_spring.Common

pub record AtomicSet : Type 0 where
  pub elements : List ℕ

abbrev pub empty : AtomicSet
empty = record { elements = [] }

pub size : AtomicSet → ℕ
size s = length s.elements

pub contains : AtomicSet → ℕ → Bool
contains s value = has value s.elements

pub insert : AtomicSet → ℕ → AtomicSet
insert s value = record { elements = Common.insert value s.elements }

pub erase : AtomicSet → ℕ → AtomicSet
erase s value = record { elements = remove value s.elements }

unfoldable pub first_of_list : List ℕ → Option ℕ
first_of_list [] = none
first_of_list (x ∷ s) = some x

-- `*begin()`; `none` stands for the undefined behaviour on an empty set.
unfoldable pub get_first : AtomicSet → Option ℕ
unfolding first_of_list
get_first s = first_of_list s.elements

-- a copy, which later calls leave alone
pub get_set : AtomicSet → List ℕ
get_set s = s.elements

-- `std::set`'s own invariant: ascending, so without duplicates.
abbrev pub IsValid : AtomicSet → Type 0
IsValid s = IsAscending s.elements

-- Every call keeps the elements ascending and without duplicates.
pub insert-erase-IsValid :
    (s : AtomicSet) (value : ℕ) → IsValid s → IsValid (insert s value) × IsValid (erase s value)
unfolding insert erase
insert-erase-IsValid s value v =
    (insert-IsAscending value s.elements v, remove-IsAscending value s.elements v)

-- Membership and size after an insert and after an erase: only the value given changes, and the
-- size moves by one exactly when it does change.
pub insert-erase_effect :
    (s : AtomicSet) (value j : ℕ)
    → IsValid s
    → (contains (insert s value) j ≡ (value == j || contains s j))
      × (contains (erase s value) j ≡ (if value == j then false else contains s j))
      × (size (insert s value) ≡ (if contains s value then size s else suc (size s)))
      × ((if contains s value then suc (size (erase s value)) else size (erase s value)) ≡ size s)
unfolding contains insert erase size
insert-erase_effect s value j v = (
  has-insert value j s.elements,
  has-remove value j s.elements,
  length-insert value s.elements v,
  length-remove value s.elements v,
)

-- `GetFirst` returns an element, and the least one.
pub get_first-least :
    (s : AtomicSet) (first : ℕ)
    → IsValid s
    → get_first s ≡ some first
    → (contains s first ≡ true) × ((j : ℕ) → contains s j ≡ true → first ≤ j)
unfolding get_first contains has
get_first-least s first v e = least s.elements v e
  where
    least :
        (l : List ℕ)
        → IsAscending l
        → first_of_list l ≡ some first
        → (has first l ≡ true) × ((j : ℕ) → has j l ≡ true → first ≤ j)
    least [] a e = cc
    least (x ∷ l) a e = (ground arith, λ j h. ground (arith, has-Ascends x j l a))
