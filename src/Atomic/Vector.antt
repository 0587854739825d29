-- ===== src/Atomic/Vector.antt =====
-- a2/src/utils/atomic.h, class AtomicVector.
use cmsc_624_spring.Common.{
  ℕ, zero, suc, ◌+◌, ◌<◌, ◌≡◌, refl, Option, some, List, [], ◌∷◌, ◌++◌, arith, length, get_elem?,
  length-append,
}

pub record AtomicVector {ℓ} (A : Type ℓ) : Type ℓ where
  pub elements : List A

module _ {ℓ} {A : Type ℓ} where
  abbrev pub empty : AtomicVector A
  empty = record { elements = [] }

  unfoldable pub size : AtomicVector A → ℕ
  size v = length v.elements

  -- `operator[]` makes no test of its index; `none` stands for an access out of bounds.
  unfoldable pub at : AtomicVector A → ℕ → Option A
  at v id = get_elem? v.elements id

  unfoldable pub push : AtomicVector A → A → AtomicVector A
  push v value = record { elements = v.elements ++ value ∷ [] }

  get_elem?-append_lt :
      (xs ys : List A) (i : ℕ) → i < length xs → get_elem? (xs ++ ys) i ≡ get_elem? xs i
  get_elem?-append_lt [] ys i h = elim h [ ]
  get_elem?-append_lt (x ∷ xs) ys zero h = refl
  get_elem?-append_lt (x ∷ xs) ys (suc i) h = get_elem?-append_lt xs ys i (omega arith)

  get_elem?-append_end : (xs : List A) (a : A) → get_elem? (xs ++ a ∷ []) (length xs) ≡ some a
  get_elem?-append_end [] a = refl
  get_elem?-append_end (x ∷ xs) a = get_elem?-append_end xs a

  -- A push makes the vector one longer, puts the value at the index that was the size before, and
  -- leaves every earlier index as it was: the log that validation walks by index only grows.
  pub push_effect :
      (v : AtomicVector A) (value : A)
      → (size (push v value) ≡ size v + 1)
        × (at (push v value) (size v) ≡ some value)
        × ((i : ℕ) → i < size v → at (push v value) i ≡ at v i)
  unfolding size at push
  push_effect v value = (
    omega (arith, length-append v.elements (value ∷ [])),
    get_elem?-append_end v.elements value,
    λ i h. get_elem?-append_lt v.elements (value ∷ []) i h,
  )
