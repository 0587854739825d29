-- ===== src/Config/Parsed.antt =====
-- a1/src/db/config.h, read_args and the constructor: from the command line to a configuration.
use cmsc_624_spring.Common.{
  ℕ, ◌≡◌, Bool, false, ◌||◌, Option, none, some, List, [], ◌∷◌, ◌==◌, if◌then◌else◌, Map, find,
  is_some,
}
use cmsc_624_spring.Config.{Found}

module _ {ℓ} {A : Type ℓ} where
  -- The argument of the option with that index, in the list of all.
  abbrev pub arg_of : List (Found A) → ℕ → Option A
  arg_of [] k = none
  arg_of (f ∷ fs) k = elim f.index [
    | none ↦ arg_of fs k
    | some i ↦ if i == k then some f.optarg else arg_of fs k
  ]

  -- Every option is known, and none is given twice, with `seen` given before.
  abbrev pub AreProper : (ℕ → Bool) → List (Found A) → Type 0
  AreProper seen [] = Unit
  AreProper seen (f ∷ fs) =
      (i : ℕ) × (f.index ≡ some i) × (seen i ≡ false) × AreProper (λ k. i == k || seen k) fs

abbrev seen_in {ℓ} : {A : Type ℓ} → Map A → ℕ → Bool
seen_in m k = is_some (find k m)
