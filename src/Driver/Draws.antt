-- ===== src/Driver/Draws.antt =====
-- The keys that gen_unique draws, one by one and into a writeset.
use native.Mathlib.Nat.{mod-lt}
use cmsc_624_spring.Common.{
  ℕ, zero, suc, ◌+◌, ◌%◌, ◌<◌, ◌≤◌, ◌≡◌, ◌≢◌, refl, sym, ap, subst, ◌∙◌, true, false, some, List,
  [], ◌∷◌, arith, has, insert, has-insert, length, Bool-cases, Option-cases, inl, inr,
}
use cmsc_624_spring.Driver.{Unique, gen_unique, Keys, gen_keys, array}

skip_seen :
    (rand : ℕ → ℕ) (fuel max : ℕ) (seen : List ℕ) (calls : ℕ)
    → has (rand calls % max) seen ≡ true
    → gen_unique rand (suc fuel) max seen calls ≡ gen_unique rand fuel max seen (calls + 1)
unfolding gen_unique
skip_seen rand fuel max seen calls h = rw h refl

take_new :
    (rand : ℕ → ℕ) (fuel max : ℕ) (seen : List ℕ) (calls : ℕ)
    → has (rand calls % max) seen ≡ false
    → gen_unique rand (suc fuel) max seen calls
      ≡ some (record {
        gen = rand calls % max;
        seen = insert (rand calls % max) seen;
        calls = calls + 1;
      })
unfolding gen_unique
take_new rand fuel max seen calls h = rw h refl

-- A result of gen_unique is a new key below the maximum, and the only addition to the keys seen.
pub gen_unique_lem :
    (rand : ℕ → ℕ) (fuel max : ℕ) (seen : List ℕ) (calls : ℕ) (u : Unique)
    → 0 < max
    → gen_unique rand fuel max seen calls ≡ some u
    → (u.gen < max) × (has u.gen seen ≡ false) × (u.seen ≡ insert u.gen seen)
unfolding gen_unique
gen_unique_lem rand zero max seen calls u pos e = cc
gen_unique_lem rand (suc fuel) max seen calls u pos e =
    elim (Bool-cases (has (rand calls % max) seen)) [
      | inl old ↦
          gen_unique_lem rand fuel max seen (calls + 1) u pos
            (sym (skip_seen rand fuel max seen calls old) ∙ e)
      | inr new ↦
          let same = sym (take_new rand fuel max seen calls new) ∙ e in
          let bound = mod-lt (rand calls) pos in (ground arith, ground arith, ground arith)
    ]

-- gen_unique returns if one of the draws that it may make is a key not seen.
pub gen_unique_returns :
    (rand : ℕ → ℕ) (fuel max : ℕ) (seen : List ℕ) (calls c : ℕ)
    → calls ≤ c
    → c < calls + fuel
    → has (rand c % max) seen ≡ false
    → (u : Unique) × (gen_unique rand fuel max seen calls ≡ some u)
gen_unique_returns rand zero max seen calls c lo hi new = absurd (omega arith)
gen_unique_returns rand (suc fuel) max seen calls c lo hi new =
    elim (Bool-cases (has (rand calls % max) seen)) [
      | inl old ↦
          let (u, e) =
            gen_unique_returns rand fuel max seen (calls + 1) c (later old) (omega arith) new in
          (u, skip_seen rand fuel max seen calls old ∙ e)
      | inr fresh ↦ (_, take_new rand fuel max seen calls fresh)
    ]
  where
    later : has (rand calls % max) seen ≡ true → calls + 1 ≤ c
    later old = ground (arith, ap (λ i. has (rand i % max) seen))

abbrev AllNew : ℕ → List ℕ → List ℕ → Type 0
AllNew max seen [] = Unit
AllNew max seen (k ∷ ks) = (k < max) × (has k seen ≡ false) × AllNew max (insert k seen) ks

gen_keys_inv :
    (rand : ℕ → ℕ) (fuel n max : ℕ) (seen : List ℕ) (calls : ℕ) (r : Keys)
    → gen_keys rand fuel (suc n) max seen calls ≡ some r
    → (u : Unique) × (r' : Keys) × (gen_unique rand fuel max seen calls ≡ some u)
      × (gen_keys rand fuel n max u.seen u.calls ≡ some r')
      × (u.gen ∷ r'.keys ≡ r.keys)
unfolding gen_keys
gen_keys_inv rand fuel n max seen calls r e =
    elim (Option-cases (gen_unique rand fuel max seen calls)) [
      | inl failed ↦ cc
      | inr (u, drawn) ↦ elim (Option-cases (gen_keys rand fuel n max u.seen u.calls)) [
        | inl failed ↦ absurd (ground arith)
        | inr (r', more) ↦ (u, r', drawn, more, ground arith)
      ]
    ]

pub gen_keys_lem :
    (rand : ℕ → ℕ) (fuel n max : ℕ) (seen : List ℕ) (calls : ℕ) (r : Keys)
    → 0 < max
    → gen_keys rand fuel n max seen calls ≡ some r
    → (length r.keys ≡ n) × AllNew max seen r.keys
unfolding gen_keys
gen_keys_lem rand fuel zero max seen calls r pos e =
    let none_left : [] ≡ r.keys = ground arith in
    (ground arith, subst (AllNew max seen) none_left tt)
gen_keys_lem rand fuel (suc n) max seen calls r pos e =
    let (u, r', drawn, more, keys) = gen_keys_inv rand fuel n max seen calls r e in
    let (bound, new, grown) = gen_unique_lem rand fuel max seen calls u pos drawn in
    let (len, rest) = gen_keys_lem rand fuel n max u.seen u.calls r' pos more in
    (
      ap length (sym keys) ∙ ap suc len,
      subst (AllNew max seen) keys (bound, new, subst (λ s. AllNew max s r'.keys) grown rest),
    )

pub array-AllNew :
    (max : ℕ) (seen ks : List ℕ) (i : ℕ)
    → AllNew max seen ks
    → i < length ks
    → (array ks i < max) × (has (array ks i) seen ≡ false)
array-AllNew max seen [] i a lt = absurd (omega arith)
array-AllNew max seen (k ∷ ks) zero a lt = (a.0, a.1)
array-AllNew max seen (k ∷ ks) (suc i) a lt =
    let (bound, new) = array-AllNew max (insert k seen) ks i a.2 (omega arith) in
    (bound, ground (arith, has-insert k (array ks i) seen))

pub array_distinct :
    (max : ℕ) (seen ks : List ℕ) (i j : ℕ)
    → AllNew max seen ks
    → i < j
    → j < length ks
    → array ks i ≢ array ks j
array_distinct max seen [] i j a lt len = absurd (omega arith)
array_distinct max seen (k ∷ ks) i zero a lt len = absurd (omega arith)
array_distinct max seen (k ∷ ks) zero (suc j) a lt len =
    let (bound, new) = array-AllNew max (insert k seen) ks j a.2 (omega arith) in
    λ e. ground (arith, has-insert k (array ks j) seen)
array_distinct max seen (k ∷ ks) (suc i) (suc j) a lt len =
    array_distinct max (insert k seen) ks i j a.2 (omega arith) (omega arith)
