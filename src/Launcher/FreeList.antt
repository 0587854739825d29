-- ===== src/Launcher/FreeList.antt =====
-- The lists of idle threads and of idle processes, which the launchers of pools link through the
-- elements of an array.
use cmsc_624_spring.Common.{
  ℕ, zero, suc, ◌+◌, ◌<◌, ◌≤◌, ◌≡◌, refl, ap, ◌∙◌, Option, none, some, List, [], ◌∷◌, arith,
}

-- The indices of an array, from `i` on.
unfoldable pub range : ℕ → ℕ → List ℕ
range i zero = []
range i (suc n) = i ∷ range (i + 1) n

-- The elements that following `next_` from a pointer comes by, in at most `fuel` steps.
unfoldable pub walk : (ℕ → Option ℕ) → ℕ → Option ℕ → List ℕ
walk next zero at = []
walk next (suc fuel) none = []
walk next (suc fuel) (some i) = i ∷ walk next fuel (next i)

-- `n + 1` elements from `i` on that are linked in order, up to a last one that points nowhere.
pub record IsLinked (i n : ℕ) (next : ℕ → Option ℕ) : Type 0 where
  pub inner : (j : ℕ) → i ≤ j → j < i + n → next j ≡ some (j + 1)
  pub last : next (i + n) ≡ none

walk-none : (next : ℕ → Option ℕ) (fuel : ℕ) → walk next fuel none ≡ []
unfolding walk
walk-none next zero = refl
walk-none next (suc fuel) = refl

pub walk-IsLinked :
    (n i fuel : ℕ) (next : ℕ → Option ℕ)
    → n < fuel
    → IsLinked i n next
    → walk next fuel (some i) ≡ range i (suc n)
unfolding walk range
walk-IsLinked n i zero next lt l = absurd (omega arith)
walk-IsLinked zero i (suc fuel) next lt l =
    let e : i ≡ i + 0 = omega arith in
    ap (λ o. i ∷ walk next fuel o) (ap next e ∙ l.last) ∙ ap (λ r. i ∷ r) (walk-none next fuel)
walk-IsLinked (suc n) i (suc fuel) next lt l =
    let e : i + 1 + n ≡ i + suc n = omega arith in
    ap (λ o. i ∷ walk next fuel o) (l.inner i (omega arith) (omega arith))
    ∙ ap (λ r. i ∷ r)
        (walk-IsLinked n (i + 1) fuel next (omega arith) (record {
          inner = λ j lo hi. l.inner j (omega arith) (omega arith);
          last = ap next e ∙ l.last;
        }))
