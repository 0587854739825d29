-- ===== src/Processor/Locking/Costs.antt =====
-- The steps of the locking scheduler, counted: what the tasks of a list add up to.
use cmsc_624_spring.Common.{
  ℕ, ◌+◌, ◌<◌, ◌≤◌, ◌≡◌, ap, inl, inr, Bool-cases, List, [], ◌∷◌, ◌++◌, arith, times, times_nil,
  times_one, times_cons, ◌==◌, length,
}
use cmsc_624_spring.Processor.Locking.{Task}
use cmsc_624_spring.Processor.Locking.Places.{task_txns, times-middle}
use cmsc_624_spring.Processor.Locking.Ledger.{times_self}

abbrev pub cost : (ℕ → ℕ) → List ℕ → ℕ
cost w [] = 0
cost w (i ∷ is) = w i + cost w is

-- The reads that the tasks have left.
abbrev pub unread : List Task → ℕ
unread [] = 0
unread (t ∷ ts) = length t.keys + unread ts

pub cost-append : (w : ℕ → ℕ) (is js : List ℕ) → cost w (is ++ js) ≡ cost w is + cost w js
cost-append w [] js = omega arith
cost-append w (i ∷ is) js = omega (arith, cost-append w is js)

pub cost-middle :
    (w : ℕ → ℕ) (before : List ℕ) (i : ℕ) (after : List ℕ)
    → cost w (before ++ i ∷ after) ≡ w i + cost w (before ++ after)
cost-middle w [] i after = omega arith
cost-middle w (j ∷ before) i after = omega (arith, cost-middle w before i after)

pub cost-task_txns :
    (w : ℕ → ℕ) (before : List Task) (t : Task) (after : List Task)
    → cost w (task_txns (before ++ t ∷ after)) ≡ w t.txn + cost w (task_txns (before ++ after))
cost-task_txns w [] t after = omega arith
cost-task_txns w (u ∷ before) t after = omega (arith, cost-task_txns w before t after)

pub unread-middle :
    (before : List Task) (t : Task) (after : List Task)
    → unread (before ++ t ∷ after) ≡ length t.keys + unread (before ++ after)
unread-middle [] t after = omega arith
unread-middle (u ∷ before) t after = omega (arith, unread-middle before t after)

pub cost_le : (w v : ℕ → ℕ) (is : List ℕ) → ((i : ℕ) → w i ≤ v i) → cost w is ≤ cost v is
cost_le w v [] h = omega arith
cost_le w v (i ∷ is) h = omega (arith, h i, cost_le w v is h)

pub cost_add : (w v : ℕ → ℕ) (is : List ℕ) → cost (λ i. w i + v i) is ≡ cost w is + cost v is
cost_add w v [] = omega arith
cost_add w v (i ∷ is) = omega (arith, cost_add w v is)

-- A number that stands in a list splits it.
split_at :
    (i : ℕ) (l : List ℕ)
    → 0 < times i l
    → (before : List ℕ) × (after : List ℕ) × (l ≡ before ++ i ∷ after)
split_at i [] h = absurd (omega (arith, h, times_nil i))
split_at i (j ∷ js) h = elim (Bool-cases (i == j)) [
  | inl here ↦ ([], js, ap (λ k. k ∷ js) (ground arith))
  | inr other ↦
      let (before, after, e) =
        split_at i js (ground (arith, h, times_one i j, times_cons i j js, other)) in
      (j ∷ before, after, ap (λ l. j ∷ l) e)
]

-- Costs are monotone in how often each number stands in the list.
pub cost_mono :
    (w : ℕ → ℕ) (is l : List ℕ) → ((i : ℕ) → times i is ≤ times i l) → cost w is ≤ cost w l
cost_mono w [] l h = omega arith
cost_mono w (i ∷ is) l h =
    let (before, after, e) = split_at i l (omega (arith, h i, times_cons i i is, times_self i)) in
    let rest =
      cost_mono w is (before ++ after) (λ j.
        omega (arith, h j, times_cons j i is, ap (times j) e, times-middle j i before after)) in
    omega (arith, rest, ap (cost w) e, cost-middle w before i after)
