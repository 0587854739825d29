-- ===== src/Launcher/Tally.antt =====
-- How many of the first `n` executors stand at a place, for the launchers that start one per request.
use cmsc_624_spring.Common.{ℕ, zero, suc, ◌+◌, ◌<◌, ◌≤◌, ◌≡◌, refl, ap, arith, update}
use native.Mathlib.Decide.{dec_lt}

module _ {ℓ} {A : Type ℓ} where
  unfoldable pub tally : (A → ℕ) → ℕ → (ℕ → A) → ℕ
  tally weight zero workers = 0
  tally weight (suc n) workers = weight (workers n) + tally weight n workers

  pub tally_zero : (weight : A → ℕ) (workers : ℕ → A) → tally weight 0 workers ≡ 0
  unfolding tally
  tally_zero weight workers = refl

  pub tally-suc :
      (weight : A → ℕ) (n : ℕ) (workers : ℕ → A)
      → tally weight (suc n) workers ≡ weight (workers n) + tally weight n workers
  unfolding tally
  tally-suc weight n workers = refl

  -- A worker from `n` on does not count.
  pub tally-update_above :
      (weight : A → ℕ) (n i : ℕ) (workers : ℕ → A) (w : A)
      → n ≤ i
      → tally weight n (update workers i w) ≡ tally weight n workers
  unfolding tally
  tally-update_above weight zero i workers w h = refl
  tally-update_above weight (suc n) i workers w h =
      ground (arith, tally-update_above weight n i workers w)

  -- A worker below `n` that moves takes its old weight out and puts its new one in.
  pub tally-update :
      (weight : A → ℕ) (n i : ℕ) (workers : ℕ → A) (w : A)
      → i < n
      → tally weight n (update workers i w) + weight (workers i) ≡ tally weight n workers + weight w
  unfolding tally
  tally-update weight zero i workers w h = absurd (omega arith)
  tally-update weight (suc n) i workers w h = elim (dec_lt i n) [
    | yes below ↦ ground (arith, tally-update weight n i workers w below)
    | no last ↦ ground (arith, tally-update_above weight n i workers w, same)
  ]
    where
      same : i ≡ n → weight (workers i) ≡ weight (workers n)
      same e = ap (λ k. weight (workers k)) e

  pub weight-le-tally :
      (weight : A → ℕ) (n i : ℕ) (workers : ℕ → A)
      → i < n
      → weight (workers i) ≤ tally weight n workers
  unfolding tally
  weight-le-tally weight zero i workers h = absurd (omega arith)
  weight-le-tally weight (suc n) i workers h = elim (dec_lt i n) [
    | yes below ↦ omega (arith, weight-le-tally weight n i workers below)
    | no last ↦ omega (arith, same)
  ]
    where
      same : i ≡ n → weight (workers i) ≡ weight (workers n)
      same e = ap (λ k. weight (workers k)) e

  -- A positive tally is somebody's.
  pub tally-pos :
      (weight : A → ℕ) (n : ℕ) (workers : ℕ → A)
      → 0 < tally weight n workers
      → (i : ℕ) × (i < n) × (0 < weight (workers i))
  unfolding tally
  tally-pos weight zero workers h = absurd (omega arith)
  tally-pos weight (suc n) workers h = elim (dec_lt 0 (weight (workers n))) [
    | yes here ↦ (n, omega arith, here)
    | no below ↦
        let (i, lt, pos) = tally-pos weight n workers (omega arith) in (i, omega arith, pos)
  ]

  -- Weights of at most one that add up to `n` are all one.
  pub tally-full :
      (weight : A → ℕ)
      → ((a : A) → weight a ≤ 1)
      → (n : ℕ) (workers : ℕ → A)
      → tally weight n workers ≤ n
        × (tally weight n workers ≡ n → (i : ℕ) → i < n → weight (workers i) ≡ 1)
  unfolding tally
  tally-full weight small zero workers = (omega arith, λ h i lt. absurd (omega arith))
  tally-full weight small (suc n) workers =
      let (bound, full) = tally-full weight small n workers in
      (
        omega (arith, small (workers n)),
        λ h i lt. elim (dec_lt i n) [
          | yes below ↦ full (omega (arith, small (workers n))) i below
          | no last ↦ ground (arith, small (workers n), same i)
        ],
      )
    where
      same : (i : ℕ) → i ≡ n → weight (workers i) ≡ weight (workers n)
      same i e = ap (λ k. weight (workers k)) e
