-- ===== src/Driver/Results.antt =====
-- a1/src/db_start.cc: write_results. The line that it appends to the file is a list of its fields; the
-- doubles are a parameter.
use cmsc_624_spring.Common.{
  ℕ, zero, suc, ◌+◌, ◌≡◌, ◌↔◌, refl, subst, Bool, true, false, List, [], ◌∷◌, ℤ,
}
use cmsc_624_spring.Config.{ExecModel, process_pool, process, thread_pool, thread, ExptConfig}
use cmsc_624_spring.Monitor.{expt_len}
use cmsc_624_spring.Driver.Experiment.{member}

-- The operations on doubles of write_results; `over` is a division by `n * 1.0`.
pub record Doubles {ℓ} (D : Type ℓ) : Type ℓ where
  pub nought : D
  pub add : D → D → D
  pub over : D → ℕ → D

-- The launcher's name; a text with a colon, and a number; and the texts of the contention. The text for
-- a launcher of processes is spelled `max_oustanding:`.
pub data Field {ℓ} (D : Type ℓ) : Type ℓ where
  launcher : ExecModel → Field D
  pool_size max_oustanding max_outstanding : ℤ → Field D
  throughput high_priority_throughput : D → Field D
  low_contention high_contention : Field D

module _ {ℓ} {D : Type ℓ} (ops : Doubles D) where
  -- The loop, with `n` results left from result `i`.
  unfoldable pub add_results : (ℕ → D) → ℕ → ℕ → D → D
  add_results results zero i sum = sum
  add_results results (suc n) i sum = add_results results n (i + 1) (ops.add sum (results i))

  unfoldable pub mean : (ℕ → D) → D
  mean results = ops.over (add_results results expt_len 0 ops.nought) expt_len

  -- The number that belongs to the kind of launcher.
  abbrev pub limit_of : ExecModel → ℤ → ℤ → ℤ
  limit_of process_pool outstanding pool = pool
  limit_of process outstanding pool = outstanding
  limit_of thread_pool outstanding pool = pool
  limit_of thread outstanding pool = outstanding

  abbrev pub limit_field : ExecModel → ℤ → Field D
  limit_field process_pool limit = pool_size limit
  limit_field process limit = max_oustanding limit
  limit_field thread_pool limit = pool_size limit
  limit_field thread limit = max_outstanding limit

  abbrev pub contention_field : Bool → Field D
  contention_field false = low_contention
  contention_field true = high_contention

  -- `unset` is what a member of the configuration holds that was not set.
  abbrev pub limit : ℤ → ExptConfig → ℤ
  limit unset conf =
      limit_of conf.type (member unset conf.max_outstanding) (member unset conf.pool_size)

  unfoldable pub write_results : ℤ → ExptConfig → (ℕ → D) → (ℕ → D) → List (Field D)
  write_results unset conf results high_priority_results =
      launcher conf.type
      ∷ limit_field conf.type (limit unset conf)
      ∷ throughput (mean results)
      ∷ high_priority_throughput (mean high_priority_results)
      ∷ contention_field conf.contention
      ∷ []

  limit_field_inv : (type : ExecModel) (m n : ℤ) → limit_field type m ≡ limit_field type n → m ≡ n
  limit_field_inv process_pool m n h = cc
  limit_field_inv process m n h = cc
  limit_field_inv thread_pool m n h = cc
  limit_field_inv thread m n h = cc

  contention_field_inv : (x y : Bool) → contention_field x ≡ contention_field y → x ≡ y
  contention_field_inv false false h = refl
  contention_field_inv true true h = refl
  contention_field_inv false true h = absurd cc
  contention_field_inv true false h = absurd cc

  -- What the line says of an experiment, and nothing else: two lines are equal exactly where the kinds
  -- of launcher, the limits that belong to them, the means and the contentions are.
  pub write_results_iff :
      (unset unset' : ℤ) (conf conf' : ExptConfig) (results results' high high' : ℕ → D)
      → (write_results unset conf results high ≡ write_results unset' conf' results' high') ↔ (
          (conf.type ≡ conf'.type)
          × (limit unset conf ≡ limit unset' conf')
          × (conf.contention ≡ conf'.contention)
          × (mean results ≡ mean results')
          × (mean high ≡ mean high'))
  unfolding write_results
  write_results_iff unset unset' conf conf' results results' high high' = (
    λ e.
        let same : conf.type ≡ conf'.type = cc in
        let limits : limit_field conf.type (limit unset conf)
            ≡ limit_field conf'.type (limit unset' conf') =
          cc in
        (
          same,
          limit_field_inv conf'.type (limit unset conf) (limit unset' conf') (
              subst
                (λ t.
                  limit_field t (limit unset conf) ≡ limit_field conf'.type (limit unset' conf'))
                same limits),
          contention_field_inv conf.contention conf'.contention cc,
          cc,
          cc,
        ),
    λ (t, l, c, m, h). cc,
  )
