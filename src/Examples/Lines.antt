-- ===== src/Examples/Lines.antt =====
-- The line of results of an experiment, with whole numbers for the doubles.
use cmsc_624_spring.Common.{ℕ, ◌+◌, ◌/◌, ◌≡◌, refl, some, none, false, [], ◌∷◌, pos}
use cmsc_624_spring.Config.{process, ExptConfig}
use cmsc_624_spring.Driver.Results.{
  Doubles, launcher, max_oustanding, throughput, high_priority_throughput, low_contention,
  add_results, mean, write_results,
}

abbrev whole : Doubles ℕ
whole = record { nought = 0; add = λ x y. x + y; over = λ x n. x / n }

abbrev conf : ExptConfig
conf = record {
  max_outstanding = some (pos 8);
  pool_size = none;
  type = process;
  test = false;
  contention = false;
}

line_of_conf :
    write_results whole (pos 0) conf (λ i. i) (λ i. 0)
    ≡ launcher process
      ∷ max_oustanding (pos 8)
      ∷ throughput 29
      ∷ high_priority_throughput 0
      ∷ low_contention
      ∷ []
unfolding write_results mean add_results
line_of_conf = refl
