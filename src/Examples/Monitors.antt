-- ===== src/Examples/Monitors.antt =====
-- a1/src/monitor/perf_monitor.cc on a clock that ticks once a second.
use cmsc_624_spring.Common.{
  ℕ, ◌*◌, ◌≡◌, refl, ltb, if◌then◌else◌, List, map, length, ok, arith, pos, ◌-ℤ◌, ◌+ℤ◌,
}
use cmsc_624_spring.Monitor.{Timespec, diff_time, Sample, Interval, run, expt_len}
use cmsc_624_spring.Monitor.Difference.{nanoseconds, IsNormal, diff_time_lem}
use cmsc_624_spring.Monitor.Intervals.{IsSteady, AddsUp, run_rounds}

abbrev at : ℕ → ℕ → Timespec
at sec nsec = record { tv_sec = pos sec; tv_nsec = pos nsec }

-- The nanoseconds borrow a second.
borrowed : diff_time (at 12 100) (at 10 200) ≡ at 1 999999900
unfolding diff_time ◌-ℤ◌ ◌+ℤ◌
borrowed = refl

diff_time_lem_example :
    IsNormal (diff_time (at 12 100) (at 10 200))
    × (nanoseconds (diff_time (at 12 100) (at 10 200))
        ≡ nanoseconds (at 12 100) -ℤ nanoseconds (at 10 200))
diff_time_lem_example =
    diff_time_lem (at 12 100) (at 10 200) (record { positive = refl; small = omega arith })
      (record { positive = refl; small = omega arith })

-- Three transactions a second for a minute, one of all of them of high priority.
abbrev samples : ℕ → Sample
samples i = record {
  executed = if ltb i 60 then 3 * i else 180;
  high_priority_executed = if ltb i 9 then 0 else 1;
  now = at i 500;
}

samples-IsSteady : IsSteady samples
samples-IsSteady = record {
  executed = λ i. ground arith;
  high_priority_executed = λ i. ground arith;
  small = λ i. (ground arith, ground arith);
  normal = λ i. record { positive = refl; small = omega arith };
}

abbrev count_of : ℕ → Timespec → ℕ
count_of count time = count

run_rounds_example :
    (rounds : List Interval) × (length rounds ≡ expt_len)
    × AddsUp samples 0 expt_len rounds
    × (run count_of samples (λ i. 0)
        ≡ ok (record {
          results = map (λ r. count_of r.executed r.elapsed) rounds;
          high_priority_results = map (λ r. count_of r.high_priority_executed r.elapsed) rounds;
          done = 1;
        }))
run_rounds_example = run_rounds count_of samples (λ i. 0) refl refl samples-IsSteady
