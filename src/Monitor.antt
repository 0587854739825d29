-- ===== src/Monitor.antt =====
-- a1/src/monitor/perf_monitor.h, perf_monitor.cc: the thread that samples the launcher's counters once a
-- second. The doubles are a parameter: `rate` is a count over a time in seconds.
pub mod Difference
pub mod Intervals
use cmsc_624_spring.Common.{
  ℕ, zero, suc, ◌+◌, ◌-◌, ◌%◌, ◌^◌, Bool, List, [], ◌∷◌, map, Outcome, ok, ◌>>=◌, ◌>>◌, require,
  ◌==◌, if◌then◌else◌, ℤ, pos, ◌+ℤ◌, ◌-ℤ◌, is_negative,
}

abbrev pub expt_len : ℕ
expt_len = 60

pub record Timespec : Type 0 where
  pub tv_sec : ℤ
  pub tv_nsec : ℤ

abbrev pub billion : ℕ
billion = 1000000000

unfoldable pub diff_time : Timespec → Timespec → Timespec
diff_time end start =
    if is_negative (end.tv_nsec -ℤ start.tv_nsec)
    then record {
      tv_sec = end.tv_sec -ℤ start.tv_sec -ℤ pos 1;
      tv_nsec = pos billion +ℤ end.tv_nsec -ℤ start.tv_nsec;
    }
    else record { tv_sec = end.tv_sec -ℤ start.tv_sec; tv_nsec = end.tv_nsec -ℤ start.tv_nsec }

-- What the monitor reads at one time: the two counters, and the clock.
pub record Sample : Type 0 where
  pub executed : ℕ
  pub high_priority_executed : ℕ
  pub now : Timespec

-- What one round of the loop computes; the counts are uint64.
pub record Interval : Type 0 where
  pub executed : ℕ
  pub high_priority_executed : ℕ
  pub elapsed : Timespec

unfoldable pub interval_of : Sample → Sample → Interval
interval_of prev total = record {
  executed = (total.executed + (2 ^ 64 - prev.executed)) % 2 ^ 64;
  high_priority_executed =
      (total.high_priority_executed + (2 ^ 64 - prev.high_priority_executed)) % 2 ^ 64;
  elapsed = diff_time total.now prev.now;
}

-- The loop, with `n` rounds left from round `i`; `sample (i + 1)` is what round `i` reads, and `sample
-- 0` what was read before the loop.
unfoldable pub intervals : (ℕ → Sample) → ℕ → ℕ → List Interval
intervals sample zero i = []
intervals sample (suc n) i = interval_of (sample i) (sample (i + 1)) ∷ intervals sample n (i + 1)

pub record Report {ℓ} (D : Type ℓ) : Type ℓ where
  pub results : List D
  pub high_priority_results : List D
  pub done : ℕ

-- Run: `done i` is what the flag holds at the two assertions.
unfoldable pub run {ℓ} :
    {D : Type ℓ} → (ℕ → Timespec → D) → (ℕ → Sample) → (ℕ → ℕ) → Outcome (Report D)
run rate sample done = do
  require (done 0 == 0)
  let rounds = intervals sample expt_len 0 in
      require (done 1 == 0)
      >> ok (record {
        results = map (λ r. rate r.executed r.elapsed) rounds;
        high_priority_results = map (λ r. rate r.high_priority_executed r.elapsed) rounds;
        done = (done 1 + 1) % 2 ^ 64;
      })
