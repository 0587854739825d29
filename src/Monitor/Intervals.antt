-- ===== src/Monitor/Intervals.antt =====
-- What the rounds of the monitor add up to.
use cmsc_624_spring.Common.{
  ℕ, zero, suc, ◌+◌, ◌^◌, ◌<◌, ◌≤◌, ◌≡◌, refl, sym, ap, ◌∙◌, List, [], ◌∷◌, map, length, ok, arith,
  ℤ, pos, ◌+ℤ◌, ◌-ℤ◌, -ℤ_self, -ℤ_chain,
}
use cmsc_624_spring.Monitor.{Timespec, Sample, Interval, interval_of, intervals, run, expt_len}
use cmsc_624_spring.Monitor.Difference.{nanoseconds, IsNormal, diff_time_lem}

abbrev pub total : (Interval → ℕ) → List Interval → ℕ
total count [] = 0
total count (r ∷ rs) = count r + total count rs

abbrev pub total_time : List Interval → ℤ
total_time [] = pos 0
total_time (r ∷ rs) = nanoseconds r.elapsed +ℤ total_time rs

-- The counters never fall and stay below 2^64, and the clock gives normal times.
pub record IsSteady (sample : ℕ → Sample) : Type 0 where
  pub executed : (i : ℕ) → (sample i).executed ≤ (sample (i + 1)).executed
  pub high_priority_executed :
      (i : ℕ) → (sample i).high_priority_executed ≤ (sample (i + 1)).high_priority_executed
  pub small :
      (i : ℕ) → ((sample i).executed < 2 ^ 64) × ((sample i).high_priority_executed < 2 ^ 64)
  pub normal : (i : ℕ) → IsNormal (sample i).now

-- The totals of a list of rounds from sample `i` to sample `j`.
pub record AddsUp (sample : ℕ → Sample) (i j : ℕ) (rs : List Interval) : Type 0 where
  pub executed : total (λ r. r.executed) rs + (sample i).executed ≡ (sample j).executed
  pub high_priority_executed :
      total (λ r. r.high_priority_executed) rs + (sample i).high_priority_executed
      ≡ (sample j).high_priority_executed
  pub time : total_time rs ≡ nanoseconds (sample j).now -ℤ nanoseconds (sample i).now

module _ (sample : ℕ → Sample) (steady : IsSteady sample) where
  same_sample : (i j : ℕ) → i ≡ j → sample i ≡ sample j
  same_sample i j e = ap sample e

  intervals-AddsUp : (n i : ℕ) → AddsUp sample i (i + n) (intervals sample n i)
  unfolding intervals interval_of
  intervals-AddsUp zero i =
      let e = same_sample (i + 0) i (omega arith) in
      record {
        executed = omega (arith, ap (λ s. s.executed) e);
        high_priority_executed = omega (arith, ap (λ s. s.high_priority_executed) e);
        time =
            -ℤ_self (nanoseconds (sample i).now)
            ∙ ap (λ s. nanoseconds s.now -ℤ nanoseconds (sample i).now) (sym e);
      }
  intervals-AddsUp (suc n) i =
      let e = same_sample (i + 1 + n) (i + suc n) (omega arith) in
      let rest = intervals-AddsUp n (i + 1) in
      let small = steady.small i in
      let small' = steady.small (i + 1) in
      record {
        executed =
            omega (arith, ap (λ s. s.executed) e, rest.executed, steady.executed i, small, small');
        high_priority_executed = omega (
          arith,
          ap (λ s. s.high_priority_executed) e,
          rest.high_priority_executed,
          steady.high_priority_executed i,
          small,
          small',
        );
        time =
            ap (λ t. t +ℤ total_time (intervals sample n (i + 1)))
              (diff_time_lem (sample (i + 1)).now (sample i).now (steady.normal (i + 1))
                (steady.normal i)).1
            ∙ ap (λ t. nanoseconds (sample (i + 1)).now -ℤ nanoseconds (sample i).now +ℤ t)
                rest.time
            ∙ -ℤ_chain (nanoseconds (sample i).now) (nanoseconds (sample (i + 1)).now)
                (nanoseconds (sample (i + 1 + n)).now)
            ∙ ap (λ s. nanoseconds s.now -ℤ nanoseconds (sample i).now) e;
      }

length-intervals : (sample : ℕ → Sample) (n i : ℕ) → length (intervals sample n i) ≡ n
unfolding intervals
length-intervals sample zero i = refl
length-intervals sample (suc n) i = ap suc (length-intervals sample n (i + 1))

-- If the flag is clear at both assertions, the counters do not fall and stay below 2^64, and the clock
-- gives normal times, the monitor ends with the flag at 1 and with a result for each of 60 rounds:
-- the counts of the round over its time. Over the rounds the counts add up to what was executed
-- between the first sample and the last, and the times to the time between them: nothing is
-- counted twice or lost between rounds.
pub run_rounds {ℓ} :
    {D : Type ℓ} (rate : ℕ → Timespec → D) (sample : ℕ → Sample) (done : ℕ → ℕ)
    → done 0 ≡ 0
    → done 1 ≡ 0
    → IsSteady sample
    → (rounds : List Interval) × (length rounds ≡ expt_len)
      × AddsUp sample 0 expt_len rounds
      × (run rate sample done
          ≡ ok (record {
            results = map (λ r. rate r.executed r.elapsed) rounds;
            high_priority_results = map (λ r. rate r.high_priority_executed r.elapsed) rounds;
            done = 1;
          }))
unfolding run
run_rounds rate sample done clear still steady = (
  intervals sample expt_len 0,
  length-intervals sample expt_len 0,
  intervals-AddsUp sample steady expt_len 0,
  rw (clear, still) refl,
)
