-- ===== src/Launcher/Thread/Drained.antt =====
-- How the calls of ExecuteRequest come to their end.
use cmsc_624_spring.Common.{ℕ, zero, suc, ◌+◌, ◌^◌, ◌<◌, ◌≡◌, ◌≢◌, refl, ◌∙◌, true, arith}
use native.Mathlib.Decide.{dec_lt}
use cmsc_624_spring.Launcher.{none_outstanding}
use cmsc_624_spring.Launcher.Thread.{
  Worker, absent, running, executed, linked, signalled, returned, Caller, ready, waiting, taking,
  joining, Launcher, issue, admit, take, join, link, signal, count, Step, issues, admits, takes,
  joins, leaves, executes, links, signals, counts, Reach, start, next,
}
use cmsc_624_spring.Launcher.Tally.{tally}
use cmsc_624_spring.Launcher.Thread.Invariant.{is_returned, Reach-Inv}
use cmsc_624_spring.Launcher.Thread.Progress.{steps, caller_steps, left, Step-left, progress}

idle-ready : (c : Caller) → caller_steps c ≡ 0 → c ≡ ready
idle-ready ready h = refl
idle-ready waiting h = absurd (omega arith)
idle-ready taking h = absurd (omega arith)
idle-ready (joining rest) h = absurd (omega arith)

Created : Launcher → Type 0
Created l = (i : ℕ) → i < l.issued → l.workers i ≢ absent

Step-Created : {l l' : Launcher} → Created l → Step l l' → Created l'
unfolding Created issue admit take join link signal count
Step-Created c (issues e) = λ i lt q. ground (arith, c i)
Step-Created c (admits e free) = c
Step-Created c (takes e) = c
Step-Created c (joins i rest e h) = c
Step-Created c (leaves e) = c
Step-Created c (executes j e) = λ i lt q. ground (arith, c i)
Step-Created c (links j e) = λ i lt q. ground (arith, c i)
Step-Created c (signals j e) = λ i lt q. ground (arith, c i)
Step-Created c (counts j e) = λ i lt q. ground (arith, c i)

Reach-Created : {max : ℕ} {l : Launcher} → Reach max l → Created l
unfolding Created
Reach-Created start = λ i lt q. absurd (omega arith)
Reach-Created (next r s) = Step-Created (Reach-Created r) s

all_returned :
    (n : ℕ) (workers : ℕ → Worker)
    → ((i : ℕ) → i < n → workers i ≢ absent)
    → tally steps n workers ≡ 0
    → tally is_returned n workers ≡ n
unfolding tally
all_returned zero workers created h = refl
all_returned (suc n) workers created h = omega (
  arith,
  all_returned n workers (λ i lt. created i (omega arith)) (omega arith),
  at (workers n) (created n (omega arith)) (omega arith),
)
  where
    at : (w : Worker) → w ≢ absent → steps w ≡ 0 → is_returned w ≡ 1
    at absent ne h = absurd (ne refl)
    at running ne h = absurd (omega arith)
    at executed ne h = absurd (omega arith)
    at linked ne h = absurd (omega arith)
    at signalled ne h = absurd (omega arith)
    at returned ne h = refl

-- A launcher that is reached without a new call.
record Drained (max : ℕ) (from to : Launcher) : Type 0 where
  pub reached : Reach max to
  pub same : to.issued ≡ from.issued
  pub at_rest : to.caller ≡ ready
  pub done : none_outstanding to.counters ≡ true

at_end :
    {max : ℕ} {l : Launcher}
    → max + 1 < 2 ^ 32
    → Reach max l
    → caller_steps l.caller + tally steps l.issued l.workers ≡ 0
    → Drained max l l
unfolding none_outstanding Created
at_end {l = l} small r h =
    let inv = Reach-Inv small r in
    let all = all_returned l.issued l.workers (Reach-Created r) (omega arith) in
    record {
      reached = r;
      same = refl;
      at_rest = idle-ready l.caller (omega arith);
      done = ground (arith, inv.requests, inv.done, all);
    }

drain :
    {max : ℕ} (fuel : ℕ) {l : Launcher}
    → max + 1 < 2 ^ 32
    → Reach max l
    → left l < fuel
    → (l' : Launcher) × Drained max l l'
drain zero small r h = absurd (omega arith)
drain (suc fuel) {l} small r h =
    elim (dec_lt 0 (caller_steps l.caller + tally steps l.issued l.workers)) [
      | yes busy ↦
          let (m, step, same) = progress small r busy in
          let less = Step-left small r step same in
          let (l', d) = drain fuel small (next r step) (omega arith) in
          (
            l',
            record {
              reached = d.reached;
              same = d.same ∙ same;
              at_rest = d.at_rest;
              done = d.done;
            },
          )
      | no idle ↦ (l, at_end small r (omega arith))
    ]

pub drains :
    {max : ℕ} {l : Launcher}
    → max + 1 < 2 ^ 32
    → Reach max l
    → (l' : Launcher) × Reach max l'
      × (l'.issued ≡ l.issued)
      × (l'.caller ≡ ready)
      × (none_outstanding l'.counters ≡ true)
drains {l = l} small r =
    let (l', d) = drain (suc (left l)) small r (omega arith) in
    (l', d.reached, d.same, d.at_rest, d.done)
