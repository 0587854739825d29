-- ===== src/Launcher/Thread/Outstanding.antt =====
-- How many requests a launcher lets run at once, and what WaitOutstanding waits for.
use cmsc_624_spring.Common.{ℕ, zero, suc, ◌+◌, ◌^◌, ◌<◌, ◌≤◌, ◌≡◌, refl, ap, [], arith}
use cmsc_624_spring.Launcher.Thread.{
  Worker, absent, running, executed, linked, signalled, returned, ready, joining, Launcher, update,
  new_launcher, issue, admit, take, issues, admits, takes, leaves, Reach, start, next,
}
use cmsc_624_spring.Launcher.Tally.{tally, tally_zero, tally-suc, tally-update_above}
use cmsc_624_spring.Launcher.Thread.Invariant.{holds_slot, is_running, waits, Reach-Inv}

running-holds_slot :
    (n : ℕ) (workers : ℕ → Worker) → tally is_running n workers ≤ tally holds_slot n workers
unfolding tally
running-holds_slot zero workers = omega arith
running-holds_slot (suc n) workers = omega (arith, running-holds_slot n workers, at (workers n))
  where
    at : (w : Worker) → is_running w ≤ holds_slot w
    at absent = omega arith
    at running = omega arith
    at executed = omega arith
    at linked = omega arith
    at signalled = omega arith
    at returned = omega arith

-- At a launcher with a limit below 2^32 - 1, no interleaving has more than one request above the limit
-- running at once, and none above it except while ExecuteRequest waits for a slot.
pub running_bound :
    {max : ℕ} {l : Launcher}
    → max + 1 < 2 ^ 32
    → Reach max l
    → tally is_running l.issued l.workers ≤ max + waits l.caller
running_bound {l = l} small r =
    let inv = Reach-Inv small r in omega (arith, inv.slots, running-holds_slot l.issued l.workers)

-- `n` requests run, and the launcher is back outside of ExecuteRequest.
record Filled (max n : ℕ) (l : Launcher) : Type 0 where
  reached : Reach max l
  at_rest : l.caller ≡ ready
  count_of : l.issued ≡ n
  free : l.max_outstanding + n ≡ max
  empty : l.targ_list ≡ []
  run : tally is_running l.issued l.workers ≡ n

issue-running :
    (l : Launcher)
    → tally is_running (issue l).issued (issue l).workers ≡ 1 + tally is_running l.issued l.workers
unfolding issue
issue-running l = ground (
  arith,
  tally-suc is_running l.issued (update l.workers l.issued running),
  tally-update_above is_running l.issued l.issued l.workers running,
)

fill : (max n : ℕ) → n ≤ max → (l : Launcher) × Filled max n l
unfolding issue admit take
fill max zero h = (
  new_launcher max,
  record {
    reached = start;
    at_rest = refl;
    count_of = refl;
    free = omega arith;
    empty = refl;
    run = tally_zero is_running (λ i. absent);
  },
)
fill max (suc n) h =
    let (l, f) = fill max n (omega arith) in
    let issued = next f.reached (issues f.at_rest) in
    let admitted = next issued (admits refl (omega (arith, f.free))) in
    let taken = next admitted (takes refl) in
    (
      _,
      record {
        reached = next taken (leaves (ap joining f.empty));
        at_rest = refl;
        count_of = ap suc f.count_of;
        free = omega (arith, f.free);
        empty = refl;
        run = omega (arith, issue-running l, f.run);
      },
    )

-- Whatever its limit, a launcher can come to run one request more than the limit: ExecuteRequest
-- creates the thread before it waits for a slot.
pub overshoot :
    (max : ℕ) → (l : Launcher) × Reach max l × (tally is_running l.issued l.workers ≡ max + 1)
overshoot max =
    let (l, f) = fill max max (omega arith) in
    (issue l, next f.reached (issues f.at_rest), omega (arith, issue-running l, f.run))
