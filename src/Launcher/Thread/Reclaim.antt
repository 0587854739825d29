-- ===== src/Launcher/Thread/Reclaim.antt =====
-- Who holds the thread_args, and when they are freed.
use cmsc_624_spring.Common.{times, ℕ, ◌+◌, ◌^◌, ◌<◌, ◌≤◌, ◌≡◌, refl, List, [], arith}
use cmsc_624_spring.Launcher.Thread.{
  Worker, absent, running, executed, linked, signalled, returned, Caller, joining, Launcher, issue,
  admit, take, join, link, signal, count, Step, issues, admits, takes, joins, leaves, executes,
  links, signals, counts, Reach, start, next,
}
use cmsc_624_spring.Launcher.Thread.Invariant.{Reach-Inv}

-- The thread_args that the launcher has taken and not freed.
abbrev pub held : Caller → List ℕ
held (joining rest) = rest
held _ = []

abbrev pub has_linked : Worker → ℕ
has_linked linked = 1
has_linked signalled = 1
has_linked returned = 1
has_linked _ = 0

-- A thread_arg that is linked is in one place, once, and only those of threads that are through are freed.
pub record Owned (l : Launcher) : Type 0 where
  pub once :
      (i : ℕ)
      → times i l.targ_list + times i (held l.caller) + times i l.freed ≡ has_linked (l.workers i)
  pub through : (i : ℕ) → 0 < times i l.freed → l.workers i ≡ returned

Step-Owned :
    {l l' : Launcher}
    → ((i : ℕ) → l.issued ≤ i → l.workers i ≡ absent)
    → Owned l
    → Step l l'
    → Owned l'
unfolding issue admit take join link signal count times
Step-Owned {l} above o (issues e) = record {
  once = λ i. ground (arith, o.once i, above l.issued);
  through = λ i h. ground (arith, o.through i h, above l.issued);
}
Step-Owned {l} above o (admits e free) = record {
  once = λ i. ground (arith, o.once i);
  through = o.through;
}
Step-Owned {l} above o (takes e) = record {
  once = λ i. ground (arith, o.once i);
  through = o.through;
}
Step-Owned {l} above o (joins j rest e r) = record {
  once = λ i. ground (arith, o.once i);
  through = λ i h. ground (arith, o.through i);
}
Step-Owned {l} above o (leaves e) = record {
  once = λ i. ground (arith, o.once i);
  through = o.through;
}
Step-Owned {l} above o (executes j e) = record {
  once = λ i. ground (arith, o.once i);
  through = λ i h. ground (arith, o.through i h);
}
Step-Owned {l} above o (links j e) = record {
  once = λ i. ground (arith, o.once i);
  through = λ i h. ground (arith, o.through i h);
}
Step-Owned {l} above o (signals j e) = record {
  once = λ i. ground (arith, o.once i);
  through = λ i h. ground (arith, o.through i h);
}
Step-Owned {l} above o (counts j e) = record {
  once = λ i. ground (arith, o.once i);
  through = λ i h. ground (arith, o.through i h);
}

pub Reach-Owned : {max : ℕ} {l : Launcher} → max + 1 < 2 ^ 32 → Reach max l → Owned l
unfolding times
Reach-Owned small start = record { once = λ i. refl; through = λ i h. absurd (omega arith) }
Reach-Owned small (next r s) = Step-Owned (λ i. (Reach-Inv small r).above i) (Reach-Owned small r) s

-- At a launcher with a limit below 2^32 - 1, no interleaving frees a thread_arg twice, or before the
-- thread that it belongs to has returned, or while it is still in targ_list_ or to be joined.
pub freed-once :
    {max : ℕ} {l : Launcher} (i : ℕ)
    → max + 1 < 2 ^ 32
    → Reach max l
    → (times i l.freed ≤ 1)
      × (0 < times i l.freed → l.workers i ≡ returned)
      × (0 < times i l.freed → times i l.targ_list + times i (held l.caller) ≡ 0)
freed-once {l = l} i small r =
    let o = Reach-Owned small r in
    let e = o.once i in
    (omega (arith, e, at (l.workers i)), o.through i, λ h. omega (arith, e, at (l.workers i)))
  where
    at : (w : Worker) → has_linked w ≤ 1
    at absent = omega arith
    at running = omega arith
    at executed = omega arith
    at linked = omega arith
    at signalled = omega arith
    at returned = omega arith
