-- ===== src/Launcher/Process.antt =====
-- a1/src/launcher/process_launcher.h, process_launcher.cc: a process for each request, interleaved in
-- any order. The bodies that should hold the launcher back are the handed-out stubs.
pub mod Invariant
pub mod Unbounded
use cmsc_624_spring.Common.{
  ℕ, suc, ◌-◌, ◌^◌, ◌≡◌, Bool, true, false, ◌&&◌, Outcome, ok, die, ◌>>=◌, ◌>>◌, require, ltb,
  update,
}
use cmsc_624_spring.Launcher.{Counters, new_counters, incr_done_txns}
use cmsc_624_spring.Launcher
use cmsc_624_spring.Common.{ℤ, pos, negsuc}

-- Where the child of a request stands in its branch of ExecuteRequest.
pub data Child : Type 0 where
  absent : Child  -- not forked
  running : Child  -- up to the return of `req->Execute()`
  executed : Child  -- before it increments txns_executed
  counted : Child  -- before exit(0)
  exited : Child

-- Children go by the number of their request; `issued` counts the calls of ExecuteRequest that have
-- returned in the parent. max_outstanding lies in memory that is shared with the children.
pub record ProcessLauncher : Type 0 where
  pub counters : Counters
  pub max_outstanding : ℕ
  pub children : ℕ → Child
  pub issued : ℕ

abbrev pub int_max : ℕ
int_max = 2 ^ 31 - 1

-- What the constructor leaves.
abbrev pub made : ℕ → ProcessLauncher
made max = record {
  counters = new_counters;
  max_outstanding = max;
  children = λ i. absent;
  issued = 0;
}

-- The constructor: `assert(max_outstanding < INT_MAX && max_outstanding > 0);`
unfoldable pub new_launcher : ℤ → Outcome ProcessLauncher
new_launcher (negsuc n) = die
new_launcher (pos max) = do require (ltb max int_max && ltb 0 max); ok (made max)

-- ExecuteRequest in the parent. A fork that fails returns -1 and is asserted not to.
unfoldable pub execute_request : Bool → ProcessLauncher → Outcome ProcessLauncher
execute_request false l = die
execute_request true l = ok (record l {
  counters = Launcher.execute_request l.counters;
  children = update l.children l.issued running;
  issued = suc l.issued;
})

-- `fetch_and_increment(this->txns_executed_)` in the child: the counter is shared, and the child's
-- copy of num_requests_ is its own.
unfoldable pub count : ℕ → ProcessLauncher → ProcessLauncher
count i l = record l {
  counters = incr_done_txns l.counters;
  children = update l.children i counted;
}

-- The destructor, on the addresses of the limit, the mutex and the condition variable, each of which the
-- constructor has mapped by itself. `munmap address length n` says whether call number `n` returns 0.
unfoldable pub destroy : (ℕ → ℕ → ℕ → Bool) → ℕ → ℕ → ℕ → Outcome (Unit {0})
destroy munmap max_outstanding mutex cond = do
  require (munmap max_outstanding 4 0)
  require (munmap mutex 40 1)
  require (munmap cond 48 2)

pub data Step (l : ProcessLauncher) : ProcessLauncher → Type 0 where
  issues : (l' : ProcessLauncher) → execute_request true l ≡ ok l' → Step l l'
  executes :
      (i : ℕ)
      → l.children i ≡ running
      → Step l (record l { children = update l.children i executed })
  counts : (i : ℕ) → l.children i ≡ executed → Step l (count i l)
  exits :
      (i : ℕ) → l.children i ≡ counted → Step l (record l { children = update l.children i exited })

-- The states of a launcher that the constructor has made with that limit.
pub data Reach (max : ℤ) : ProcessLauncher → Type 0 where
  start : (l : ProcessLauncher) → new_launcher max ≡ ok l → Reach max l
  next : {l l' : ProcessLauncher} → Reach max l → Step l l' → Reach max l'
