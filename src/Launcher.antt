-- ===== src/Launcher.antt =====
-- a1/src/launcher/launcher.h, launcher.cc: the counters that every launcher keeps.
pub mod Tally
pub mod Thread
pub mod Process
pub mod FreeList
pub mod Unmap
pub mod ThreadPool
pub mod ProcessPool
use cmsc_624_spring.Common.{ℕ, ◌+◌, ◌%◌, ◌^◌, Bool, ◌==◌, Outcome, ◌>>=◌, ◌>>◌, require}

-- uint64 counters; the first two lie in memory that is shared with the executors.
pub record Counters : Type 0 where
  pub txns_executed : ℕ
  pub high_priority_txns_executed : ℕ
  pub num_requests : ℕ

abbrev pub cache_line_sz : ℕ
cache_line_sz = 64

-- The constructor maps and clears the shared counters.
abbrev pub new_counters : Counters
new_counters = record { txns_executed = 0; high_priority_txns_executed = 0; num_requests = 0 }

unfoldable pub read_txns_executed : Counters → ℕ
read_txns_executed c = c.txns_executed

unfoldable pub read_high_priority_txns_executed : Counters → ℕ
read_high_priority_txns_executed c = c.high_priority_txns_executed

-- `fetch_and_increment(txns_executed_)`, one locked instruction
unfoldable pub incr_done_txns : Counters → Counters
incr_done_txns c = record c { txns_executed = (c.txns_executed + 1) % 2 ^ 64 }

unfoldable pub execute_request : Counters → Counters
execute_request c = record c { num_requests = (c.num_requests + 1) % 2 ^ 64 }

-- The test by which WaitOutstanding leaves its loop.
unfoldable pub none_outstanding : Counters → Bool
none_outstanding c = c.txns_executed == c.num_requests

-- The destructor, on the addresses of the two counters. `munmap address length n` says whether call
-- number `n` returns 0.
unfoldable pub destroy : (ℕ → ℕ → ℕ → Bool) → ℕ → ℕ → ℕ → Outcome (Unit {0})
destroy munmap txns_executed high_priority_txns_executed calls = do
  require (munmap txns_executed cache_line_sz calls)
  require (munmap high_priority_txns_executed cache_line_sz (calls + 1))
