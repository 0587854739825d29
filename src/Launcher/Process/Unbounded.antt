-- ===== src/Launcher/Process/Unbounded.antt =====
-- How many children of the launcher of processes can be outstanding at once.
use cmsc_624_spring.Common.{ℕ, zero, suc, ◌<◌, ◌≡◌, refl, arith, update, ap}
use cmsc_624_spring.Common.{pos}
use cmsc_624_spring.Launcher.Process.{
  made, Child, running, ProcessLauncher, new_launcher, execute_request, issues, Reach, start, next,
  int_max, absent,
}
use cmsc_624_spring.Launcher.Tally.{tally, tally_zero, tally-suc, tally-update_above}

-- The child of a request that has not been executed.
abbrev pub is_running : Child → ℕ
is_running running = 1
is_running _ = 0

-- The parent neither waits nor takes a slot: at every limit that the constructor accepts, and for
-- every number, there is a state in which that many children are running at once, and the shared
-- count of free slots still stands at the limit.
pub outstanding_unbounded :
    (max n : ℕ)
    → 0 < max
    → max < int_max
    → (l : ProcessLauncher) × Reach (pos max) l
      × (l.issued ≡ n)
      × (tally is_running l.issued l.children ≡ n)
      × (l.max_outstanding ≡ max)
unfolding execute_request new_launcher
outstanding_unbounded max zero lo hi =
    (made max, start (made max) (ground arith), refl, tally_zero is_running (λ i. absent), refl)
outstanding_unbounded max (suc n) lo hi =
    let (l, r, e, run, free) = outstanding_unbounded max n lo hi in
    (
      _,
      next r (issues _ refl),
      ap suc e,
      ground (
        arith,
        tally-suc is_running l.issued (update l.children l.issued running),
        tally-update_above is_running l.issued l.issued l.children running,
      ),
      free,
    )
