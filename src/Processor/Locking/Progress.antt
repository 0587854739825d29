-- ===== src/Processor/Locking/Progress.antt =====
-- The locking scheduler makes progress until it has served all requests.
use cmsc_624_spring.Common.{ℕ}
use cmsc_624_spring.Atomic.Queue
use cmsc_624_spring.LockManager.{LockManager, LockManagerClass}
use cmsc_624_spring.Processor.Locking.{System, Step}
use cmsc_624_spring.Processor.Locking.Contract.{Contract}

-- The state allows a step.
abbrev pub CanStep : LockManagerClass → (ℕ → ℕ) → (ℕ → ℕ) → System → Type 0
CanStep c clock uninit s = (s' : System) × Step c clock uninit s s'
