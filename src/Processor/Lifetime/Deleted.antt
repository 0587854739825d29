-- ===== src/Processor/Lifetime/Deleted.antt =====
-- The destructor deletes the storage and the lock manager before it joins the pool's threads.
use cmsc_624_spring.Common.{ℕ, ◌≡◌, false}
use cmsc_624_spring.Txn.{Txn}
use cmsc_624_spring.LockManager.{LockManagerClass}
use cmsc_624_spring.Processor.{CcMode}
use cmsc_624_spring.Processor.Lifetime.{Lifetime, Lives}

-- The destructor's way from where the scheduler's thread has returned.
abbrev Gone : CcMode → LockManagerClass → (ℕ → ℕ) → (ℕ → ℕ) → Lifetime → Type 0
Gone mode c clock uninit l =
    (l' : Lifetime) × Lives mode c clock uninit l l'
    × (l'.system ≡ l.system)
    × (l'.storage_alive ≡ false)
    × (l'.lm_alive ≡ false)
