-- ===== src/LockManager/B.antt =====
-- a2/src/txn/lock_manager.cc, class LockManagerB: the stub of part 1B, shared and exclusive locks.
use cmsc_624_spring.Common.{ℕ, true, List}
use cmsc_624_spring.LockManager.{
  LockMode, unlocked, LockManager, LockManagerClass, Granted, Released,
}

unfoldable pub write_lock : LockManager → List ℕ → ℕ → ℕ → Granted
write_lock lm ready txn key = record { granted = true; lm = lm; ready_txns = ready }

unfoldable pub read_lock : LockManager → List ℕ → ℕ → ℕ → Granted
read_lock lm ready txn key = record { granted = true; lm = lm; ready_txns = ready }

unfoldable pub release : LockManager → List ℕ → ℕ → ℕ → Released
release lm ready txn key = record { lm = lm; ready_txns = ready }

-- `*owners` is not touched.
unfoldable pub status : LockManager → ℕ → List ℕ → LockMode × List ℕ
status lm key owners = (unlocked, owners)

abbrev pub class : LockManagerClass
class = record {
  read_lock = read_lock;
  write_lock = write_lock;
  release = release;
  status = status;
}
