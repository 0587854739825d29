-- ===== src/LockManager.antt =====
-- a2/src/txn/lock_manager.h, lock_manager.cc: the lock managers as the repository has them. The
-- bodies of LockManagerA and LockManagerB are the handed-out stubs, which grant every lock.
pub mod A
pub mod B
use cmsc_624_spring.Common.{ℕ, Bool, List, Map}

pub data LockMode : Type 0 where
  unlocked shared exclusive : LockMode

pub record LockRequest : Type 0 where
  pub txn : ℕ
  pub mode : LockMode

-- The queue of ready transactions belongs to the TxnProcessor; the lock manager has a pointer to it,
-- so it is an argument and a result of the calls.
pub record LockManager : Type 0 where
  pub lock_table : Map (List LockRequest)
  pub txn_waits : Map ℕ

pub record Granted : Type 0 where
  pub granted : Bool
  pub lm : LockManager
  pub ready_txns : List ℕ

pub record Released : Type 0 where
  pub lm : LockManager
  pub ready_txns : List ℕ

-- The virtual methods.
pub record LockManagerClass : Type 0 where
  pub read_lock : LockManager → List ℕ → ℕ → ℕ → Granted
  pub write_lock : LockManager → List ℕ → ℕ → ℕ → Granted
  pub release : LockManager → List ℕ → ℕ → ℕ → Released
  pub status : LockManager → ℕ → List ℕ → LockMode × List ℕ
