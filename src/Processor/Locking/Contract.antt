-- ===== src/Processor/Locking/Contract.antt =====
-- What a2/src/txn/lock_manager.h promises about the locks of whole transactions.
use cmsc_624_spring.Common.{
  ℕ, ◌+◌, ◌-◌, ◌<◌, ◌≤◌, ◌≡◌, ◌≢◌, true, false, List, [], ◌∷◌, ◌++◌, if◌then◌else◌, times, has,
}
use cmsc_624_spring.Txn.{Txn}
use cmsc_624_spring.LockManager.{LockManager, LockManagerClass}
use cmsc_624_spring.Processor.Locking.{request_locks, release_all}
use cmsc_624_spring.Processor.Locking.Local.{in_sets}

-- What the first transaction writes, the other neither reads nor writes.
abbrev pub Compatible : Txn → Txn → Type 0
Compatible t u = (j : ℕ) → has j t.writeset ≡ true → in_sets u j ≡ false

-- `Holds lm act blk`: the lock manager has the transaction `i` as an owner of all its locks `act i`
-- times, and waiting for one of them `blk i` times.
--   requested: a transaction that is in neither state and requests its locks gets into one of them, and
--     no other becomes ready;
--   released: one that releases its locks gets out, and the waiting ones that then own all theirs are
--     put at the end of the ready queue;
--   compatible: no two owners conflict;
--   awake: a transaction waits only while there is an owner.
pub record Contract (c : LockManagerClass) (heap : ℕ → Txn)
    (Holds : LockManager → (ℕ → ℕ) → (ℕ → ℕ) → Type 0) : Type 0 where
  pub requested :
      (txn : ℕ) (lm : LockManager) (ready : List ℕ) (act blk : ℕ → ℕ)
      → Holds lm act blk
      → act txn ≡ 0
      → blk txn ≡ 0
      → let g = request_locks c txn (heap txn) lm ready in
        (g.ready_txns ≡ ready)
        × Holds g.lm
            (λ i. act i + (if g.granted then times i (txn ∷ []) else 0))
            (λ i. blk i + (if g.granted then 0 else times i (txn ∷ [])))
  pub released :
      (txn : ℕ) (lm : LockManager) (ready : List ℕ) (act blk : ℕ → ℕ)
      → Holds lm act blk
      → act txn ≡ 1
      → let r = release_all c txn (heap txn) lm ready in
        (woken : List ℕ) × (r.ready_txns ≡ ready ++ woken)
        × ((i : ℕ) → times i woken ≤ blk i)
        × Holds r.lm (λ i. act i + times i woken - times i (txn ∷ [])) (λ i. blk i - times i woken)
  pub compatible :
      (lm : LockManager) (act blk : ℕ → ℕ)
      → Holds lm act blk
      → (a b : ℕ) → a ≢ b
      → 0 < act a
      → 0 < act b
      → Compatible (heap a) (heap b)
  pub awake :
      (lm : LockManager) (act blk : ℕ → ℕ)
      → Holds lm act blk
      → ((i : ℕ) → act i ≡ 0)
      → (i : ℕ) → blk i ≡ 0
