-- ===== src/Processor/Locking/Places.antt =====
-- What the locking scheduler relies on in a lock manager, and the places where a transaction can be.
use cmsc_624_spring.Common.{
  ℕ, ◌+◌, ◌≡◌, refl, sym, ap, ◌∙◌, List, [], ◌∷◌, ◌++◌, if◌then◌else◌, times, times-append,
  times_cons, arith,
}
use cmsc_624_spring.Txn.{Txn}
use cmsc_624_spring.LockManager.{LockManager, LockManagerClass}
use cmsc_624_spring.Processor.Locking.{Task, System, request_locks, release_all}

-- What the scheduler relies on: a lock manager keeps a transaction exactly while it is blocked, and
-- gives it back through the queue of ready transactions. `blocked lm i` says how often it keeps `i`.
pub record Keeps (c : LockManagerClass) (blocked : LockManager → ℕ → ℕ) : Type 0 where
  pub requested :
      (txn : ℕ) (t : Txn) (lm : LockManager) (ready : List ℕ) (i : ℕ)
      → let g = request_locks c txn t lm ready in
        times i g.ready_txns + blocked g.lm i + (if g.granted then times i (txn ∷ []) else 0)
        ≡ times i ready + blocked lm i + times i (txn ∷ [])
  pub released :
      (txn : ℕ) (t : Txn) (lm : LockManager) (ready : List ℕ) (i : ℕ)
      → let r = release_all c txn t lm ready in
        times i r.ready_txns + blocked r.lm i ≡ times i ready + blocked lm i

abbrev pub task_txns : List Task → List ℕ
task_txns [] = []
task_txns (t ∷ ts) = t.txn ∷ task_txns ts

task_txns-append : (xs ys : List Task) → task_txns (xs ++ ys) ≡ task_txns xs ++ task_txns ys
task_txns-append [] ys = refl
task_txns-append (x ∷ xs) ys = ap (λ l. x.txn ∷ l) (task_txns-append xs ys)

pub times-middle :
    (i txn : ℕ) (before after : List ℕ)
    → times i (before ++ txn ∷ after) ≡ times i (before ++ after) + times i (txn ∷ [])
times-middle i txn before after = omega (
  arith,
  times-append i before (txn ∷ after),
  times-append i before after,
  times_cons i txn after,
)

pub times-task_txns :
    (i : ℕ) (before : List Task) (t : Task) (after : List Task)
    → times i (task_txns (before ++ t ∷ after))
      ≡ times i (task_txns (before ++ after)) + times i (t.txn ∷ [])
times-task_txns i before t after =
    ap (times i) (task_txns-append before (t ∷ after))
    ∙ times-middle i t.txn (task_txns before) (task_txns after)
    ∙ ap (λ l. times i l + times i (t.txn ∷ [])) (sym (task_txns-append before after))

-- How often a transaction stands in the scheduler's hands, and in the results.
unfoldable pub places : (LockManager → ℕ → ℕ) → ℕ → System → ℕ
places blocked i s =
    let p = s.processor in
    times i p.txn_requests.items
    + (times i p.ready_txns + blocked p.lm i)
    + times i s.queued
    + times i (task_txns s.begun)
    + times i p.completed_txns.items
    + times i p.txn_results.items
