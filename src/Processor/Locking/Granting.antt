-- ===== src/Processor/Locking/Granting.antt =====
-- The lock managers of the repository under the locking scheduler, and what comes out of it.
use cmsc_624_spring.Common.{
  ℕ, ◌+◌, ◌≤◌, ◌≡◌, refl, ap, true, List, [], ◌∷◌, times, times_nil, arith,
}
use cmsc_624_spring.LockManager.{LockManager, LockManagerClass, Granted, Released}
use cmsc_624_spring.LockManager.A
use cmsc_624_spring.LockManager.B
use cmsc_624_spring.Processor.Locking.{
  System, read_locks, write_locks, request_locks, release_keys, release_all, Reach,
}
use cmsc_624_spring.Processor.Locking.Places.{Keeps, places, task_txns}
use cmsc_624_spring.Processor.Locking.Conservation.{Reach-places}

-- A class whose calls grant at once and change nothing.
record Grants (c : LockManagerClass) : Type 0 where
  reads :
      (lm : LockManager) (ready : List ℕ) (txn key : ℕ)
      → c.read_lock lm ready txn key ≡ record { granted = true; lm = lm; ready_txns = ready }
  writes :
      (lm : LockManager) (ready : List ℕ) (txn key : ℕ)
      → c.write_lock lm ready txn key ≡ record { granted = true; lm = lm; ready_txns = ready }
  releases :
      (lm : LockManager) (ready : List ℕ) (txn key : ℕ)
      → c.release lm ready txn key ≡ record { lm = lm; ready_txns = ready }

module _ {c : LockManagerClass} (g : Grants c) where
  read_locks_lem : (txn : ℕ) (keys : List ℕ) (s : Granted) → read_locks c txn keys s ≡ s
  unfolding read_locks
  read_locks_lem txn [] s = refl
  read_locks_lem txn (key ∷ keys) s =
      rw (g.reads s.lm s.ready_txns txn key) (read_locks_lem txn keys s)

  write_locks_lem : (txn : ℕ) (keys : List ℕ) (s : Granted) → write_locks c txn keys s ≡ s
  unfolding write_locks
  write_locks_lem txn [] s = refl
  write_locks_lem txn (key ∷ keys) s =
      rw (g.writes s.lm s.ready_txns txn key) (write_locks_lem txn keys s)

  release_keys_lem : (txn : ℕ) (keys : List ℕ) (r : Released) → release_keys c txn keys r ≡ r
  unfolding release_keys
  release_keys_lem txn [] r = refl
  release_keys_lem txn (key ∷ keys) r =
      rw (g.releases r.lm r.ready_txns txn key) (release_keys_lem txn keys r)

  Grants-Keeps : Keeps c (λ lm i. 0)
  unfolding request_locks release_all
  Grants-Keeps = record {
    requested = λ txn t lm ready i.
        let start : Granted = record { granted = true; lm = lm; ready_txns = ready } in
        rw (read_locks_lem txn t.readset start, write_locks_lem txn t.writeset start) (omega arith);
    released = λ txn t lm ready i.
        let start : Released = record { lm = lm; ready_txns = ready } in
        rw (release_keys_lem txn t.readset start, release_keys_lem txn t.writeset start)
          (omega arith);
  }

-- Both classes as they stand keep nothing back.
pub A-Keeps : Keeps A.class (λ lm i. 0)
unfolding A.write_lock A.read_lock A.release
A-Keeps =
    Grants-Keeps
      (record { reads = λ lm r t k. refl; writes = λ lm r t k. refl; releases = λ lm r t k. refl })

pub B-Keeps : Keeps B.class (λ lm i. 0)
unfolding B.write_lock B.read_lock B.release
B-Keeps =
    Grants-Keeps
      (record { reads = λ lm r t k. refl; writes = λ lm r t k. refl; releases = λ lm r t k. refl })

-- Nothing but requests.
pub record Starts (blocked : LockManager → ℕ → ℕ) (s : System) : Type 0 where
  pub ready : s.processor.ready_txns ≡ []
  pub unblocked : (i : ℕ) → blocked s.processor.lm i ≡ 0
  pub queued : s.queued ≡ []
  pub begun : s.begun ≡ []
  pub completed : s.processor.completed_txns.items ≡ []
  pub results : s.processor.txn_results.items ≡ []

places-Starts :
    (blocked : LockManager → ℕ → ℕ) (s : System) (i : ℕ)
    → Starts blocked s
    → places blocked i s ≡ times i s.processor.txn_requests.items
unfolding places
places-Starts blocked s i h = omega (
  arith,
  ap (times i) h.ready,
  h.unblocked i,
  ap (times i) h.queued,
  ap (λ l. times i (task_txns l)) h.begun,
  ap (times i) h.completed,
  ap (times i) h.results,
  times_nil i,
)

-- From a state with nothing but requests, over any lock manager that keeps what it blocks, and in
-- whatever order the scheduler and the executors take their steps: the client never gets a
-- transaction more often than it was requested; and each as often as it was requested, once no
-- request is waiting, none is blocked or ready, and the pool and the completed queue are empty.
pub results_lem :
    {c : LockManagerClass} {blocked : LockManager → ℕ → ℕ} (keeps : Keeps c blocked) (i : ℕ)
    {clock uninit : ℕ → ℕ} {s s' : System}
    → Starts blocked s
    → Reach c clock uninit s s'
    → (times i s'.processor.txn_results.items ≤ times i s.processor.txn_requests.items)
      × (times i s'.processor.txn_requests.items
              + (times i s'.processor.ready_txns + blocked s'.processor.lm i)
              + times i s'.queued
              + times i (task_txns s'.begun)
              + times i s'.processor.completed_txns.items
            ≡ 0
          → times i s'.processor.txn_results.items ≡ times i s.processor.txn_requests.items)
unfolding places
results_lem {blocked = blocked} keeps i {s = s} h r =
    let same = Reach-places keeps i r in
    let all = places-Starts blocked s i h in
    (omega (arith, same, all), λ idle. omega (arith, same, all, idle))
