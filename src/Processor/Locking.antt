-- ===== src/Processor/Locking.antt =====
-- a2/src/txn/txn_processor.cc: RunLockingScheduler, over the interface of the lock managers, and the
-- threads that execute transactions, interleaved with it in any order. A step is one iteration of a
-- loop of the scheduler, or one read or the run of an executor; the scheduler's steps may come in any
-- order, which includes the order of its loops. Finishing a transaction is one step.
pub mod Places
pub mod Conservation
pub mod Granting
pub mod Local
pub mod Contract
pub mod Costs
pub mod Stages
pub mod Ledger
pub mod Steps
pub mod Finishes
pub mod Serializable
pub mod Counting
pub mod Progress
use cmsc_624_spring.Common.{
  ℕ, Bool, true, false, not, ◌&&◌, ◌≡◌, Option, none, some, List, [], ◌∷◌, ◌++◌, Outcome, ok, die,
  ◌>>=◌, if◌then◌else◌, put,
}
use cmsc_624_spring.Atomic.Queue
use cmsc_624_spring.Atomic.Queue.{AtomicQueue}
use cmsc_624_spring.Atomic.Vector
use cmsc_624_spring.Txn.{Txn}
use cmsc_624_spring.Txn.Types
use cmsc_624_spring.Storage
use cmsc_624_spring.LockManager.{LockManager, LockManagerClass, Granted, Released}
use cmsc_624_spring.Processor.{Processor, update, keep_found, finish}

-- A task of the thread pool: a transaction, and the keys that ExecuteTxn has yet to read.
pub record Task : Type 0 where
  pub txn : ℕ
  pub keys : List ℕ

-- `queued` are the tasks of the pool that no thread has begun, `begun` the others that have not
-- handed their transaction back.
pub record System : Type 0 where
  pub processor : Processor
  pub queued : List ℕ
  pub begun : List Task

module _ (c : LockManagerClass) where
  -- The loops that request locks: whether all were granted, and what the calls leave.
  unfoldable pub read_locks : ℕ → List ℕ → Granted → Granted
  read_locks txn [] g = g
  read_locks txn (key ∷ keys) g =
      let r = c.read_lock g.lm g.ready_txns txn key in
      read_locks txn keys (record r { granted = r.granted && g.granted })

  unfoldable pub write_locks : ℕ → List ℕ → Granted → Granted
  write_locks txn [] g = g
  write_locks txn (key ∷ keys) g =
      let r = c.write_lock g.lm g.ready_txns txn key in
      write_locks txn keys (record r { granted = r.granted && g.granted })

  unfoldable pub request_locks : ℕ → Txn → LockManager → List ℕ → Granted
  request_locks txn t lm ready =
      write_locks txn t.writeset
        (read_locks txn t.readset (record { granted = true; lm = lm; ready_txns = ready }))

  unfoldable pub release_keys : ℕ → List ℕ → Released → Released
  release_keys txn [] r = r
  release_keys txn (key ∷ keys) r = release_keys txn keys (c.release r.lm r.ready_txns txn key)

  unfoldable pub release_all : ℕ → Txn → LockManager → List ℕ → Released
  release_all txn t lm ready =
      release_keys txn t.writeset
        (release_keys txn t.readset (record { lm = lm; ready_txns = ready }))

  -- The first part of a round, on a popped request.
  unfoldable pub start_request : ℕ → AtomicQueue ℕ → Processor → Processor
  start_request txn rest p =
      let g = request_locks txn (p.heap txn) p.lm p.ready_txns in
      record p {
        txn_requests = rest;
        lm = g.lm;
        ready_txns = if g.granted then g.ready_txns ++ txn ∷ [] else g.ready_txns;
      }

  -- The second part, on a popped transaction that has completed.
  unfoldable pub finish_request : (ℕ → ℕ) → ℕ → AtomicQueue ℕ → Processor → Outcome Processor
  finish_request clock txn rest p = do
    q ← finish clock txn (record p { completed_txns = rest })
    let r = release_all txn (q.heap txn) q.lm q.ready_txns in
        ok (record q {
          lm = r.lm;
          ready_txns = r.ready_txns;
          txn_results = Queue.push q.txn_results txn;
        })

-- The third part: a ready transaction goes to the pool.
unfoldable pub hand_out : ℕ → List ℕ → System → System
hand_out txn rest s = record s {
  processor = record s.processor { ready_txns = rest };
  queued = s.queued ++ txn ∷ [];
}

-- The start of ExecuteTxn.
unfoldable pub begin : ℕ → List ℕ → System → System
begin txn rest s =
    let p = s.processor in
    let t = p.heap txn in
    record s {
      processor = record p {
        heap = update p.heap txn (record t { occ_start_idx = Vector.size p.committed_txns });
      };
      queued = rest;
      begun = record { txn = txn; keys = t.readset ++ t.writeset } ∷ s.begun;
    }

-- One read of ExecuteTxn.
unfoldable pub read_one : (ℕ → ℕ) → ℕ → ℕ → Processor → Processor
read_one uninit txn key p =
    let t = p.heap txn in
    record p {
      heap =
          update p.heap txn (record t {
            reads = keep_found (Storage.read p.storage key (uninit key) 0) key t.reads;
          });
    }

-- The end of ExecuteTxn.
unfoldable pub run_task : ℕ → Processor → Outcome Processor
run_task txn p = do
  t ← Types.run (p.heap txn)
  ok (record p { heap = update p.heap txn t; completed_txns = Queue.push p.completed_txns txn })

pub data Step (c : LockManagerClass) (clock uninit : ℕ → ℕ) (s : System) : System → Type 0 where
  requests :
      (txn : ℕ) (rest : AtomicQueue ℕ)
      → Queue.pop s.processor.txn_requests ≡ (some txn, rest)
      → Step c clock uninit s (record s { processor = start_request c txn rest s.processor })
  finishes :
      (txn : ℕ) (rest : AtomicQueue ℕ) (p' : Processor)
      → Queue.pop s.processor.completed_txns ≡ (some txn, rest)
      → finish_request c clock txn rest s.processor ≡ ok p'
      → Step c clock uninit s (record s { processor = p' })
  hands_out :
      (txn : ℕ) (rest : List ℕ)
      → s.processor.ready_txns ≡ txn ∷ rest
      → Step c clock uninit s (hand_out txn rest s)
  -- The pool has several queues: a thread may begin any task.
  begins :
      (before : List ℕ) (txn : ℕ) (after : List ℕ)
      → s.queued ≡ before ++ txn ∷ after
      → Step c clock uninit s (begin txn (before ++ after) s)
  reads :
      (before : List Task) (txn key : ℕ) (keys : List ℕ) (after : List Task)
      → s.begun ≡ before ++ record { txn = txn; keys = key ∷ keys } ∷ after
      → Step c clock uninit s (record s {
        processor = read_one uninit txn key s.processor;
        begun = before ++ record { txn = txn; keys = keys } ∷ after;
      })
  runs :
      (before : List Task) (txn : ℕ) (after : List Task) (p' : Processor)
      → s.begun ≡ before ++ record { txn = txn; keys = [] } ∷ after
      → run_task txn s.processor ≡ ok p'
      → Step c clock uninit s (record s { processor = p'; begun = before ++ after })

pub data Reach (c : LockManagerClass) (clock uninit : ℕ → ℕ) (s : System) : System → Type 0 where
  here : Reach c clock uninit s s
  next :
      {s' s'' : System}
      → Reach c clock uninit s s'
      → Step c clock uninit s' s''
      → Reach c clock uninit s s''
