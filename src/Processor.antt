-- ===== src/Processor.antt =====
-- a2/src/txn/txn_processor.h, txn_processor.cc: the state of TxnProcessor and its methods, the
-- schedulers apart. The queues hold addresses of transactions; `heap` maps an address to the object,
-- so a status that is set after a push shows through every queue that holds the pointer.
pub mod Execute
pub mod Finish
pub mod Serial
pub mod Locking
pub mod Client
pub mod Lifetime
pub use cmsc_624_spring.Common.{update}
use cmsc_624_spring.Common.{
  ℕ, suc, ◌+◌, Bool, true, false, Option, none, some, List, [], ◌∷◌, Outcome, ok, die, ◌>>=◌, ◌==◌,
  if◌then◌else◌, Map, put,
}
use cmsc_624_spring.Atomic.Queue
use cmsc_624_spring.Atomic.Queue.{AtomicQueue}
use cmsc_624_spring.Atomic.Vector
use cmsc_624_spring.Atomic.Vector.{AtomicVector}
use cmsc_624_spring.Atomic.Set
use cmsc_624_spring.Atomic.Set.{AtomicSet}
use cmsc_624_spring.Txn.{Txn, TxnStatus, completed_c, completed_a, committed, aborted}
use cmsc_624_spring.Txn.Types
use cmsc_624_spring.Storage
use cmsc_624_spring.Storage.{Store}
use cmsc_624_spring.Storage.Single
use cmsc_624_spring.Storage.Multi
use cmsc_624_spring.LockManager.{LockManager}

pub data CcMode : Type 0 where
  serial locking_exclusive_only locking occ p_occ mvcc mvcc_ssi : CcMode

pub record Processor : Type 0 where
  pub mode : CcMode
  pub storage : Store
  pub next_unique_id : ℕ
  pub txn_requests : AtomicQueue ℕ
  pub ready_txns : List ℕ
  pub completed_txns : AtomicQueue ℕ
  pub committed_txns : AtomicVector ℕ
  pub txn_results : AtomicQueue ℕ
  pub active_set : AtomicSet
  pub lm : LockManager
  pub heap : ℕ → Txn

-- The storage that the constructor makes for a mode.
abbrev pub store_of : CcMode → Store
store_of mvcc = Storage.multi Multi.empty
store_of mvcc_ssi = Storage.multi Multi.empty
store_of _ = Storage.single Single.empty

-- The constructor up to the start of the scheduler's thread.
unfoldable pub new_processor : (ℕ → ℕ) → CcMode → (ℕ → Txn) → Processor
new_processor clock mode heap = record {
  mode = mode;
  storage = Storage.init_storage clock (store_of mode);
  next_unique_id = 1;
  txn_requests = Queue.empty;
  ready_txns = [];
  completed_txns = Queue.empty;
  committed_txns = Vector.empty;
  txn_results = Queue.empty;
  active_set = Set.empty;
  lm = record { lock_table = []; txn_waits = [] };
  heap = heap;
}

unfoldable pub new_txn_request : ℕ → Processor → Processor
new_txn_request txn p = record p {
  heap = update p.heap txn (record (p.heap txn) { unique_id = p.next_unique_id });
  next_unique_id = p.next_unique_id + 1;
  txn_requests = Queue.push p.txn_requests txn;
}

-- One try of GetTxnResult's loop; on `none` the caller sleeps and tries again.
unfoldable pub get_txn_result : Processor → Option ℕ × Processor
get_txn_result p = let r = Queue.pop p.txn_results in (r.0, record p { txn_results = r.1 })

abbrev keep_found : Bool × ℕ → ℕ → Map ℕ → Map ℕ
keep_found (true, value) key reads = put key value reads
keep_found (false, value) key reads = reads

-- `Value result; if (storage_->Read(*it, &result)) txn->reads_[*it] = result;` for each key. The local
-- variable is not initialised: `uninit key` is what it holds.
unfoldable pub read_keys : (ℕ → ℕ) → List ℕ → Store → Map ℕ → Map ℕ
read_keys uninit [] store reads = reads
read_keys uninit (key ∷ keys) store reads =
    read_keys uninit keys store (keep_found (Storage.read store key (uninit key) 0) key reads)

abbrev pub loaded : (ℕ → ℕ) → Processor → Txn → Txn
loaded uninit p t = record t {
  occ_start_idx = Vector.size p.committed_txns;
  reads = read_keys uninit t.writeset p.storage (read_keys uninit t.readset p.storage t.reads);
}

unfoldable pub execute_txn : (ℕ → ℕ) → ℕ → Processor → Outcome Processor
execute_txn uninit txn p = do
  t ← Types.run (loaded uninit p (p.heap txn))
  ok (record p { heap = update p.heap txn t; completed_txns = Queue.push p.completed_txns txn })

unfoldable pub write_all : (ℕ → ℕ) → Map ℕ → ℕ → Store → Store
write_all clock [] id store = store
write_all clock ((key, value) ∷ writes) id store =
    write_all clock writes id (Storage.write clock store key value id)

unfoldable pub apply_writes : (ℕ → ℕ) → ℕ → Processor → Processor
apply_writes clock txn p = record p {
  storage = write_all clock (p.heap txn).writes (p.heap txn).unique_id p.storage;
}

abbrev set_status : ℕ → TxnStatus → Processor → Processor
set_status txn status p = record p {
  heap = update p.heap txn (record (p.heap txn) { status = status });
}

unfoldable pub commit_txn : (ℕ → ℕ) → ℕ → Processor → Processor
unfolding apply_writes
commit_txn clock txn p =
    let q = apply_writes clock txn p in
    set_status txn committed (record q { committed_txns = Vector.push q.committed_txns txn })

unfoldable pub abort_txn : ℕ → Processor → Processor
abort_txn txn p = set_status txn aborted p

finish_as : (ℕ → ℕ) → TxnStatus → ℕ → Processor → Outcome Processor
finish_as clock completed_c txn p = ok (commit_txn clock txn p)
finish_as clock completed_a txn p = ok (abort_txn txn p)
finish_as clock _ txn p = die

-- Commit or abort by the vote of the program logic: the same lines stand in both schedulers.
unfoldable pub finish : (ℕ → ℕ) → ℕ → Processor → Outcome Processor
unfolding finish_as
finish clock txn p = finish_as clock (p.heap txn).status txn p
