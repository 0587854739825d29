-- ===== src/Processor/Locking/Serializable.antt =====
-- The locking scheduler is serializable over any lock manager that keeps the contract.
use cmsc_624_spring.Common.{
  ℕ, ◌≤◌, ◌≡◌, sym, ap, subst, ◌∙◌, [], ◌++◌, arith, times, times_nil, append-nil, All,
}
use cmsc_624_spring.Atomic.Queue
use cmsc_624_spring.LockManager.{LockManager, LockManagerClass}
use cmsc_624_spring.Storage.{single}
use cmsc_624_spring.Storage.Single.{Storage}
use cmsc_624_spring.Processor.{Processor}
use cmsc_624_spring.Processor.Execute.{records}
use cmsc_624_spring.Processor.Serial.Replay.{replay, Verdicts, commits}
use cmsc_624_spring.Processor.Locking.{
  System, Step, requests, finishes, hands_out, begins, reads, runs, Reach, here, next,
}
use cmsc_624_spring.Processor.Locking.Places.{task_txns}
use cmsc_624_spring.Processor.Locking.Contract.{Contract}
use cmsc_624_spring.Processor.Locking.Stages.{Reading}
use cmsc_624_spring.Processor.Locking.Ledger.{Start, IsFreshStart, ledger, Inv}
use cmsc_624_spring.Processor.Locking.Steps.{
  requests-Inv, hands_out-Inv, begins-Inv, reads-Inv, runs-Inv,
}
use cmsc_624_spring.Processor.Locking.Finishes.{finishes-Inv}

-- A state with nothing but requests, no locks taken, over a single-version storage.
pub record Begins (Holds : LockManager → (ℕ → ℕ) → (ℕ → ℕ) → Type 0) (b : Start) (s : System)
    : Type 0 where
  pub heap : s.processor.heap ≡ b.heap
  pub requests : s.processor.txn_requests.items ≡ b.requests
  pub store : Storage
  pub stored : s.processor.storage ≡ single store
  pub db : records store ≡ b.db
  pub log : s.processor.committed_txns.elements ≡ b.log
  pub ready : s.processor.ready_txns ≡ []
  pub queued : s.queued ≡ []
  pub begun : s.begun ≡ []
  pub completed : s.processor.completed_txns.items ≡ []
  pub results : s.processor.txn_results.items ≡ []
  pub locks : Holds s.processor.lm (λ i. 0) (λ i. 0)

-- The transactions handed to the client had the effect of running one after another, in the order of
-- the results.
pub record IsSerialized (b : Start) (s : System) : Type 0 where
  pub storage :
      (store : Storage) × (s.processor.storage ≡ single store)
      × (records store ≡ replay b.heap s.processor.txn_results.items b.db)
  pub verdicts : Verdicts b.heap s.processor.heap s.processor.txn_results.items b.db
  pub log :
      s.processor.committed_txns.elements
      ≡ b.log ++ commits b.heap s.processor.txn_results.items b.db
  pub requested : (i : ℕ) → times i s.processor.txn_results.items ≤ times i b.requests

module _ {c : LockManagerClass} {Holds : LockManager → (ℕ → ℕ) → (ℕ → ℕ) → Type 0} {b : Start}
    (contract : Contract c b.heap Holds) (start : IsFreshStart b) where
  pub Begins-Inv : (s : System) → Begins Holds b s → Inv Holds b s
  Begins-Inv s h = record {
    act = λ i. 0;
    blk = λ i. 0;
    locks = h.locks;
    active = λ i. omega (
      arith,
      ap (times i) h.ready,
      ap (times i) h.queued,
      ap (λ l. times i (task_txns l)) h.begun,
      ap (times i) h.completed,
      times_nil i,
    );
    once = λ i. omega (arith, ap (times i) h.requests, ap (times i) h.results, times_nil i);
    store = h.store;
    stored = h.stored;
    current = h.db ∙ ap (λ l. replay b.heap l b.db) (sym h.results);
    untouched = λ i none_yet. ap (λ f. f i) h.heap;
    reading =
        subst (All (λ t. Reading (ledger b s) (s.processor.heap t.txn) (b.heap t.txn) t.keys))
          (sym h.begun) tt;
    voted = λ i lt. absurd (omega (arith, lt, ap (times i) h.completed, times_nil i));
    verdicts = subst (λ l. Verdicts b.heap s.processor.heap l b.db) (sym h.results) tt;
    log = h.log ∙ sym (append-nil b.log) ∙ ap (λ l. b.log ++ commits b.heap l b.db) (sym h.results);
  }

  Step-Inv :
      {clock uninit : ℕ → ℕ} {s s' : System}
      → Step c clock uninit s s'
      → Inv Holds b s
      → Inv Holds b s'
  Step-Inv {s = s} (requests txn rest e) inv = requests-Inv contract start s txn rest e inv
  Step-Inv {clock} {s = s} (finishes txn rest p' e h) inv =
      finishes-Inv contract start clock s txn rest p' e h inv
  Step-Inv {s = s} (hands_out txn rest e) inv = hands_out-Inv contract start s txn rest e inv
  Step-Inv {s = s} (begins before txn after e) inv =
      begins-Inv contract start s before txn after e inv
  Step-Inv {uninit = uninit} {s = s} (reads before txn key keys after e) inv =
      reads-Inv contract start uninit s before txn key keys after e inv
  Step-Inv {s = s} (runs before txn after p' e h) inv =
      runs-Inv contract start s before txn after p' e h inv

  pub Reach-Inv :
      {clock uninit : ℕ → ℕ} {s s' : System}
      → Reach c clock uninit s s'
      → Inv Holds b s
      → Inv Holds b s'
  Reach-Inv here inv = inv
  Reach-Inv (next r step) inv = Step-Inv step (Reach-Inv r inv)

  -- And once no request is waiting, none is ready or in the pool, and the completed queue is empty, each
  -- transaction was handed to the client exactly as often as it was requested: none stays blocked.
  pub all_served :
      {clock uninit : ℕ → ℕ} {s s' : System}
      → Begins Holds b s
      → Reach c clock uninit s s'
      → s'.processor.txn_requests.items ≡ []
      → s'.processor.ready_txns ≡ []
      → s'.queued ≡ []
      → s'.begun ≡ []
      → s'.processor.completed_txns.items ≡ []
      → (i : ℕ) → times i s'.processor.txn_results.items ≡ times i b.requests
  all_served {s = s} {s' = s'} h r no_requests not_ready not_queued not_begun not_completed i =
      let inv = Reach-Inv r (Begins-Inv s h) in
      let idle : (j : ℕ) → inv.act j ≡ 0 = λ j.
        inv.active j
        ∙ omega (
          arith,
          ap (times j) not_ready,
          ap (times j) not_queued,
          ap (λ l. times j (task_txns l)) not_begun,
          ap (times j) not_completed,
          times_nil j,
        ) in
      let none_blocked : inv.blk i ≡ 0 =
        contract.awake s'.processor.lm inv.act inv.blk inv.locks idle i in
      omega (arith, none_blocked, idle i, inv.once i, ap (times i) no_requests, times_nil i)
