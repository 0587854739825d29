-- ===== src/Processor/Locking/Counting.antt =====
-- The steps of a run of the locking scheduler, counted; their number has a bound.
use cmsc_624_spring.Common.{
  ℕ, ◌+◌, ◌≤◌, ◌≡◌, refl, ap, subst, ◌∙◌, some, List, [], ◌∷◌, ◌++◌, Outcome, ok, die, arith, times,
  times-append, length, update,
}
use cmsc_624_spring.Atomic.Queue
use cmsc_624_spring.Atomic.Queue.{AtomicQueue}
use cmsc_624_spring.Txn.{Txn}
use cmsc_624_spring.Txn.Types
use cmsc_624_spring.LockManager.{LockManager, LockManagerClass}
use cmsc_624_spring.Processor.{Processor, finish}
use cmsc_624_spring.Processor.Finish.{finish_inv}
use cmsc_624_spring.Processor.Locking.{
  Task, System, release_all, start_request, finish_request, hand_out, begin, read_one, run_task,
  Step, requests, finishes, hands_out, begins, reads, runs, Reach, here, next,
}
use cmsc_624_spring.Processor.Locking.Places.{task_txns, times-middle}
use cmsc_624_spring.Processor.Locking.Contract.{Contract}
use cmsc_624_spring.Processor.Locking.Costs.{
  cost, unread, cost-append, cost-middle, cost-task_txns, unread-middle, cost_le, cost_add,
  cost_mono,
}
use cmsc_624_spring.Processor.Locking.Ledger.{Start, IsFreshStart, Inv, times_self}
use cmsc_624_spring.Processor.Locking.Serializable.{Begins, Begins-Inv, Reach-Inv}

abbrev pub steps :
    {c : LockManagerClass} {clock uninit : ℕ → ℕ} {s s' : System} → Reach c clock uninit s s' → ℕ
steps here = 0
steps (next r step) = 1 + steps r

abbrev pub one : ℕ → ℕ
one i = 1

-- The reads of a transaction.
abbrev pub reads_of : Start → ℕ → ℕ
reads_of b i = length ((b.heap i).readset ++ (b.heap i).writeset)

-- The steps that the transactions have behind them, their requests left out and with the reads that
-- they are about to make.
abbrev spent : Start → System → ℕ
spent b s =
    cost one s.queued
    + cost (λ i. 2 + reads_of b i) (task_txns s.begun)
    + cost (λ i. 3 + reads_of b i) s.processor.completed_txns.items
    + cost (λ i. 4 + reads_of b i) s.processor.txn_results.items

abbrev to_do : System → ℕ
to_do s = cost one s.processor.txn_requests.items + unread s.begun

cost-push :
    (w : ℕ → ℕ) (q : AtomicQueue ℕ) (txn : ℕ)
    → cost w (Queue.push q txn).items ≡ cost w q.items + w txn
unfolding Queue.push
cost-push w q txn = omega (arith, cost-append w q.items (txn ∷ []))

cost-pop :
    (w : ℕ → ℕ) (q rest : AtomicQueue ℕ) (txn : ℕ)
    → Queue.pop q ≡ (some txn, rest)
    → cost w q.items ≡ w txn + cost w rest.items
cost-pop w q rest txn e = ap (cost w) (Queue.pop_inv q rest txn e)

counts-runs :
    (b : Start) (s : System) (before : List Task) (txn : ℕ) (after : List Task) (p' : Processor)
    → s.begun ≡ before ++ record { txn = txn; keys = [] } ∷ after
    → run_task txn s.processor ≡ ok p'
    → let s' = record s { processor = p'; begun = before ++ after } in
      spent b s' + to_do s ≡ 1 + spent b s + to_do s'
unfolding run_task
counts-runs b s before txn after p' e ran = by_run (Types.run (s.processor.heap txn)) refl
  where
    s' : Processor → System
    s' q = record s { processor = q; begun = before ++ after }

    by_run :
        (o : Outcome Txn)
        → Types.run (s.processor.heap txn) ≡ o
        → spent b (s' p') + to_do s ≡ 1 + spent b s + to_do (s' p')
    by_run die h = absurd (ground arith)
    by_run (ok t) h =
        let left : record s.processor {
          heap = update s.processor.heap txn t;
          completed_txns = Queue.push s.processor.completed_txns txn;
        }
            ≡ p' =
          ground arith in
        let task : Task = record { txn = txn; keys = [] } in
        subst (λ q. spent b (s' q) + to_do s ≡ 1 + spent b s + to_do (s' q)) left
          (omega (
            arith,
            ap unread e,
            unread-middle before task after,
            ap (λ l. cost (λ i. 2 + reads_of b i) (task_txns l)) e,
            cost-task_txns (λ i. 2 + reads_of b i) before task after,
            cost-push (λ i. 3 + reads_of b i) s.processor.completed_txns txn,
          ))

counts-finishes :
    (b : Start) (c : LockManagerClass) (clock : ℕ → ℕ) (s : System) (txn : ℕ) (rest : AtomicQueue ℕ)
    (p' : Processor)
    → Queue.pop s.processor.completed_txns ≡ (some txn, rest)
    → finish_request c clock txn rest s.processor ≡ ok p'
    → let s' = record s { processor = p' } in spent b s' + to_do s ≡ 1 + spent b s + to_do s'
unfolding finish_request
counts-finishes b c clock s txn rest p' e done = by_finish (finish clock txn popped) refl
  where
    popped : Processor
    popped = record s.processor { completed_txns = rest }

    s' : Processor → System
    s' q = record s { processor = q }

    by_finish :
        (o : Outcome Processor)
        → finish clock txn popped ≡ o
        → spent b (s' p') + to_do s ≡ 1 + spent b s + to_do (s' p')
    by_finish die h = absurd (ground arith)
    by_finish (ok q) h =
        let (reqs, ready, completed, results, lm) = finish_inv clock txn popped q h in
        let r = release_all c txn (q.heap txn) q.lm q.ready_txns in
        let left : record q {
          lm = r.lm;
          ready_txns = r.ready_txns;
          txn_results = Queue.push q.txn_results txn;
        }
            ≡ p' =
          ground arith in
        let w = λ (i : ℕ). 3 + reads_of b i in
        let v = λ (i : ℕ). 4 + reads_of b i in
        subst (λ q. spent b (s' q) + to_do s ≡ 1 + spent b s + to_do (s' q)) left
          (omega (
            arith,
            ap (λ x. cost one x.items) reqs,
            ap (λ x. cost w x.items) completed,
            ap (λ x. cost v x.items) results,
            cost-push v q.txn_results txn,
            cost-pop w s.processor.completed_txns rest txn e,
          ))

-- `spent` grows by one with each step, up to what `to_do` shrinks or grows by.
module _ {c : LockManagerClass} {Holds : LockManager → (ℕ → ℕ) → (ℕ → ℕ) → Type 0} {b : Start}
    (contract : Contract c b.heap Holds) (start : IsFreshStart b) where
  counts-begins :
      (s : System) (before : List ℕ) (txn : ℕ) (after : List ℕ)
      → s.queued ≡ before ++ txn ∷ after
      → Inv Holds b s
      → let s' = begin txn (before ++ after) s in spent b s' + to_do s ≡ 1 + spent b s + to_do s'
  unfolding begin
  counts-begins s before txn after e inv =
      let self = times_self txn in
      let queued : times txn s.queued ≡ times txn (before ++ after) + times txn (txn ∷ []) =
        ap (times txn) e ∙ times-middle txn txn before after in
      let same : s.processor.heap txn ≡ b.heap txn =
        inv.untouched txn
          (omega (arith, self, queued, inv.once txn, start.distinct txn, inv.active txn)) in
      omega (
        arith,
        ap (cost one) e,
        cost-middle one before txn after,
        ap (λ (t : Txn). length (t.readset ++ t.writeset)) same,
      )

  Step-counts :
      {clock uninit : ℕ → ℕ} {s s' : System}
      → Step c clock uninit s s'
      → Inv Holds b s
      → spent b s' + to_do s ≡ 1 + spent b s + to_do s'
  unfolding start_request hand_out read_one
  Step-counts {s = s} (requests txn rest e) inv =
      omega (arith, cost-pop one s.processor.txn_requests rest txn e)
  Step-counts {clock} {s = s} (finishes txn rest p' e h) inv =
      counts-finishes b c clock s txn rest p' e h
  Step-counts {s = s} (hands_out txn rest e) inv =
      omega (arith, cost-append one s.queued (txn ∷ []))
  Step-counts {s = s} (begins before txn after e) inv = counts-begins s before txn after e inv
  Step-counts {s = s} (reads before txn key keys after e) inv =
      let old : Task = record { txn = txn; keys = key ∷ keys } in
      let new : Task = record { txn = txn; keys = keys } in
      let w = λ (i : ℕ). 2 + reads_of b i in
      omega (
        arith,
        ap unread e,
        unread-middle before old after,
        unread-middle before new after,
        ap (λ l. cost w (task_txns l)) e,
        cost-task_txns w before old after,
        cost-task_txns w before new after,
      )
  Step-counts {s = s} (runs before txn after p' e h) inv = counts-runs b s before txn after p' e h

  Reach-counts :
      {clock uninit : ℕ → ℕ} {s s' : System} (r : Reach c clock uninit s s')
      → Begins Holds b s
      → steps r + to_do s' ≡ spent b s' + cost one b.requests
  Reach-counts {s = s} here h = omega (
    arith,
    ap (cost one) h.requests,
    ap unread h.begun,
    ap (cost one) h.queued,
    ap (λ l. cost (λ i. 2 + reads_of b i) (task_txns l)) h.begun,
    ap (cost (λ i. 3 + reads_of b i)) h.completed,
    ap (cost (λ i. 4 + reads_of b i)) h.results,
  )
  Reach-counts (next r step) h = omega (
    arith,
    Reach-counts r h,
    Step-counts step (Reach-Inv contract start r (Begins-Inv contract start _ h)),
  )

  -- What is spent stays below what the requests can take.
  spent_le : (s : System) → Inv Holds b s → spent b s ≤ cost (λ i. 4 + reads_of b i) b.requests
  spent_le s inv =
      let w = λ (i : ℕ). 4 + reads_of b i in
      let begun = task_txns s.begun in
      let completed = s.processor.completed_txns.items in
      let results = s.processor.txn_results.items in
      let all = cost_mono w (s.queued ++ (begun ++ (completed ++ results))) b.requests (λ i. omega (
        arith,
        inv.once i,
        inv.active i,
        times-append i s.queued (begun ++ (completed ++ results)),
        times-append i begun (completed ++ results),
        times-append i completed results,
      )) in
      omega (
        arith,
        all,
        cost-append w s.queued (begun ++ (completed ++ results)),
        cost-append w begun (completed ++ results),
        cost-append w completed results,
        cost_le one w s.queued (λ i. omega arith),
        cost_le (λ i. 2 + reads_of b i) w begun (λ i. omega arith),
        cost_le (λ i. 3 + reads_of b i) w completed (λ i. omega arith),
      )

  pub steps_le :
      {clock uninit : ℕ → ℕ} {s s' : System} (r : Reach c clock uninit s s')
      → Begins Holds b s
      → steps r ≤ cost (λ i. 5 + reads_of b i) b.requests
  steps_le {s' = s'} r h =
      let inv = Reach-Inv contract start r (Begins-Inv contract start _ h) in
      omega (
        arith,
        Reach-counts r h,
        spent_le s' inv,
        cost_add one (λ i. 4 + reads_of b i) b.requests,
        cost_le (λ i. one i + (4 + reads_of b i)) (λ i. 5 + reads_of b i) b.requests
            (λ i. omega arith),
      )
