-- ===== src/Processor/Locking/Conservation.antt =====
-- The steps of the locking scheduler, place by place.
use cmsc_624_spring.Common.{
  ℕ, ◌+◌, ◌≡◌, refl, sym, ap, ◌∙◌, Bool, true, false, some, List, [], ◌∷◌, ◌++◌, Outcome, ok, die,
  if◌then◌else◌, times, times-append, times_cons, arith,
}
use cmsc_624_spring.Atomic.Queue
use cmsc_624_spring.Atomic.Queue.{AtomicQueue}
use cmsc_624_spring.Txn.{Txn}
use cmsc_624_spring.LockManager.{LockManager, LockManagerClass}
use cmsc_624_spring.Txn.Types
use cmsc_624_spring.Processor.{Processor, update, finish}
use cmsc_624_spring.Processor.Finish.{finish_inv}
use cmsc_624_spring.Processor.Locking.{
  Task, System, request_locks, release_all, start_request, finish_request, hand_out, begin,
  read_one, run_task, Step, requests, finishes, hands_out, begins, reads, runs, Reach, here, next,
}
use cmsc_624_spring.Processor.Locking.Places.{
  Keeps, task_txns, times-middle, times-task_txns, places,
}

pub times-push :
    (i txn : ℕ) (q : AtomicQueue ℕ)
    → times i (Queue.push q txn).items ≡ times i q.items + times i (txn ∷ [])
unfolding Queue.push
times-push i txn q = times-append i q.items (txn ∷ [])

pub times-pop :
    (i txn : ℕ) (q rest : AtomicQueue ℕ)
    → Queue.pop q ≡ (some txn, rest)
    → times i q.items ≡ times i (txn ∷ []) + times i rest.items
times-pop i txn q rest e = ap (times i) (Queue.pop_inv q rest txn e) ∙ times_cons i txn rest.items

pub times-if :
    (i txn : ℕ) (b : Bool) (ready : List ℕ)
    → times i (if b then ready ++ txn ∷ [] else ready)
      ≡ times i ready + (if b then times i (txn ∷ []) else 0)
times-if i txn true ready = times-append i ready (txn ∷ [])
times-if i txn false ready = omega arith

module _ {c : LockManagerClass} {blocked : LockManager → ℕ → ℕ} (keeps : Keeps c blocked)
    (i : ℕ) where
  places-requests :
      (s : System) (txn : ℕ) (rest : AtomicQueue ℕ)
      → Queue.pop s.processor.txn_requests ≡ (some txn, rest)
      → places blocked i (record s { processor = start_request c txn rest s.processor })
        ≡ places blocked i s
  unfolding places start_request
  places-requests s txn rest e =
      let p = s.processor in
      let g = request_locks c txn (p.heap txn) p.lm p.ready_txns in
      omega (
        arith,
        times-pop i txn p.txn_requests rest e,
        times-if i txn g.granted g.ready_txns,
        keeps.requested txn (p.heap txn) p.lm p.ready_txns i,
      )

  places-hands_out :
      (s : System) (txn : ℕ) (rest : List ℕ)
      → s.processor.ready_txns ≡ txn ∷ rest
      → places blocked i (hand_out txn rest s) ≡ places blocked i s
  unfolding places hand_out
  places-hands_out s txn rest e =
      omega (arith, ap (times i) e, times_cons i txn rest, times-append i s.queued (txn ∷ []))

  places-begins :
      (s : System) (before : List ℕ) (txn : ℕ) (after : List ℕ)
      → s.queued ≡ before ++ txn ∷ after
      → places blocked i (begin txn (before ++ after) s) ≡ places blocked i s
  unfolding places begin
  places-begins s before txn after e =
      omega (
        arith,
        ap (times i) e,
        times-middle i txn before after,
        times_cons i txn (task_txns s.begun),
      )

  places-reads :
      (uninit : ℕ → ℕ) (s : System) (before : List Task) (txn key : ℕ) (keys : List ℕ)
      (after : List Task)
      → s.begun ≡ before ++ record { txn = txn; keys = key ∷ keys } ∷ after
      → places blocked i (record s {
        processor = read_one uninit txn key s.processor;
        begun = before ++ record { txn = txn; keys = keys } ∷ after;
      })
        ≡ places blocked i s
  unfolding places read_one
  places-reads uninit s before txn key keys after e = omega (
    arith,
    ap (λ l. times i (task_txns l)) e,
    times-task_txns i before (record { txn = txn; keys = key ∷ keys }) after,
    times-task_txns i before (record { txn = txn; keys = keys }) after,
  )

  places-runs :
      (s : System) (before : List Task) (txn : ℕ) (after : List Task) (p' : Processor)
      → s.begun ≡ before ++ record { txn = txn; keys = [] } ∷ after
      → run_task txn s.processor ≡ ok p'
      → places blocked i (record s { processor = p'; begun = before ++ after }) ≡ places blocked i s
  unfolding places run_task
  places-runs s before txn after p' e ran = by_run (Types.run (s.processor.heap txn)) refl
    where
      Conserves : Type 0
      Conserves =
          places blocked i (record s { processor = p'; begun = before ++ after })
          ≡ places blocked i s

      by_run : (o : Outcome Txn) → Types.run (s.processor.heap txn) ≡ o → Conserves
      by_run die h = absurd (ground arith)
      by_run (ok t) h =
          let left : record s.processor {
            heap = update s.processor.heap txn t;
            completed_txns = Queue.push s.processor.completed_txns txn;
          }
              ≡ p' =
            ground arith in
          ap (λ q. places blocked i (record s { processor = q; begun = before ++ after }))
            (sym left)
          ∙ omega (
            arith,
            ap (λ l. times i (task_txns l)) e,
            times-task_txns i before (record { txn = txn; keys = [] }) after,
            times-push i txn s.processor.completed_txns,
          )

  places-finishes :
      (clock : ℕ → ℕ) (s : System) (txn : ℕ) (rest : AtomicQueue ℕ) (p' : Processor)
      → Queue.pop s.processor.completed_txns ≡ (some txn, rest)
      → finish_request c clock txn rest s.processor ≡ ok p'
      → places blocked i (record s { processor = p' }) ≡ places blocked i s
  unfolding places finish_request
  places-finishes clock s txn rest p' e done = by_finish (finish clock txn popped) refl
    where
      popped : Processor
      popped = record s.processor { completed_txns = rest }

      by_finish :
          (o : Outcome Processor)
          → finish clock txn popped ≡ o
          → places blocked i (record s { processor = p' }) ≡ places blocked i s
      by_finish die h = absurd (ground arith)
      by_finish (ok q) h =
          let (reqs, ready, completed, results, lm) = finish_inv clock txn popped q h in
          let r = release_all c txn (q.heap txn) q.lm q.ready_txns in
          let left : record q {
            lm = r.lm;
            ready_txns = r.ready_txns;
            txn_results = Queue.push q.txn_results txn;
          }
              ≡ p' =
            ground arith in
          ap (λ x. places blocked i (record s { processor = x })) (sym left)
          ∙ omega (
            arith,
            ap (λ x. times i x.items) reqs,
            ap (times i) ready,
            ap (λ x. times i x.items) completed,
            ap (λ x. times i x.items) results,
            ap (λ x. blocked x i) lm,
            times-push i txn q.txn_results,
            times-pop i txn s.processor.completed_txns rest e,
            keeps.released txn (q.heap txn) q.lm q.ready_txns i,
          )

  Step-places :
      {clock uninit : ℕ → ℕ} {s s' : System}
      → Step c clock uninit s s'
      → places blocked i s' ≡ places blocked i s
  Step-places {s = s} (requests txn rest e) = places-requests s txn rest e
  Step-places {clock} {s = s} (finishes txn rest p' e h) = places-finishes clock s txn rest p' e h
  Step-places {s = s} (hands_out txn rest e) = places-hands_out s txn rest e
  Step-places {s = s} (begins before txn after e) = places-begins s before txn after e
  Step-places {uninit = uninit} {s = s} (reads before txn key keys after e) =
      places-reads uninit s before txn key keys after e
  Step-places {s = s} (runs before txn after p' e h) = places-runs s before txn after p' e h

-- Over any lock manager that keeps what it blocks, and whatever the interleaving of the scheduler and
-- the executors: the number of places in which a transaction is (requests, blocked or ready, in the
-- pool, executing, completed, results) never changes. So no transaction is lost or served twice.
pub Reach-places :
    {c : LockManagerClass} {blocked : LockManager → ℕ → ℕ} (keeps : Keeps c blocked) (i : ℕ)
    {clock uninit : ℕ → ℕ} {s s' : System}
    → Reach c clock uninit s s'
    → places blocked i s' ≡ places blocked i s
Reach-places keeps i here = refl
Reach-places keeps i (next r step) = Step-places keeps i step ∙ Reach-places keeps i r
