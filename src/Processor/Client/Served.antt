-- ===== src/Processor/Client/Served.antt =====
-- A client's view: transactions in, results out.
use cmsc_624_spring.Common.{
  ℕ, ◌≤◌, ◌≡◌, refl, ap, subst, ◌∙◌, fun_ext, Bool, true, false, none, some, List, [], ◌∷◌, ◌++◌,
  if◌then◌else◌, ltb, length, ok,
}
use cmsc_624_spring.Atomic.Queue
use cmsc_624_spring.Atomic.Queue.{AtomicQueue}
use cmsc_624_spring.Txn.{Txn}
use cmsc_624_spring.Txn.Spec.{Db}
use cmsc_624_spring.Storage
use cmsc_624_spring.Storage.{Store, single}
use cmsc_624_spring.Storage.Single
use cmsc_624_spring.Storage.Single.{Storage, record_count, find-init_storage}
use cmsc_624_spring.Processor.{
  Processor, CcMode, serial, locking_exclusive_only, locking, occ, p_occ, mvcc, mvcc_ssi,
  new_processor, get_txn_result,
}
use cmsc_624_spring.Processor.Execute.{records}
use cmsc_624_spring.Processor.Serial.{serial_rounds}
use cmsc_624_spring.Processor.Serial.Replay.{
  replay, Verdicts, commits, AreFresh, Replayed, serial_rounds_lem,
}
use cmsc_624_spring.Processor.Client.{
  run_scheduler, run_occ_scheduler, run_occ_parallel_scheduler, submit_all, collect,
}
use cmsc_624_spring.Processor.Client.Submit.{
  AreNumbered, submit_all-Submitted, submit_all-AreNumbered, replay-Renumbered, commits-Renumbered,
  Verdicts-Renumbered, AreFresh-Renumbered, AreFresh-distinct,
}

-- The modes whose scheduler is the serial one, over the single-version storage.
abbrev pub is_serial : CcMode → Bool
is_serial serial = true
is_serial occ = true
is_serial p_occ = true
is_serial _ = false

-- The database that a new processor has.
abbrev pub initial : Db
initial j = if ltb j record_count then some 0 else none

pub record Serves (heap : ℕ → Txn) (reqs : List ℕ) (p' : Processor) : Type 0 where
  pub results : collect (length reqs) p' ≡ reqs
  pub verdicts : Verdicts heap p'.heap reqs initial
  pub storage : (s' : Storage) × (p'.storage ≡ single s') × (records s' ≡ replay heap reqs initial)
  pub log : p'.committed_txns.elements ≡ commits heap reqs initial

take_front_result :
    (p : Processor) (a : ℕ) (rest : List ℕ)
    → p.txn_results.items ≡ a ∷ rest
    → get_txn_result p ≡ (some a, record p { txn_results = record { items = rest } })
unfolding get_txn_result
take_front_result p a rest e = rw (Queue.pop_front p.txn_results a rest e) refl

collect_lem :
    (items : List ℕ) (p : Processor)
    → p.txn_results.items ≡ items
    → collect (length items) p ≡ items
unfolding collect
collect_lem [] p e = refl
collect_lem (a ∷ rest) p e =
    rw (collect, take_front_result p a rest e)
      (ap (λ l. a ∷ l) (collect_lem rest (record p { txn_results = record { items = rest } }) refl))

new-storage :
    (clock : ℕ → ℕ) (mode : CcMode) (heap : ℕ → Txn)
    → is_serial mode ≡ true
    → (new_processor clock mode heap).storage ≡ single (Single.init_storage clock Single.empty)
unfolding new_processor Storage.init_storage
new-storage clock serial heap h = refl
new-storage clock occ heap h = refl
new-storage clock p_occ heap h = refl
new-storage clock locking_exclusive_only heap h = absurd cc
new-storage clock locking heap h = absurd cc
new-storage clock mvcc heap h = absurd cc
new-storage clock mvcc_ssi heap h = absurd cc

run-rounds :
    (clock uninit : ℕ → ℕ) (n : ℕ) (p : Processor) (mode : CcMode)
    → p.mode ≡ mode
    → is_serial mode ≡ true
    → run_scheduler clock uninit n p ≡ some (serial_rounds clock uninit n p)
unfolding run_scheduler run_occ_scheduler run_occ_parallel_scheduler
run-rounds clock uninit n p serial e h = rw e refl
run-rounds clock uninit n p occ e h = rw e refl
run-rounds clock uninit n p p_occ e h = rw e refl
run-rounds clock uninit n p locking_exclusive_only e h = absurd cc
run-rounds clock uninit n p locking e h = absurd cc
run-rounds clock uninit n p mvcc e h = absurd cc
run-rounds clock uninit n p mvcc_ssi e h = absurd cc

new-records : (clock : ℕ → ℕ) → records (Single.init_storage clock Single.empty) ≡ initial
new-records clock = fun_ext λ j. find-init_storage clock j

-- What the rounds leave, told of the transactions as the client made them.
Serves-Replayed :
    (clock : ℕ → ℕ) (mode : CcMode) (heap : ℕ → Txn) (reqs : List ℕ) (p' : Processor)
    → let p = submit_all reqs (new_processor clock mode heap) in
      Replayed p reqs (records (Single.init_storage clock Single.empty)) p' → Serves heap reqs p'
unfolding new_processor
Serves-Replayed clock mode heap reqs p' r =
    let made = new_processor clock mode heap in
    let s = submit_all-Submitted reqs made in
    let p = submit_all reqs made in
    let first = records (Single.init_storage clock Single.empty) in
    record {
      results = collect_lem reqs p' (r.results ∙ ap (λ q. q.items ++ reqs) s.results);
      verdicts =
          Verdicts-Renumbered heap p.heap s.same p'.heap reqs initial
            (subst (Verdicts p.heap p'.heap reqs) (new-records clock) r.verdicts);
      storage = (
        r.storage.0,
        r.storage.1,
        r.storage.2
            ∙ ap (replay p.heap reqs) (new-records clock)
            ∙ replay-Renumbered heap p.heap s.same reqs initial,
      );
      log =
          r.log
          ∙ ap (λ l. l.elements ++ commits p.heap reqs first) s.log
          ∙ ap (commits p.heap reqs) (new-records clock)
          ∙ commits-Renumbered heap p.heap s.same reqs initial;
    }

-- End to end, in the modes SERIAL, OCC and P_OCC. A client makes a processor, submits distinct fresh
-- transactions, and lets the scheduler run for at least as many rounds as there are transactions. Then
-- nothing dies; the transactions are numbered from 1 on as they were submitted; as many calls of
-- GetTxnResult return the transactions in the order of submission, each with the status that the
-- transactions before it decide; and the database and the commit log are those of the transactions
-- applied one after another to keys 0 to 999999 with the value 0.
pub serve_client :
    (clock uninit : ℕ → ℕ) (n : ℕ) (mode : CcMode) (heap : ℕ → Txn) (reqs : List ℕ)
    → is_serial mode ≡ true
    → length reqs ≤ n
    → AreFresh heap reqs
    → let p = submit_all reqs (new_processor clock mode heap) in
      AreNumbered p.heap reqs 1
      × (p' : Processor) × (run_scheduler clock uninit n p ≡ some (ok p'))
      × Serves heap reqs p'
unfolding new_processor
serve_client clock uninit n mode heap reqs sm le fresh =
    let made = new_processor clock mode heap in
    let s = submit_all-Submitted reqs made in
    let p = submit_all reqs made in
    let (p', done, r) =
      serial_rounds_lem clock uninit n reqs p (Single.init_storage clock Single.empty) le s.items
        (s.storage ∙ new-storage clock mode heap sm)
        (AreFresh-Renumbered heap p.heap s.same reqs fresh) in
    (
      submit_all-AreNumbered reqs made (AreFresh-distinct heap reqs fresh),
      p',
      run-rounds clock uninit n p mode s.mode sm ∙ ap some done,
      Serves-Replayed clock mode heap reqs p' r,
    )
