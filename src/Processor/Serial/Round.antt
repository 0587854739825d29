-- ===== src/Processor/Serial/Round.antt =====
-- One round of the serial scheduler does to the database what the specification of the transaction
-- at the front of the request queue says.
use cmsc_624_spring.Common.{
  ℕ, ◌≡◌, refl, sym, ap, subst, ◌∙◌, fun_ext, Bool, true, false, some, List, [], ◌∷◌, ◌++◌, ok,
  ◌==◌, if◌then◌else◌, find, or_else, or_else-none, find_nil, IsSorted,
}
use cmsc_624_spring.Txn.{Txn}
use cmsc_624_spring.Txn.Spec.{Db, decide, effect, verdict, written, IsFresh}
use cmsc_624_spring.Txn.Runs.{Ends}
use cmsc_624_spring.Storage.{single}
use cmsc_624_spring.Storage.Single.{Storage}
use cmsc_624_spring.Processor.{Processor, update, loaded, finish}
use cmsc_624_spring.Processor.Execute.{records, execute_txn_lem}
use cmsc_624_spring.Processor.Finish.{
  Finished, finish_commit, finish_abort, update_self, update_other,
}
use cmsc_624_spring.Processor.Serial.{serve, serial_round}
use cmsc_624_spring.Atomic.Queue
use cmsc_624_spring.Atomic.Queue.{AtomicQueue}

-- What serving `txn` leaves, `rest` being the requests behind it.
pub record Served (p : Processor) (txn : ℕ) (rest : List ℕ) (db : Db) (p' : Processor)
    : Type 0 where
  pub storage : (s' : Storage) × (p'.storage ≡ single s') × (records s' ≡ effect (p.heap txn) db)
  pub status : (p'.heap txn).status ≡ verdict (p.heap txn) db
  pub others : (b : ℕ) → (txn == b) ≡ false → p'.heap b ≡ p.heap b
  pub log : p'.committed_txns.elements ≡ (
      if decide (p.heap txn) db
      then p.committed_txns.elements ++ txn ∷ []
      else p.committed_txns.elements)
  pub requests : p'.txn_requests.items ≡ rest
  pub results : p'.txn_results.items ≡ p.txn_results.items ++ txn ∷ []
  pub completed : p'.completed_txns.items ≡ p.completed_txns.items ++ txn ∷ []

-- The state between ExecuteTxn and the commit-or-abort lines.
abbrev executed : Processor → ℕ → List ℕ → Txn → Processor
executed p txn rest t = record p {
  txn_requests = record { items = rest };
  heap = update p.heap txn t;
  completed_txns = Queue.push p.completed_txns txn;
}

pub finished :
    (clock : ℕ → ℕ) (txn : ℕ) (p : Processor) (s : Storage) (commits : Bool) (values : Db)
    (t t' : Txn)
    → p.storage ≡ single s
    → p.heap txn ≡ t'
    → t.writes ≡ []
    → Ends t commits values t'
    → (p' : Processor) × (finish clock txn p ≡ ok p')
      × Finished p txn commits
          (λ j. if commits then or_else (values j) (records s j) else records s j)
          p'
finished clock txn p s true values t t' e here empty ends =
    let (p', done, f) =
      finish_commit clock txn p s e (ap (λ x. x.status) here ∙ ends.status)
        (subst (λ x. IsSorted x.writes) (sym here) ends.sorted) in
    (
      p',
      done,
      record {
        storage = (
          f.storage.0,
          f.storage.1,
          λ j.
              f.storage.2 j
              ∙ ap (λ o. or_else o (records s j))
                  (ap (λ x. find j x.writes) here
                    ∙ ends.writes j
                    ∙ ap (λ w. or_else (values j) (find j w)) empty
                    ∙ ap (or_else (values j)) (find_nil {V = ℕ} j)
                    ∙ or_else-none (values j)),
        );
        status = f.status;
        sets = f.sets;
        others = f.others;
        log = f.log;
        requests = f.requests;
        results = f.results;
        completed = f.completed;
      },
    )
finished clock txn p s false values t t' e here empty ends =
    finish_abort clock txn p s e (ap (λ x. x.status) here ∙ ends.status)

serve_lem :
    (clock uninit : ℕ → ℕ) (txn : ℕ) (rest : List ℕ) (p : Processor) (s : Storage)
    → p.storage ≡ single s
    → IsFresh (p.heap txn)
    → (p' : Processor) × (serve clock uninit (some txn, record { items = rest }) p ≡ ok p')
      × Served p txn rest (records s) p'
unfolding serve Queue.push
serve_lem clock uninit txn rest p s e fresh =
    let q = record p { txn_requests = record { items = rest } } in
    let (t', ran, ends) = execute_txn_lem uninit txn q s e fresh in
    let (p', done, f) =
      finished clock txn (executed p txn rest t') s (decide (p.heap txn) (records s))
        (written (p.heap txn).logic (p.heap txn).writeset (records s))
        (loaded uninit q (p.heap txn)) t' e (update_self p.heap txn t') fresh.writes ends in
    (
      record p' { txn_results = Queue.push p'.txn_results txn },
      rw (ran, done) refl,
      record {
        storage = (f.storage.0, f.storage.1, fun_ext f.storage.2);
        status = f.status;
        others = λ b h. f.others b h ∙ update_other p.heap txn b t' h;
        log = f.log;
        requests = ap (λ r. r.items) f.requests;
        results = ap (λ r. r.items ++ txn ∷ []) f.results;
        completed = ap (λ r. r.items) f.completed;
      },
    )

-- A round with a fresh transaction at the front of the requests, over the single-version storage.
pub serial_round_lem :
    (clock uninit : ℕ → ℕ) (txn : ℕ) (rest : List ℕ) (p : Processor) (s : Storage)
    → p.txn_requests.items ≡ txn ∷ rest
    → p.storage ≡ single s
    → IsFresh (p.heap txn)
    → (p' : Processor) × (serial_round clock uninit p ≡ ok p') × Served p txn rest (records s) p'
unfolding serial_round
serial_round_lem clock uninit txn rest p s items e fresh =
    let (p', done, served) = serve_lem clock uninit txn rest p s e fresh in
    (
      p',
      ap (λ r. serve clock uninit r p) (Queue.pop_front p.txn_requests txn rest items) ∙ done,
      served,
    )

-- With no request a round changes nothing.
pub serial_round_idle :
    (clock uninit : ℕ → ℕ) (p : Processor)
    → p.txn_requests.items ≡ []
    → serial_round clock uninit p ≡ ok p
unfolding serial_round serve
serial_round_idle clock uninit p items =
    ap (λ r. serve clock uninit r p) (Queue.pop_empty p.txn_requests items)
