-- ===== src/Processor/Locking/Finishes.antt =====
-- The step of the locking scheduler that finishes a transaction keeps the invariant.
use cmsc_624_spring.Common.{
  ℕ, ◌+◌, ◌-◌, ◌<◌, ◌≡◌, refl, sym, ap, subst, ◌∙◌, fun_ext, Bool, true, false, some, List, [], ◌∷◌,
  ◌++◌, ok, ◌==◌, if◌then◌else◌, arith, times, times-append, times_one, All, has, find_nil, or_else,
  or_else-none, append-nil, append_assoc, Bool-cases, inl, inr,
}
use cmsc_624_spring.Atomic.Queue
use cmsc_624_spring.Atomic.Queue.{AtomicQueue}
use cmsc_624_spring.Txn.{Txn}
use cmsc_624_spring.Txn.Spec.{Db, decide, written, effect}
use cmsc_624_spring.Txn.Runs.{Ends}
use cmsc_624_spring.LockManager.{LockManager, LockManagerClass, Released}
use cmsc_624_spring.Processor.{Processor, finish}
use cmsc_624_spring.Processor.Finish.{Finished, finish_inv}
use cmsc_624_spring.Processor.Execute.{records}
use cmsc_624_spring.Processor.Serial.Round.{finished}
use cmsc_624_spring.Processor.Serial.Replay.{replay, Verdicts, commits}
use cmsc_624_spring.Processor.Locking.{System, release_all, finish_request}
use cmsc_624_spring.Processor.Locking.Places.{task_txns}
use cmsc_624_spring.Processor.Locking.Conservation.{times-pop}
use cmsc_624_spring.Processor.Locking.Local.{in_sets, SameFor, effect_outside}
use cmsc_624_spring.Processor.Locking.Contract.{Contract}
use cmsc_624_spring.Processor.Locking.Stages.{Reading, Voted, Reading-same, Voted-same}
use cmsc_624_spring.Processor.Locking.Ledger.{
  Start, IsFreshStart, ledger, Inv, replay-append, commits-append, Verdicts-append, Verdicts-kept,
  apart, times_self, All-kept,
}

-- Only the sets of the transaction matter to the loops that release.
release_all-same :
    (c : LockManagerClass) (txn : ℕ) (t u : Txn) (lm : LockManager) (ready : List ℕ)
    → t.readset ≡ u.readset
    → t.writeset ≡ u.writeset
    → release_all c txn t lm ready ≡ release_all c txn u lm ready
unfolding release_all
release_all-same c txn t u lm ready r w = rw (r, w) refl

not_same : (txn i : ℕ) → times i (txn ∷ []) ≡ 0 → (txn == i) ≡ false
not_same txn i h = ground (arith, times_one i txn)

log_step :
    (commits : Bool) (log done : List ℕ) (a : ℕ)
    → (if commits then (log ++ done) ++ a ∷ [] else log ++ done)
      ≡ log ++ (done ++ (if commits then a ∷ [] else []))
log_step true log done a = append_assoc log done (a ∷ [])
log_step false log done a = ap (λ l. log ++ l) (sym (append-nil done))

-- The vote as the end of a run over an empty write buffer.
pub Voted-Ends :
    (db : Db) (t t₀ : Txn)
    → Voted db t t₀
    → Ends (record t { writes = [] }) (decide t₀ db) (written t₀.logic t₀.writeset db) t
Voted-Ends db t t₀ v = record {
  status = v.status;
  writes = λ j.
      let value = written t₀.logic t₀.writeset db j in
      v.writes j ∙ sym (or_else-none value) ∙ ap (or_else value) (sym (find_nil {V = ℕ} j));
  sorted = v.sorted;
  logic = refl;
  readset = refl;
  writeset = refl;
  unique_id = refl;
}

module _ {c : LockManagerClass} {Holds : LockManager → (ℕ → ℕ) → (ℕ → ℕ) → Type 0} {b : Start}
    (contract : Contract c b.heap Holds) (start : IsFreshStart b) (clock : ℕ → ℕ) where
  -- The places of a completed transaction.
  completed_once :
      (s : System) (txn : ℕ) (rest : AtomicQueue ℕ)
      → Queue.pop s.processor.completed_txns ≡ (some txn, rest)
      → (inv : Inv Holds b s)
      → (inv.act txn ≡ 1)
        × (0 < times txn b.requests)
        × (times txn (task_txns s.begun) ≡ 0)
        × (times txn rest.items ≡ 0)
        × (times txn s.processor.txn_results.items ≡ 0)
  completed_once s txn rest e inv =
      let self = times_self txn in
      let front = times-pop txn txn s.processor.completed_txns rest e in
      let once = inv.once txn in
      let most = start.distinct txn in
      let active = inv.active txn in
      (
        omega (arith, self, front, once, most, active),
        omega (arith, self, front, once, most, active),
        omega (arith, self, front, once, most, active),
        omega (arith, self, front, once, most, active),
        omega (arith, self, front, once, most, active),
      )

  -- What the transaction writes, no other active transaction looks at.
  others_same :
      (s : System) (txn : ℕ)
      → (inv : Inv Holds b s) → inv.act txn ≡ 1
      → 0 < times txn b.requests
      → (i : ℕ) → times i (txn ∷ []) ≡ 0
      → 0 < inv.act i
      → SameFor (b.heap i) (ledger b s) (effect (b.heap txn) (ledger b s))
  others_same s txn inv one requested i other active j e = sym (
      effect_outside (b.heap txn) (ledger b s) j (start.fresh txn requested).sets
        (elim (Bool-cases (has j (b.heap txn).writeset)) [
          | inl writes ↦
              let clash : in_sets (b.heap i) j ≡ false =
                contract.compatible s.processor.lm inv.act inv.blk inv.locks txn i
                  (λ same.
                    let here : times txn (txn ∷ []) ≡ times i (txn ∷ []) =
                      ap (λ k. times k (txn ∷ [])) same in
                    omega (arith, here, times_self txn, other))
                  (omega (arith, one)) active j writes in
              absurd (ground (arith, clash))
          | inr clear ↦ clear
        ]))

  module _ (s : System) (txn : ℕ) (rest : AtomicQueue ℕ)
      (e : Queue.pop s.processor.completed_txns ≡ (some txn, rest)) (inv : Inv Holds b s)
      (q : Processor)
      (done : finish clock txn (record s.processor { completed_txns = rest }) ≡ ok q)
      (f : Finished
        (record s.processor { completed_txns = rest })
        txn
        (decide (b.heap txn) (ledger b s))
        (λ j.
          if decide (b.heap txn) (ledger b s)
          then or_else
              (written (b.heap txn).logic (b.heap txn).writeset (ledger b s) j)
              (records inv.store j)
          else records inv.store j)
        q) where
    abbrev after : Db
    after = effect (b.heap txn) (ledger b s)

    abbrev r : Released
    r = release_all c txn (q.heap txn) q.lm q.ready_txns

    abbrev s' : System
    s' = record s {
      processor = record q {
        lm = r.lm;
        ready_txns = r.ready_txns;
        txn_results = Queue.push q.txn_results txn;
      };
    }

    results' : (Queue.push q.txn_results txn).items ≡ s.processor.txn_results.items ++ txn ∷ []
    unfolding Queue.push
    results' = ap (λ l. l.items ++ txn ∷ []) f.results

    ledger' : ledger b s' ≡ after
    ledger' =
        ap (λ l. replay b.heap l b.db) results'
        ∙ replay-append b.heap s.processor.txn_results.items txn b.db

    same_queues :
        (q.txn_requests ≡ s.processor.txn_requests)
        × (q.ready_txns ≡ s.processor.ready_txns)
        × (q.completed_txns ≡ rest)
        × (q.txn_results ≡ s.processor.txn_results)
        × (q.lm ≡ s.processor.lm)
    same_queues = finish_inv clock txn (record s.processor { completed_txns = rest }) q done

    once :
        (inv.act txn ≡ 1)
        × (0 < times txn b.requests)
        × (times txn (task_txns s.begun) ≡ 0)
        × (times txn rest.items ≡ 0)
        × (times txn s.processor.txn_results.items ≡ 0)
    once = completed_once s txn rest e inv

    vote : Voted (ledger b s) (s.processor.heap txn) (b.heap txn)
    vote =
        inv.voted txn
          (omega (arith, times_self txn, times-pop txn txn s.processor.completed_txns rest e))

    -- The release is that of the contract.
    released : r ≡ release_all c txn (b.heap txn) s.processor.lm s.processor.ready_txns
    released =
        release_all-same c txn (q.heap txn) (b.heap txn) q.lm q.ready_txns (f.sets.0 ∙ vote.readset)
          (f.sets.1 ∙ vote.writeset)
        ∙ ap (λ lm. release_all c txn (b.heap txn) lm q.ready_txns) same_queues.4
        ∙ ap (release_all c txn (b.heap txn) s.processor.lm) same_queues.1

    -- The other objects, and those of them that are active.
    other_object : (i : ℕ) → times i (txn ∷ []) ≡ 0 → q.heap i ≡ s.processor.heap i
    other_object i other = f.others i (not_same txn i other)

    kept_for :
        (i : ℕ)
        → times i (txn ∷ []) ≡ 0
        → 0 < inv.act i
        → SameFor (b.heap i) (ledger b s) (ledger b s')
    kept_for i other active j h =
        others_same s txn inv once.0 once.1 i other active j h ∙ ap (λ d. d j) (sym ledger')

    reading' : All (λ u. Reading (ledger b s') (q.heap u.txn) (b.heap u.txn) u.keys) s.begun
    reading' =
        All-kept s.begun
          (λ u lt reads.
            let other = apart txn u.txn (task_txns s.begun) once.2 lt in
            subst (λ x. Reading (ledger b s') x (b.heap u.txn) u.keys)
              (sym (other_object u.txn other))
              (Reading-same (kept_for u.txn other (omega (arith, lt, inv.active u.txn))) reads))
          inv.reading

    voted' : (i : ℕ) → 0 < times i rest.items → Voted (ledger b s') (q.heap i) (b.heap i)
    voted' i lt =
        let other = apart txn i rest.items once.3 lt in
        let waiting = times-pop i txn s.processor.completed_txns rest e in
        let active = inv.active i in
        subst (λ x. Voted (ledger b s') x (b.heap i)) (sym (other_object i other))
          (Voted-same (start.fresh i (omega (arith, lt, waiting, active, inv.once i))).sets
            (kept_for i other (omega (arith, lt, waiting, active)))
            (inv.voted i (omega (arith, lt, waiting))))

    verdicts' : Verdicts b.heap q.heap (Queue.push q.txn_results txn).items b.db
    verdicts' =
        subst (λ l. Verdicts b.heap q.heap l b.db) (sym results')
          (Verdicts-append b.heap q.heap s.processor.txn_results.items txn b.db
            (Verdicts-kept b.heap s.processor.heap q.heap s.processor.txn_results.items b.db
              (λ i lt.
                ap (λ x. x.status)
                  (other_object i (apart txn i s.processor.txn_results.items once.4 lt)))
              inv.verdicts)
            f.status)

    log' :
        q.committed_txns.elements
        ≡ b.log ++ commits b.heap (Queue.push q.txn_results txn).items b.db
    log' =
        let done = commits b.heap s.processor.txn_results.items b.db in
        let vote = decide (b.heap txn) (ledger b s) in
        f.log
        ∙ ap (λ l. if vote then l ++ txn ∷ [] else l) inv.log
        ∙ log_step vote b.log done txn
        ∙ ap (λ l. b.log ++ l)
            (sym (commits-append b.heap s.processor.txn_results.items txn b.db)
              ∙ ap (λ l. commits b.heap l b.db) (sym results'))

    current' : records f.storage.0 ≡ ledger b s'
    current' =
        fun_ext f.storage.2
        ∙ ap
            (λ (d : Db). λ j.
              if decide (b.heap txn) (ledger b s)
              then or_else (written (b.heap txn).logic (b.heap txn).writeset (ledger b s) j) (d j)
              else d j)
            inv.current
        ∙ sym ledger'

    finishes_state : Inv Holds b s'
    finishes_state =
        let p = s.processor in
        let (woken, made_ready, were_blocked, held) =
          contract.released txn p.lm p.ready_txns inv.act inv.blk inv.locks once.0 in
        let ready' : r.ready_txns ≡ p.ready_txns ++ woken =
          ap (λ x. x.ready_txns) released ∙ made_ready in
        record {
          act = λ i. inv.act i + times i woken - times i (txn ∷ []);
          blk = λ i. inv.blk i - times i woken;
          locks =
              subst
                (λ lm.
                  Holds lm (λ i. inv.act i + times i woken - times i (txn ∷ []))
                    (λ i. inv.blk i - times i woken))
                (sym (ap (λ x. x.lm) released)) held;
          active = λ i. omega (
            arith,
            inv.active i,
            ap (times i) ready',
            times-append i p.ready_txns woken,
            ap (λ x. times i x.items) same_queues.2,
            times-pop i txn p.completed_txns rest e,
          );
          once = λ i. omega (
            arith,
            inv.once i,
            inv.active i,
            were_blocked i,
            ap (λ x. times i x.items) same_queues.0,
            ap (times i) results',
            times-append i p.txn_results.items (txn ∷ []),
            times-pop i txn p.completed_txns rest e,
          );
          store = f.storage.0;
          stored = f.storage.1;
          current = current';
          untouched = λ i none_yet.
              let places = ap (times i) results' in
              let push = times-append i p.txn_results.items (txn ∷ []) in
              let other : times i (txn ∷ []) ≡ 0 = omega (arith, places, push, none_yet) in
              other_object i other
              ∙ inv.untouched i (
                  omega (
                    arith,
                    places,
                    push,
                    none_yet,
                    other,
                    ap (λ x. times i x.items) same_queues.2,
                    times-pop i txn p.completed_txns rest e,
                  ));
          reading = reading';
          voted = λ i lt. voted' i (omega (arith, lt, ap (λ x. times i x.items) same_queues.2));
          verdicts = verdicts';
          log = log';
        }

  pub finishes-Inv :
      (s : System) (txn : ℕ) (rest : AtomicQueue ℕ) (p' : Processor)
      → Queue.pop s.processor.completed_txns ≡ (some txn, rest)
      → finish_request c clock txn rest s.processor ≡ ok p'
      → Inv Holds b s
      → Inv Holds b (record s { processor = p' })
  unfolding finish_request
  finishes-Inv s txn rest p' e h inv =
      let p = record s.processor { completed_txns = rest } in
      let vote =
        inv.voted txn
          (omega (arith, times_self txn, times-pop txn txn s.processor.completed_txns rest e)) in
      let (q, done, f) =
        finished clock txn p inv.store (decide (b.heap txn) (ledger b s))
          (written (b.heap txn).logic (b.heap txn).writeset (ledger b s))
          (record (p.heap txn) { writes = [] }) (p.heap txn) inv.stored refl refl
          (Voted-Ends (ledger b s) (p.heap txn) (b.heap txn) vote) in
      let left : (s' s txn rest e inv q done f).processor ≡ p' = ground arith in
      subst (λ x. Inv Holds b (record s { processor = x })) left
        (finishes_state s txn rest e inv q done f)
