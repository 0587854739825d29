-- ===== src/Processor/Locking/Steps.antt =====
-- The steps of the locking scheduler that serve requests and execute transactions keep the invariant.
use cmsc_624_spring.Common.{
  ℕ, ◌+◌, ◌<◌, ◌≡◌, sym, ap, subst, ◌∙◌, Bool, true, false, some, List, [], ◌∷◌, ◌++◌, ok,
  if◌then◌else◌, arith, times, times-append, times_cons, All, update,
}
use native.Mathlib.Decide.{dec_lt}
use cmsc_624_spring.Atomic.Queue
use cmsc_624_spring.Atomic.Queue.{AtomicQueue}
use cmsc_624_spring.Atomic.Vector
use cmsc_624_spring.Txn.{Txn}
use cmsc_624_spring.LockManager.{LockManager, LockManagerClass}
use cmsc_624_spring.Processor.{Processor, keep_found}
use cmsc_624_spring.Processor.Finish.{update_self}
use cmsc_624_spring.Processor.Serial.Replay.{Verdicts}
use cmsc_624_spring.Storage
use cmsc_624_spring.Storage.Single
use cmsc_624_spring.Processor.Locking.{
  Task, System, request_locks, start_request, hand_out, begin, read_one, run_task,
}
use cmsc_624_spring.Processor.Locking.Places.{task_txns, times-middle, times-task_txns}
use cmsc_624_spring.Processor.Locking.Conservation.{times-push, times-pop, times-if}
use cmsc_624_spring.Processor.Locking.Contract.{Contract}
use cmsc_624_spring.Processor.Locking.Stages.{
  Reading, Voted, Reading-begin, Reading-read, Reading-run,
}
use cmsc_624_spring.Processor.Locking.Ledger.{
  Start, IsFreshStart, ledger, Inv, Verdicts-kept, apart, update_apart, same_txn, times_self,
  All-kept, All-split, All-join, All-put,
}

one_of : (b : Bool) (n : ℕ) → (if b then n else 0) + (if b then 0 else n) ≡ n
one_of true n = omega arith
one_of false n = omega arith

module _ {c : LockManagerClass} {Holds : LockManager → (ℕ → ℕ) → (ℕ → ℕ) → Type 0} {b : Start}
    (contract : Contract c b.heap Holds) (start : IsFreshStart b) where
  pub requests-Inv :
      (s : System) (txn : ℕ) (rest : AtomicQueue ℕ)
      → Queue.pop s.processor.txn_requests ≡ (some txn, rest)
      → Inv Holds b s
      → Inv Holds b (record s { processor = start_request c txn rest s.processor })
  unfolding start_request
  requests-Inv s txn rest e inv =
      let p = s.processor in
      let g = request_locks c txn (p.heap txn) p.lm p.ready_txns in
      let self = times_self txn in
      let front = times-pop txn txn p.txn_requests rest e in
      let once = inv.once txn in
      let most = start.distinct txn in
      let same : p.heap txn ≡ b.heap txn =
        inv.untouched txn (omega (arith, self, front, once, most, inv.active txn)) in
      let (left, held) =
        subst
          (λ t.
            let g = request_locks c txn t p.lm p.ready_txns in
            (g.ready_txns ≡ p.ready_txns)
            × Holds g.lm (λ i. inv.act i + (if g.granted then times i (txn ∷ []) else 0))
                (λ i. inv.blk i + (if g.granted then 0 else times i (txn ∷ []))))
          (sym same)
          (contract.requested txn p.lm p.ready_txns inv.act inv.blk inv.locks
            (omega (arith, self, front, once, most)) (omega (arith, self, front, once, most))) in
      record {
        act = λ i. inv.act i + (if g.granted then times i (txn ∷ []) else 0);
        blk = λ i. inv.blk i + (if g.granted then 0 else times i (txn ∷ []));
        locks = held;
        active = λ i.
            omega (arith, inv.active i, times-if i txn g.granted g.ready_txns, ap (times i) left);
        once = λ i. omega (
          arith,
          inv.once i,
          times-pop i txn p.txn_requests rest e,
          one_of g.granted (times i (txn ∷ [])),
        );
        store = inv.store;
        stored = inv.stored;
        current = inv.current;
        untouched = inv.untouched;
        reading = inv.reading;
        voted = inv.voted;
        verdicts = inv.verdicts;
        log = inv.log;
      }

  pub hands_out-Inv :
      (s : System) (txn : ℕ) (rest : List ℕ)
      → s.processor.ready_txns ≡ txn ∷ rest
      → Inv Holds b s
      → Inv Holds b (hand_out txn rest s)
  unfolding hand_out
  hands_out-Inv s txn rest e inv = record {
    act = inv.act;
    blk = inv.blk;
    locks = inv.locks;
    active = λ i. omega (
      arith,
      inv.active i,
      ap (times i) e,
      times_cons i txn rest,
      times-append i s.queued (txn ∷ []),
    );
    once = inv.once;
    store = inv.store;
    stored = inv.stored;
    current = inv.current;
    untouched = inv.untouched;
    reading = inv.reading;
    voted = inv.voted;
    verdicts = inv.verdicts;
    log = inv.log;
  }

  -- An object changes that is in none of the lists.
  module _ (s : System) (inv : Inv Holds b s) (txn : ℕ) (t : Txn) where
    abbrev changed : ℕ → Txn
    changed = update s.processor.heap txn t

    changed-Verdicts :
        times txn s.processor.txn_results.items ≡ 0
        → Verdicts b.heap changed s.processor.txn_results.items b.db
    changed-Verdicts out =
        Verdicts-kept b.heap s.processor.heap changed s.processor.txn_results.items b.db
          (λ i lt.
            ap (λ x. x.status)
              (update_apart s.processor.heap txn i t
                (apart txn i s.processor.txn_results.items out lt)))
          inv.verdicts

    changed-Voted :
        times txn s.processor.completed_txns.items ≡ 0
        → (i : ℕ) → 0 < times i s.processor.completed_txns.items
        → Voted (ledger b s) (changed i) (b.heap i)
    changed-Voted out i lt =
        subst (λ x. Voted (ledger b s) x (b.heap i))
          (sym (
            update_apart s.processor.heap txn i t
              (apart txn i s.processor.completed_txns.items out lt)))
          (inv.voted i lt)

    changed-Reading :
        (ts : List Task)
        → times txn (task_txns ts) ≡ 0
        → All (λ u. Reading (ledger b s) (s.processor.heap u.txn) (b.heap u.txn) u.keys) ts
        → All (λ u. Reading (ledger b s) (changed u.txn) (b.heap u.txn) u.keys) ts
    changed-Reading ts out a =
        All-kept ts
          (λ u lt r.
            subst (λ x. Reading (ledger b s) x (b.heap u.txn) u.keys)
              (sym
                (update_apart s.processor.heap txn u.txn t (apart txn u.txn (task_txns ts) out lt)))
              r)
          a

  pub begins-Inv :
      (s : System) (before : List ℕ) (txn : ℕ) (after : List ℕ)
      → s.queued ≡ before ++ txn ∷ after
      → Inv Holds b s
      → Inv Holds b (begin txn (before ++ after) s)
  unfolding begin
  begins-Inv s before txn after e inv =
      let p = s.processor in
      let self = times_self txn in
      let here : times txn s.queued ≡ times txn (before ++ after) + times txn (txn ∷ []) =
        ap (times txn) e ∙ times-middle txn txn before after in
      let once = inv.once txn in
      let most = start.distinct txn in
      let active = inv.active txn in
      let same : p.heap txn ≡ b.heap txn =
        inv.untouched txn (omega (arith, self, here, once, most, active)) in
      let t = record (p.heap txn) { occ_start_idx = Vector.size p.committed_txns } in
      record {
        act = inv.act;
        blk = inv.blk;
        locks = inv.locks;
        active = λ i. omega (
          arith,
          inv.active i,
          ap (times i) e,
          times-middle i txn before after,
          times_cons i txn (task_txns s.begun),
        );
        once = inv.once;
        store = inv.store;
        stored = inv.stored;
        current = inv.current;
        untouched = λ i none_yet.
            let cons = times_cons i txn (task_txns s.begun) in
            update_apart p.heap txn i t (omega (arith, cons, none_yet))
            ∙ inv.untouched i (omega (arith, cons, none_yet));
        reading = (
          subst
              (λ x.
                Reading (ledger b s) x (b.heap txn) ((p.heap txn).readset ++ (p.heap txn).writeset))
              (sym (update_self p.heap txn t))
              (subst
                (λ x.
                  Reading (ledger b s) (record x { occ_start_idx = Vector.size p.committed_txns })
                    (b.heap txn) (x.readset ++ x.writeset))
                (sym same)
                (Reading-begin (ledger b s) (b.heap txn) (Vector.size p.committed_txns)
                  (start.fresh txn (omega (arith, self, here, once, most, active))))),
          changed-Reading s inv txn t s.begun (omega (arith, self, here, once, most, active))
              inv.reading,
        );
        voted = changed-Voted s inv txn t (omega (arith, self, here, once, most, active));
        verdicts = changed-Verdicts s inv txn t (omega (arith, self, here, once, most, active));
        log = inv.log;
      }

  abbrev pub Reads : System → (ℕ → Txn) → Task → Type 0
  Reads s heap u = Reading (ledger b s) (heap u.txn) (b.heap u.txn) u.keys

  -- A task that an executor has begun, and the others.
  pub begun_at :
      (s : System) (before : List Task) (u : Task) (after : List Task)
      → s.begun ≡ before ++ u ∷ after
      → Inv Holds b s
      → Reads s s.processor.heap u × All (Reads s s.processor.heap) (before ++ after)
  begun_at s before u after e inv =
      let P = Reads s s.processor.heap in
      let (l, r) = All-split P before (u ∷ after) (subst (All P) e inv.reading) in
      (r.0, All-join P before after l r.1)

  -- Its transaction was requested, and stands in no other list.
  pub begun_once :
      (s : System) (before : List Task) (u : Task) (after : List Task)
      → s.begun ≡ before ++ u ∷ after
      → Inv Holds b s
      → (times u.txn (task_txns (before ++ after)) ≡ 0)
        × (0 < times u.txn b.requests)
        × (times u.txn s.processor.completed_txns.items ≡ 0)
        × (times u.txn s.processor.txn_results.items ≡ 0)
  begun_once s before u after e inv =
      let self = times_self u.txn in
      let here : times u.txn (task_txns s.begun)
          ≡ times u.txn (task_txns (before ++ after)) + times u.txn (u.txn ∷ []) =
        ap (times u.txn) (ap task_txns e) ∙ times-task_txns u.txn before u after in
      let once = inv.once u.txn in
      let most = start.distinct u.txn in
      let active = inv.active u.txn in
      (
        omega (arith, self, here, once, most, active),
        omega (arith, self, here, once, most, active),
        omega (arith, self, here, once, most, active),
        omega (arith, self, here, once, most, active),
      )

  pub reads-Inv :
      (uninit : ℕ → ℕ) (s : System) (before : List Task) (txn key : ℕ) (keys : List ℕ)
      (after : List Task)
      → s.begun ≡ before ++ record { txn = txn; keys = key ∷ keys } ∷ after
      → Inv Holds b s
      → Inv Holds b (record s {
        processor = read_one uninit txn key s.processor;
        begun = before ++ record { txn = txn; keys = keys } ∷ after;
      })
  unfolding read_one Storage.read Single.read
  reads-Inv uninit s before txn key keys after e inv =
      let p = s.processor in
      let old : Task = record { txn = txn; keys = key ∷ keys } in
      let new : Task = record { txn = txn; keys = keys } in
      let all = begun_at s before old after e inv in
      let (others, ready, completed, results) = begun_once s before old after e inv in
      let found : Storage.read p.storage key (uninit key) 0
          ≡ Single.found (ledger b s key) (uninit key) =
        ap (λ st. Storage.read st key (uninit key) 0) inv.stored
        ∙ ap (λ d. Single.found (d key) (uninit key)) inv.current in
      let t = record (p.heap txn) {
        reads = keep_found (Storage.read p.storage key (uninit key) 0) key (p.heap txn).reads;
      } in
      let count = λ (i : ℕ).
        ap (times i) (ap task_txns e)
        ∙ times-task_txns i before old after
        ∙ sym (times-task_txns i before new after) in
      record {
        act = inv.act;
        blk = inv.blk;
        locks = inv.locks;
        active = λ i. omega (arith, inv.active i, count i);
        once = inv.once;
        store = inv.store;
        stored = inv.stored;
        current = inv.current;
        untouched = λ i none_yet.
            let place = times-task_txns i before new after in
            update_apart p.heap txn i t (omega (arith, place, none_yet))
            ∙ inv.untouched i (omega (arith, count i, none_yet));
        reading =
            All-put (Reads s (changed s inv txn t)) before new after
              (subst (λ x. Reading (ledger b s) x (b.heap txn) keys)
                (sym (update_self p.heap txn t))
                (subst
                  (λ r.
                    Reading (ledger b s)
                      (record (p.heap txn) { reads = keep_found r key (p.heap txn).reads })
                      (b.heap txn) keys)
                  (sym found)
                  (Reading-read (ledger b s) (p.heap txn) (b.heap txn) key keys (uninit key)
                    all.0)))
              (changed-Reading s inv txn t (before ++ after) others all.1);
        voted = changed-Voted s inv txn t completed;
        verdicts = changed-Verdicts s inv txn t results;
        log = inv.log;
      }

  pub runs-Inv :
      (s : System) (before : List Task) (txn : ℕ) (after : List Task) (p' : Processor)
      → s.begun ≡ before ++ record { txn = txn; keys = [] } ∷ after
      → run_task txn s.processor ≡ ok p'
      → Inv Holds b s
      → Inv Holds b (record s { processor = p'; begun = before ++ after })
  unfolding run_task
  runs-Inv s before txn after p' e ran inv =
      let p = s.processor in
      let old : Task = record { txn = txn; keys = [] } in
      let all = begun_at s before old after e inv in
      let (others, ready, completed, results) = begun_once s before old after e inv in
      let (t, votes, voted) =
        Reading-run (ledger b s) (p.heap txn) (b.heap txn) (start.fresh txn ready).sets all.0 in
      let left : record p {
        heap = update p.heap txn t;
        completed_txns = Queue.push p.completed_txns txn;
      }
          ≡ p' =
        ground arith in
      subst (λ q. Inv Holds b (record s { processor = q; begun = before ++ after })) left
        (record {
          act = inv.act;
          blk = inv.blk;
          locks = inv.locks;
          active = λ i. omega (
            arith,
            inv.active i,
            ap (times i) (ap task_txns e),
            times-task_txns i before old after,
            times-push i txn p.completed_txns,
          );
          once = inv.once;
          store = inv.store;
          stored = inv.stored;
          current = inv.current;
          untouched = λ i none_yet.
              let push = times-push i txn p.completed_txns in
              update_apart p.heap txn i t (omega (arith, push, none_yet))
              ∙ inv.untouched i (
                  omega (
                    arith,
                    push,
                    none_yet,
                    ap (times i) (ap task_txns e),
                    times-task_txns i before old after,
                  ));
          reading = changed-Reading s inv txn t (before ++ after) others all.1;
          voted = λ i lt. elim (dec_lt 0 (times i (txn ∷ []))) [
            | yes this ↦
                subst (λ k. Voted (ledger b s) (update p.heap txn t k) (b.heap k))
                  (same_txn txn i this)
                  (subst (λ x. Voted (ledger b s) x (b.heap txn)) (sym (update_self p.heap txn t))
                    voted)
            | no other ↦
                subst (λ x. Voted (ledger b s) x (b.heap i))
                  (sym (update_apart p.heap txn i t (omega arith)))
                  (inv.voted i (omega (arith, times-push i txn p.completed_txns)))
          ];
          verdicts = changed-Verdicts s inv txn t results;
          log = inv.log;
        })
