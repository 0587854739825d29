-- ===== src/Processor/Locking/Ledger.antt =====
-- The database, the verdicts and the commit log that go with the transactions handed to the client so
-- far, and what holds of a state of the locking scheduler.
use cmsc_624_spring.Common.{
  ℕ, ◌+◌, ◌<◌, ◌≤◌, ◌≡◌, refl, ap, ◌∙◌, List, [], ◌∷◌, ◌++◌, if◌then◌else◌, arith, times,
  times_cons, times_one, All, update, Bool-cases, inl, inr,
}
use native.Mathlib.Decide.{dec_lt}
use cmsc_624_spring.Txn.{Txn}
use cmsc_624_spring.Txn.Spec.{Db, decide, effect, verdict, IsFresh}
use cmsc_624_spring.LockManager.{LockManager}
use cmsc_624_spring.Storage.{single}
use cmsc_624_spring.Storage.Single.{Storage}
use cmsc_624_spring.Processor.Execute.{records}
use cmsc_624_spring.Processor.Serial.Replay.{replay, Verdicts, commits}
use cmsc_624_spring.Processor.Locking.{Task, System}
use cmsc_624_spring.Processor.Locking.Places.{task_txns}
use cmsc_624_spring.Processor.Locking.Stages.{Reading, Voted}

-- One more transaction.
pub replay-append :
    (heap : ℕ → Txn) (done : List ℕ) (a : ℕ) (db : Db)
    → replay heap (done ++ a ∷ []) db ≡ effect (heap a) (replay heap done db)
replay-append heap [] a db = refl
replay-append heap (x ∷ done) a db = replay-append heap done a (effect (heap x) db)

pub commits-append :
    (heap : ℕ → Txn) (done : List ℕ) (a : ℕ) (db : Db)
    → commits heap (done ++ a ∷ []) db
      ≡ commits heap done db ++ (if decide (heap a) (replay heap done db) then a ∷ [] else [])
commits-append heap [] a db = refl
commits-append heap (x ∷ done) a db = elim (Bool-cases (decide (heap x) db)) [
  | inl commits_x ↦ rw commits_x (ap (λ l. x ∷ l) (commits-append heap done a (effect (heap x) db)))
  | inr aborts_x ↦ rw aborts_x (commits-append heap done a (effect (heap x) db))
]

pub Verdicts-append :
    (heap now : ℕ → Txn) (done : List ℕ) (a : ℕ) (db : Db)
    → Verdicts heap now done db
    → (now a).status ≡ verdict (heap a) (replay heap done db)
    → Verdicts heap now (done ++ a ∷ []) db
Verdicts-append heap now [] a db v h = (h, tt)
Verdicts-append heap now (x ∷ done) a db v h =
    (v.0, Verdicts-append heap now done a (effect (heap x) db) v.1 h)

-- The verdicts stand while the objects keep their status.
pub Verdicts-kept :
    (heap now later : ℕ → Txn) (done : List ℕ) (db : Db)
    → ((i : ℕ) → 0 < times i done → (later i).status ≡ (now i).status)
    → Verdicts heap now done db
    → Verdicts heap later done db
unfolding times
Verdicts-kept heap now later [] db same v = tt
Verdicts-kept heap now later (x ∷ done) db same v = (
  same x (ground arith) ∙ v.0,
  Verdicts-kept heap now later done (effect (heap x) db) (λ i h. same i (omega arith)) v.1,
)

-- Objects at other addresses are not touched by an update.
pub update_apart {ℓ} :
    {A : Type ℓ} (f : ℕ → A) (a b : ℕ) (x : A) → times b (a ∷ []) ≡ 0 → update f a x b ≡ f b
update_apart f a b x h = ground (arith, times_one b a)

pub same_txn : (a b : ℕ) → 0 < times b (a ∷ []) → a ≡ b
same_txn a b h = ground (arith, times_one b a)

pub times_self : (a : ℕ) → times a (a ∷ []) ≡ 1
times_self a = ground (arith, times_one a a)

-- A transaction that stands in a list is not one that does not.
pub apart : (txn i : ℕ) (l : List ℕ) → times txn l ≡ 0 → 0 < times i l → times i (txn ∷ []) ≡ 0
apart txn i l out lt = elim (dec_lt 0 (times i (txn ∷ []))) [
  | yes same ↦
      let e : times txn l ≡ times i l = ap (λ k. times k l) (same_txn txn i same) in
      absurd (omega (arith, e))
  | no other ↦ omega arith
]

-- Properties of the tasks that executors have begun.
pub All-kept :
    {P Q : Task → Type 0} (ts : List Task)
    → ((t : Task) → 0 < times t.txn (task_txns ts) → P t → Q t)
    → All P ts
    → All Q ts
All-kept [] h a = tt
All-kept (t ∷ ts) h a = (
  h t (omega (arith, times_cons t.txn t.txn (task_txns ts), times_self t.txn)) a.0,
  All-kept ts (λ u lt. h u (omega (arith, times_cons u.txn t.txn (task_txns ts)))) a.1,
)

pub All-split : (P : Task → Type 0) (ts us : List Task) → All P (ts ++ us) → All P ts × All P us
All-split P [] us a = (tt, a)
All-split P (t ∷ ts) us a = let (l, r) = All-split P ts us a.1 in ((a.0, l), r)

pub All-join : (P : Task → Type 0) (ts us : List Task) → All P ts → All P us → All P (ts ++ us)
All-join P [] us l r = r
All-join P (t ∷ ts) us l r = (l.0, All-join P ts us l.1 r)

pub All-put :
    (P : Task → Type 0) (ts : List Task) (u : Task) (us : List Task)
    → P u
    → All P (ts ++ us)
    → All P (ts ++ u ∷ us)
All-put P ts u us h a = let (l, r) = All-split P ts us a in All-join P ts (u ∷ us) l (h, r)

-- Where a run of the scheduler starts: the objects, the requests, the database and the commit log.
pub record Start : Type 0 where
  pub heap : ℕ → Txn
  pub requests : List ℕ
  pub db : Db
  pub log : List ℕ

-- Distinct fresh transactions.
pub record IsFreshStart (b : Start) : Type 0 where
  pub distinct : (i : ℕ) → times i b.requests ≤ 1
  pub fresh : (i : ℕ) → 0 < times i b.requests → IsFresh (b.heap i)

-- The database after the transactions of the results, in their order.
abbrev pub ledger : Start → System → Db
ledger b s = replay b.heap s.processor.txn_results.items b.db

-- `act i` and `blk i` say how often the lock manager has the transaction as an owner and as a waiter.
pub record Inv (Holds : LockManager → (ℕ → ℕ) → (ℕ → ℕ) → Type 0) (b : Start) (s : System)
    : Type 0 where
  pub act : ℕ → ℕ
  pub blk : ℕ → ℕ
  pub locks : Holds s.processor.lm act blk
  pub active :
      (i : ℕ)
      → act i
        ≡ times i s.processor.ready_txns
          + times i s.queued
          + times i (task_txns s.begun)
          + times i s.processor.completed_txns.items
  pub once :
      (i : ℕ)
      → times i s.processor.txn_requests.items
          + blk i
          + act i
          + times i s.processor.txn_results.items
        ≡ times i b.requests
  pub store : Storage
  pub stored : s.processor.storage ≡ single store
  pub current : records store ≡ ledger b s
  pub untouched :
      (i : ℕ)
      → times i (task_txns s.begun)
          + times i s.processor.completed_txns.items
          + times i s.processor.txn_results.items
        ≡ 0
      → s.processor.heap i ≡ b.heap i
  pub reading :
      All (λ t. Reading (ledger b s) (s.processor.heap t.txn) (b.heap t.txn) t.keys) s.begun
  pub voted :
      (i : ℕ)
      → 0 < times i s.processor.completed_txns.items
      → Voted (ledger b s) (s.processor.heap i) (b.heap i)
  pub verdicts : Verdicts b.heap s.processor.heap s.processor.txn_results.items b.db
  pub log :
      s.processor.committed_txns.elements
      ≡ b.log ++ commits b.heap s.processor.txn_results.items b.db
