-- ===== src/Processor/Execute.antt =====
-- ExecuteTxn and ApplyWrites over the single-version storage, seen as a database.
use cmsc_624_spring.Common.{
  ℕ, ◌≡◌, refl, sym, ap, subst, ◌∙◌, Bool, true, false, ◌||◌, Option, none, some, List, [], ◌∷◌, ok,
  ◌==◌, if◌then◌else◌, arith, Map, find, find-put, has, or_else, IsSorted, Above-tail, find-Above,
  or_else-none, find_nil,
}
use cmsc_624_spring.Txn.{Txn}
use cmsc_624_spring.Txn.Spec.{Db, decide, written, IsFresh}
use cmsc_624_spring.Txn.Runs.{Ends, run_lem}
use cmsc_624_spring.Storage
use cmsc_624_spring.Storage.{Store, single, multi}
use cmsc_624_spring.Storage.Single
use cmsc_624_spring.Storage.Single.{Storage}
use cmsc_624_spring.Processor.{
  Processor, update, read_keys, keep_found, loaded, execute_txn, write_all,
}
use cmsc_624_spring.Atomic.Queue

abbrev pub records : Storage → Db
records s j = find j s.records

pick :
    (here later : Bool) (at_k at_j old : Option ℕ)
    → (here ≡ true → at_k ≡ at_j)
    → (if later
        then or_else at_j (if here then or_else at_k old else old)
        else (if here then or_else at_k old else old))
      ≡ (if here || later then or_else at_j old else old)
pick true true at_k none old e = rw (e refl)
pick true true at_k (some v) old e = refl
pick true false at_k at_j old e = rw (e refl)
pick false true at_k at_j old e = refl
pick false false at_k at_j old e = refl

-- One round of the loop.
pub find-keep_found :
    (o : Option ℕ) (u k : ℕ) (reads : Map ℕ) (j : ℕ)
    → find j (keep_found (Single.found o u) k reads)
      ≡ (if k == j then or_else o (find j reads) else find j reads)
find-keep_found none u k reads j = ground arith
find-keep_found (some v) u k reads j = find-put k j v reads ∙ ground arith

same_key : (s : Storage) (k j : ℕ) → (k == j) ≡ true → records s k ≡ records s j
same_key s k j h = ap (records s) (ground arith)

find-read_keys :
    (uninit : ℕ → ℕ) (ks : List ℕ) (s : Storage) (reads : Map ℕ) (j : ℕ)
    → find j (read_keys uninit ks (single s) reads)
      ≡ (if has j ks then or_else (records s j) (find j reads) else find j reads)
unfolding read_keys has Storage.read Single.read
find-read_keys uninit [] s reads j = refl
find-read_keys uninit (k ∷ ks) s reads j =
    find-read_keys uninit ks s (keep_found (Single.found (find k s.records) (uninit k)) k reads) j
    ∙ rw (find-keep_found (find k s.records) (uninit k) k reads j)
        (pick (k == j) (has j ks) (records s k) (records s j) (find j reads) (same_key s k j))

find-loaded :
    (uninit : ℕ → ℕ) (rs ws : List ℕ) (store : Store) (s : Storage) (reads : Map ℕ) (j : ℕ)
    → store ≡ single s
    → reads ≡ []
    → (has j rs || has j ws) ≡ true
    → find j (read_keys uninit ws store (read_keys uninit rs store reads)) ≡ records s j
find-loaded uninit rs ws store s reads j e empty h =
    rw (e, empty)
      (ground (
        arith,
        find-read_keys uninit ws s (read_keys uninit rs (single s) []) j,
        find-read_keys uninit rs s [] j,
        find_nil {V = ℕ} j,
        or_else-none (records s j),
      ))

-- ExecuteTxn on a fresh transaction over a single-version storage.
pub execute_txn_lem :
    (uninit : ℕ → ℕ) (txn : ℕ) (p : Processor) (s : Storage)
    → p.storage ≡ single s
    → IsFresh (p.heap txn)
    → (t' : Txn) × (execute_txn uninit txn p
        ≡ ok (record p {
          heap = update p.heap txn t';
          completed_txns = Queue.push p.completed_txns txn;
        }))
      × Ends
          (loaded uninit p (p.heap txn))
          (decide (p.heap txn) (records s))
          (written (p.heap txn).logic (p.heap txn).writeset (records s))
          t'
unfolding execute_txn
execute_txn_lem uninit txn p s e fresh =
    let t = p.heap txn in
    let (t', ran, ends) =
      run_lem (loaded uninit p t) (records s) fresh.status (subst IsSorted (sym fresh.writes) tt)
        fresh.sets
        (λ j h. find-loaded uninit t.readset t.writeset p.storage s t.reads j e fresh.reads h) in
    (t', rw ran refl, ends)

pub write_all_lem :
    (clock : ℕ → ℕ) (writes : Map ℕ) (id : ℕ) (s : Storage)
    → IsSorted writes
    → (s' : Storage) × (write_all clock writes id (single s) ≡ single s')
      × ((j : ℕ) → records s' j ≡ or_else (find j writes) (records s j))
unfolding write_all Storage.write Single.write find
write_all_lem clock [] id s a = (s, refl, λ j. refl)
write_all_lem clock ((k, v) ∷ writes) id s a =
    let (s', e, r) =
      write_all_lem clock writes id (Single.write clock s k v id) (Above-tail k writes a) in
    (s', e, λ j. ground (arith, r j, find-put k j v s.records, find-Above k j writes a))
