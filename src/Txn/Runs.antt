-- ===== src/Txn/Runs.antt =====
-- The program logic of each class, run on reads that mirror a database, does what `Txn/Spec` says.
use cmsc_624_spring.Common.{
  ℕ, ◌+◌, ◌%◌, ◌^◌, ◌≡◌, refl, sym, ◌∙◌, Bool, true, ◌||◌, none, some, List, [], ◌∷◌, ok, arith,
  if◌then◌else◌, Map, find, put, keys, has, find-put, find-Above, put-IsSorted, Above-tail,
  IsSorted, IsAscending, has-Ascends, Ascends-tail, or_else,
}
use cmsc_624_spring.Txn.{
  Txn, TxnType, noop, expect, puts, rmw, incomplete, completed_c, completed_a, read, write,
}
use cmsc_624_spring.Txn.Types.{
  run_expect, run_put, read_all, increment_all, run_rmw, run_logic, run, or_zero,
}
use cmsc_624_spring.Txn.Spec.{Db, holds_all, decide_logic, written, decide, HasSets}

-- What a run leaves: its vote, the values written over those written before, and the rest as it was.
pub record Ends (t : Txn) (votes : Bool) (values : Db) (t' : Txn) : Type 0 where
  pub status : t'.status ≡ (if votes then completed_c else completed_a)
  pub writes : (j : ℕ) → find j t'.writes ≡ or_else (values j) (find j t.writes)
  pub sorted : IsSorted t'.writes
  pub logic : t'.logic ≡ t.logic
  pub readset : t'.readset ≡ t.readset
  pub writeset : t'.writeset ≡ t.writeset
  pub unique_id : t'.unique_id ≡ t.unique_id

read_lem :
    (t : Txn) (key : ℕ)
    → t.status ≡ incomplete
    → (has key t.readset || has key t.writeset) ≡ true
    → read t key ≡ ok (find key t.reads)
unfolding read
read_lem t key s h = ground arith

write_lem :
    (t : Txn) (key value : ℕ)
    → t.status ≡ incomplete
    → has key t.writeset ≡ true
    → write t key value
      ≡ ok (record t { writes = put key value t.writes; reads = put key value t.reads })
unfolding write
write_lem t key value s h = ground arith

has_head : (j : ℕ) (s : List ℕ) → has j (j ∷ s) ≡ true
unfolding has
has_head j s = ground arith

has_tail : (i j : ℕ) (s : List ℕ) → has i s ≡ true → has i (j ∷ s) ≡ true
unfolding has
has_tail i j s h = ground arith

run_expect_lem :
    (m : Map ℕ) (t : Txn) (db : Db)
    → t.status ≡ incomplete
    → ((j : ℕ) → has j (keys m) ≡ true → (has j t.readset ≡ true) × (find j t.reads ≡ db j))
    → run_expect m t
      ≡ ok (record t { status = if holds_all m db then completed_c else completed_a })
unfolding run_expect holds_all
run_expect_lem [] t db s h = refl
run_expect_lem ((k, v) ∷ m) t db s h = ground (
  arith,
  h k (has_head k (keys m)),
  read_lem t k s,
  run_expect_lem m t db s (λ j e. h j (has_tail j k (keys m) e)),
)

-- One buffered write, after which the run goes on.
abbrev after_write : Txn → ℕ → ℕ → Txn
after_write t k v = record t { writes = put k v t.writes; reads = put k v t.reads }

run_put_lem :
    (m : Map ℕ) (t : Txn)
    → t.status ≡ incomplete
    → IsSorted m
    → IsSorted t.writes
    → ((j : ℕ) → has j (keys m) ≡ true → has j t.writeset ≡ true)
    → (t' : Txn) × (run_put m t ≡ ok t') × Ends t true (λ j. find j m) t'
unfolding run_put find
run_put_lem [] t s a w h = (
  record t { status = completed_c },
  refl,
  record {
    status = refl;
    writes = λ j. refl;
    sorted = w;
    logic = refl;
    readset = refl;
    writeset = refl;
    unique_id = refl;
  },
)
run_put_lem ((k, v) ∷ m) t s a w h =
    let (t', e, r) =
      run_put_lem m (after_write t k v) s (Above-tail k m a) (put-IsSorted k v t.writes w)
        (λ j q. h j (has_tail j k (keys m) q)) in
    (
      t',
      ground (arith, write_lem t k v s (h k (has_head k (keys m))), e),
      record {
        status = r.status;
        writes = λ j. ground (arith, r.writes j, find-put k j v t.writes, find-Above k j m a);
        sorted = r.sorted;
        logic = r.logic;
        readset = r.readset;
        writeset = r.writeset;
        unique_id = r.unique_id;
      },
    )

read_all_lem :
    (ks : List ℕ) (t : Txn)
    → t.status ≡ incomplete
    → ((j : ℕ) → has j ks ≡ true → has j t.readset ≡ true)
    → read_all ks t ≡ ok tt
unfolding read_all
read_all_lem [] t s h = refl
read_all_lem (k ∷ ks) t s h = ground (
  arith,
  read_lem t k s,
  h k (has_head k ks),
  read_all_lem ks t s (λ j e. h j (has_tail j k ks e)),
)

-- The value that an increment writes at `j`, if `j` is among the keys still to come.
abbrev bumped : List ℕ → Db → Db
bumped ks db j = if has j ks then some ((or_zero (db j) + 1) % 2 ^ 64) else none

increment_all_lem :
    (ks : List ℕ) (t : Txn) (db : Db)
    → t.status ≡ incomplete
    → IsAscending ks
    → IsSorted t.writes
    → ((j : ℕ) → has j ks ≡ true → (has j t.writeset ≡ true) × (find j t.reads ≡ db j))
    → (t' : Txn) × (increment_all ks t ≡ ok t') × Ends t true (bumped ks db) t'
unfolding increment_all has
increment_all_lem [] t db s a w h = (
  record t { status = completed_c },
  refl,
  record {
    status = refl;
    writes = λ j. refl;
    sorted = w;
    logic = refl;
    readset = refl;
    writeset = refl;
    unique_id = refl;
  },
)
increment_all_lem (k ∷ ks) t db s a w h =
    let v = (or_zero (db k) + 1) % 2 ^ 64 in
    let (in_set, mirrored) = h k (has_head k ks) in
    let (t', e, r) =
      increment_all_lem ks (after_write t k v) db s (Ascends-tail k ks a)
        (put-IsSorted k v t.writes w)
        (λ j q.
          let (j_in, j_mirrored) = h j (has_tail j k ks q) in
          (j_in, ground (arith, find-put k j v t.reads, has-Ascends k j ks a, j_mirrored))) in
    (
      t',
      ground (arith, read_lem t k s, mirrored, write_lem t k v s in_set, e),
      record {
        status = r.status;
        writes = λ j. ground (arith, r.writes j, find-put k j v t.writes, has-Ascends k j ks a);
        sorted = r.sorted;
        logic = r.logic;
        readset = r.readset;
        writeset = r.writeset;
        unique_id = r.unique_id;
      },
    )

-- The keys of the readset and the writeset were read from the database.
abbrev pub Mirrors : Txn → Db → Type 0
Mirrors t db = (j : ℕ) → (has j t.readset || has j t.writeset) ≡ true → find j t.reads ≡ db j

or_left : (a b : Bool) → a ≡ true → (a || b) ≡ true
or_left a b h = ground arith

or_right : (a b : Bool) → b ≡ true → (a || b) ≡ true
or_right a b h = ground arith

run_logic_lem :
    (l : TxnType) (t : Txn) (db : Db)
    → t.status ≡ incomplete
    → IsSorted t.writes
    → HasSets l t.readset t.writeset
    → Mirrors t db
    → (t' : Txn) × (run_logic l t ≡ ok t') × Ends t (decide_logic l db) (written l t.writeset db) t'
unfolding run_logic run_rmw
run_logic_lem noop t db s w q mirrors = (
  record t { status = completed_c },
  refl,
  record {
    status = refl;
    writes = λ j. refl;
    sorted = w;
    logic = refl;
    readset = refl;
    writeset = refl;
    unique_id = refl;
  },
)
run_logic_lem (expect m) t db s w q mirrors = (
  record t { status = if holds_all m db then completed_c else completed_a },
  run_expect_lem m t db s (λ j e.
      let in_set = sym (q j) ∙ e in (in_set, mirrors j (or_left _ (has j t.writeset) in_set))),
  record {
    status = refl;
    writes = λ j. refl;
    sorted = w;
    logic = refl;
    readset = refl;
    writeset = refl;
    unique_id = refl;
  },
)
run_logic_lem (puts m) t db s w (a, q) mirrors = run_put_lem m t s a w (λ j e. sym (q j) ∙ e)
run_logic_lem (rmw time) t db s w q mirrors =
    let (t', e, r) =
      increment_all_lem t.writeset t db s q w
        (λ j e. (e, mirrors j (or_right (has j t.readset) _ e))) in
    (t', ground (arith, read_all_lem t.readset t s (λ j h. h), e), r)

-- Run on a fresh transaction whose reads were filled from a database, the program logic of every
-- class ends without `DIE`, votes as the specification decides, and leaves in the write buffer
-- exactly the values that the specification writes.
pub run_lem :
    (t : Txn) (db : Db)
    → t.status ≡ incomplete
    → IsSorted t.writes
    → HasSets t.logic t.readset t.writeset
    → Mirrors t db
    → (t' : Txn) × (run t ≡ ok t') × Ends t (decide t db) (written t.logic t.writeset db) t'
unfolding run
run_lem t db s w q mirrors = run_logic_lem t.logic t db s w q mirrors
