-- ===== src/Txn/Types.antt =====
-- a2/src/txn/txn_types.h: the constructors and `Run` of Noop, Expect, Put and RMW.
use cmsc_624_spring.Common.{
  ℕ, ◌+◌, ◌%◌, ◌^◌, Bool, true, false, Option, none, some, List, [], ◌∷◌, Outcome, ok, die, ◌>>=◌,
  ◌==◌, Map, keys, insert,
}
use cmsc_624_spring.Txn.{
  Txn, TxnType, noop, expect, puts, rmw, incomplete, completed_c, completed_a, read, write,
}

-- The loop of a constructor that puts the keys of `m_` into a set.
unfoldable pub insert_keys : Map ℕ → List ℕ → List ℕ
insert_keys [] set = set
insert_keys ((key, value) ∷ m) set = insert_keys m (insert key set)

-- `Txn()` sets the status; `unique_id_` and `occ_start_idx_` are set before they are read.
abbrev pub new_txn : TxnType → List ℕ → List ℕ → Txn
new_txn logic readset writeset = record {
  logic = logic;
  readset = readset;
  writeset = writeset;
  reads = [];
  writes = [];
  status = incomplete;
  unique_id = 0;
  occ_start_idx = 0;
}

unfoldable pub new_noop : Txn
new_noop = new_txn noop [] []

unfoldable pub new_expect : Map ℕ → Txn
unfolding insert_keys
new_expect m = new_txn (expect m) (insert_keys m []) []

unfoldable pub new_put : Map ℕ → Txn
unfolding insert_keys
new_put m = new_txn (puts m) [] (insert_keys m [])

unfoldable pub new_rmw : List ℕ → List ℕ → ℕ → Txn
new_rmw readset writeset time = new_txn (rmw time) readset writeset

-- The macros COMMIT and ABORT
abbrev pub commit : Txn → Txn
commit t = record t { status = completed_c }

abbrev pub abort : Txn → Txn
abort t = record t { status = completed_a }

matches : Option ℕ → ℕ → Bool
matches none expected = false
matches (some result) expected = result == expected

-- The cases of an `elim` wait, so the loop stops at the first mismatch.
unfoldable pub run_expect : Map ℕ → Txn → Outcome Txn
unfolding matches
run_expect [] t = ok (commit t)
run_expect ((key, value) ∷ m) t = elim (read t key) [
  | die ↦ die
  | ok found ↦ elim (matches found value) [ true ↦ run_expect m t | false ↦ ok (abort t) ]
]

unfoldable pub run_put : Map ℕ → Txn → Outcome Txn
run_put [] t = ok (commit t)
run_put ((key, value) ∷ m) t = elim (write t key value) [ die ↦ die | ok t' ↦ run_put m t' ]

-- `result = 0; Read(key, &result);`
abbrev pub or_zero : Option ℕ → ℕ
or_zero none = 0
or_zero (some result) = result

-- The reads of the readset, whose results the logic drops.
unfoldable pub read_all : List ℕ → Txn → Outcome (Unit {0})
read_all [] t = ok tt
read_all (key ∷ keys) t = elim (read t key) [ die ↦ die | ok _ ↦ read_all keys t ]

-- The increments wrap as uint64.
unfoldable pub increment_all : List ℕ → Txn → Outcome Txn
increment_all [] t = ok (commit t)
increment_all (key ∷ keys) t = elim (read t key) [
  | die ↦ die
  | ok found ↦ elim (write t key ((or_zero found + 1) % 2 ^ 64)) [
    | die ↦ die
    | ok t' ↦ increment_all keys t'
  ]
]

-- Between the reads and the increments the code spins until `time` has passed, in local variables
-- only.
unfoldable pub run_rmw : Txn → Outcome Txn
unfolding read_all increment_all
run_rmw t = do _ ← read_all t.readset t; increment_all t.writeset t

unfoldable pub run_logic : TxnType → Txn → Outcome Txn
unfolding run_expect run_put run_rmw
run_logic noop t = ok (commit t)
run_logic (expect m) t = run_expect m t
run_logic (puts m) t = run_put m t
run_logic (rmw time) t = run_rmw t

-- `txn->Run()`, by the object's class
unfoldable pub run : Txn → Outcome Txn
unfolding run_logic
run t = run_logic t.logic t
