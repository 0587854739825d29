-- ===== src/Txn.antt =====
-- a2/src/txn/txn.h, txn.cc: a transaction object, the reads and writes that its logic makes, and the
-- program's classes of transactions (a2/src/txn/txn_types.h, in the children).
pub mod Types
pub mod Spec
pub mod Clone
pub mod Fresh
pub mod Runs
pub mod Random
use cmsc_624_spring.Common.{
  ℕ, Bool, true, false, not, ◌&&◌, ◌||◌, Option, none, some, List, [], ◌∷◌, Outcome, ok, die, ◌>>=◌,
  ◌>>◌, require, has, Map, find, put,
}

pub data TxnStatus : Type 0 where
  incomplete completed_c completed_a committed aborted : TxnStatus

abbrev pub is_incomplete : TxnStatus → Bool
is_incomplete incomplete = true
is_incomplete _ = false

-- The subclasses of Txn with their own fields; `rmw` has the duration `time_` in microseconds.
pub data TxnType : Type 0 where
  noop : TxnType
  expect : Map ℕ → TxnType
  puts : Map ℕ → TxnType
  rmw : ℕ → TxnType

-- Keys and values are uint64.
pub record Txn : Type 0 where
  pub logic : TxnType
  pub readset : List ℕ
  pub writeset : List ℕ
  pub reads : Map ℕ
  pub writes : Map ℕ
  pub status : TxnStatus
  pub unique_id : ℕ
  pub occ_start_idx : ℕ

read_found : Bool → Option ℕ → Option ℕ
read_found true found = found
read_found false found = none

-- `some` is a return of true with that `*value`, `none` a return of false.
unfoldable pub read : Txn → ℕ → Outcome (Option ℕ)
unfolding read_found
read t key = do
  require (has key t.readset || has key t.writeset)
  ok (read_found (is_incomplete t.status) (find key t.reads))

write_buffer : Bool → Txn → ℕ → ℕ → Txn
write_buffer true t key value = record t {
  writes = put key value t.writes;
  reads = put key value t.reads;
}
write_buffer false t key value = t

unfoldable pub write : Txn → ℕ → ℕ → Outcome Txn
unfolding write_buffer
write t key value = do
  require (has key t.writeset)
  ok (write_buffer (is_incomplete t.status) t key value)

unfoldable pub disjoint : List ℕ → List ℕ → Bool
disjoint readset [] = true
disjoint readset (key ∷ writeset) = not (has key readset) && disjoint readset writeset

-- The loop dies at the first key of the writeset that is in the readset too.
unfoldable pub check_read_write_sets : Txn → Outcome (Unit {0})
unfolding disjoint
check_read_write_sets t = require (disjoint t.readset t.writeset)

-- `from->CopyTxnInternals(to)`; the fields of a subclass are not copied.
pub copy_txn_internals : Txn → Txn → Txn
copy_txn_internals from to = record from { logic = to.logic }
