-- ===== src/Txn/Spec.antt =====
-- What a transaction means: a decision and an effect on a database seen as a function of its keys,
-- with no read or write buffer.
use cmsc_624_spring.Common.{
  ℕ, ◌+◌, ◌%◌, ◌^◌, ◌≡◌, Bool, true, false, ◌&&◌, Option, none, some, List, [], ◌∷◌, ◌==◌,
  if◌then◌else◌, Map, find, keys, has, or_else, IsSorted, IsAscending,
}
use cmsc_624_spring.Txn.{
  Txn, TxnType, TxnStatus, noop, expect, puts, rmw, incomplete, committed, aborted,
}
use cmsc_624_spring.Txn.Types.{or_zero}

abbrev pub Db : Type 0
Db = ℕ → Option ℕ

abbrev pub holds_value : Option ℕ → ℕ → Bool
holds_value none value = false
holds_value (some v) value = v == value

-- Every pair of the map stands in the database.
unfoldable pub holds_all : Map ℕ → Db → Bool
holds_all [] db = true
holds_all ((key, value) ∷ m) db = holds_value (db key) value && holds_all m db

abbrev pub decide_logic : TxnType → Db → Bool
decide_logic noop db = true
decide_logic (expect m) db = holds_all m db
decide_logic (puts m) db = true
decide_logic (rmw time) db = true

-- The values that a transaction writes.
abbrev pub written : TxnType → List ℕ → Db → Db
written noop writeset db j = none
written (expect m) writeset db j = none
written (puts m) writeset db j = find j m
written (rmw time) writeset db j =
    if has j writeset then some ((or_zero (db j) + 1) % 2 ^ 64) else none

abbrev pub decide : Txn → Db → Bool
decide t db = decide_logic t.logic db

-- The new database: the values written if the transaction commits, and all else as it was. An abort
-- writes nothing.
abbrev pub effect : Txn → Db → Db
effect t db j = if decide t db then or_else (written t.logic t.writeset db j) (db j) else db j

abbrev pub verdict : Txn → Db → TxnStatus
verdict t db = if decide t db then committed else aborted

abbrev pub HasSets : TxnType → List ℕ → List ℕ → Type 0
HasSets noop readset writeset = Unit
HasSets (expect m) readset writeset = (j : ℕ) → has j (keys m) ≡ has j readset
HasSets (puts m) readset writeset = IsSorted m × ((j : ℕ) → has j (keys m) ≡ has j writeset)
HasSets (rmw time) readset writeset = IsAscending writeset

-- A transaction as its constructor leaves it.
pub record IsFresh (t : Txn) : Type 0 where
  pub status : t.status ≡ incomplete
  pub reads : t.reads ≡ []
  pub writes : t.writes ≡ []
  pub sets : HasSets t.logic t.readset t.writeset
