-- ===== src/Request.antt =====
-- a1/src/txn/request.h, request.cc: a request adds its updates to the fields of the records in its
-- writeset.
pub mod Fields
pub mod Order
pub mod Interleave
pub mod Copy
use cmsc_624_spring.Common.{
  ℕ, zero, suc, ◌+◌, ◌-◌, ◌*◌, ◌%◌, ◌^◌, Bool, true, false, not, ◌||◌, List, [], ◌∷◌, Outcome, ok,
  die, ◌>>=◌, ◌>>◌, require, ◌==◌,
}
use cmsc_624_spring.Database.{Database, get_record, put_record, update, field_size, nfields}
use cmsc_624_spring.Database.Word.{Bytes, read_word, write_word}

-- `db` says which database; the arrays are functions of the index.
pub record Request : Type 0 where
  pub db : ℕ
  pub is_high_priority : Bool
  pub num_writes : ℕ
  pub writeset : ℕ → ℕ
  pub updates : ℕ → ℕ

unfoldable pub set_database : ℕ → Request → Request
set_database db req = record req { db = db }

-- DoWrite's loop, with `n` fields left from field `i`.
unfoldable pub add_fields : ℕ → ℕ → (ℕ → ℕ) → Bytes → Bytes
add_fields zero i updates bytes = bytes
add_fields (suc n) i updates bytes =
    let at = i * field_size in
    add_fields n (i + 1) updates (write_word at ((read_word at bytes + updates i) % 2 ^ 64) bytes)

unfoldable pub do_write : (ℕ → ℕ) → Bytes → Bytes
do_write updates bytes = add_fields nfields 0 updates bytes

-- Lock and Unlock are the handed-out stubs.
unfoldable pub lock : Request → Database → Database
lock req db = db

unfoldable pub unlock : Request → Database → Database
unlock req db = db

-- `if (i > 0) assert(writeset_[i - 1] != writeset_[i]);`
abbrev pub may_write : Request → ℕ → Bool
may_write req i = i == 0 || not (req.writeset (i - 1) == req.writeset i)

-- Txn's loop, with `n` writes left from write `i`.
unfoldable pub write_records : Request → ℕ → ℕ → Database → Outcome Database
write_records req zero i db = ok db
write_records req (suc n) i db = elim (may_write req i) [
  | false ↦ die
  | true ↦
      write_records req n (i + 1)
        (put_record db (req.writeset i) (do_write req.updates (get_record db (req.writeset i))))
]

unfoldable pub txn : Request → Database → Outcome Database
txn req db = write_records req req.num_writes 0 db

-- Execute, on the database that `db_` points at.
unfoldable pub execute : Request → (ℕ → Database) → Outcome (ℕ → Database)
execute req dbs = do db ← txn req (lock req (dbs req.db)); ok (update dbs req.db (unlock req db))

-- `for (i = 0; i < num_requests; ++i) reqs[i]->Execute();`
unfoldable pub execute_all : List Request → (ℕ → Database) → Outcome (ℕ → Database)
execute_all [] dbs = ok dbs
execute_all (req ∷ reqs) dbs = elim (execute req dbs) [
  | die ↦ die
  | ok dbs' ↦ execute_all reqs dbs'
]
