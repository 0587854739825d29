-- ===== src/Storage.antt =====
-- a2/src/txn/storage.h, storage.cc, mvcc_storage.h, mvcc_storage.cc: the two storages, and the calls
-- that TxnProcessor makes through `Storage*`.
pub mod Single
pub mod Multi
use cmsc_624_spring.Common.{ℕ, Bool}
use Single.{Storage}
use Multi.{MvccStorage}

-- `Storage*`: the methods are virtual.
pub data Store : Type 0 where
  single : Storage → Store
  multi : MvccStorage → Store

-- Whether the record exists, and `*result` after the call.
unfoldable pub read : Store → ℕ → ℕ → ℕ → Bool × ℕ
read (single s) key result txn_unique_id = Single.read s key result txn_unique_id
read (multi s) key result txn_unique_id = Multi.read s key result txn_unique_id

unfoldable pub write : (ℕ → ℕ) → Store → ℕ → ℕ → ℕ → Store
write clock (single s) key value txn_unique_id =
    single (Single.write clock s key value txn_unique_id)
write clock (multi s) key value txn_unique_id = multi (Multi.write s key value txn_unique_id)

unfoldable pub init_storage : (ℕ → ℕ) → Store → Store
init_storage clock (single s) = single (Single.init_storage clock s)
init_storage clock (multi s) = multi (Multi.init_storage s)
