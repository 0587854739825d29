-- ===== src/Processor/Client.antt =====
-- a2/src/txn/txn_processor.cc: RunScheduler, and a client that submits transactions, waits, and takes
-- the results.
pub mod Submit
pub mod Served
use cmsc_624_spring.Common.{ℕ, zero, suc, Option, none, some, List, [], ◌∷◌, Outcome, ok}
use cmsc_624_spring.Processor.{
  Processor, CcMode, serial, locking_exclusive_only, locking, occ, p_occ, mvcc, mvcc_ssi,
  new_txn_request, get_txn_result,
}
use cmsc_624_spring.Processor.Serial.{serial_rounds}

-- The methods that the repository leaves to be written call the serial scheduler.
unfoldable pub run_occ_scheduler : (ℕ → ℕ) → (ℕ → ℕ) → ℕ → Processor → Outcome Processor
run_occ_scheduler clock uninit n p = serial_rounds clock uninit n p

unfoldable pub run_occ_parallel_scheduler : (ℕ → ℕ) → (ℕ → ℕ) → ℕ → Processor → Outcome Processor
run_occ_parallel_scheduler clock uninit n p = serial_rounds clock uninit n p

unfoldable pub run_mvcc_scheduler : (ℕ → ℕ) → (ℕ → ℕ) → ℕ → Processor → Outcome Processor
run_mvcc_scheduler clock uninit n p = serial_rounds clock uninit n p

-- Nothing calls this one.
unfoldable run_mvcc_ssi_scheduler : (ℕ → ℕ) → (ℕ → ℕ) → ℕ → Processor → Outcome Processor
run_mvcc_ssi_scheduler clock uninit n p = serial_rounds clock uninit n p

-- The switch, with `n` rounds until the stop; `none` stands for the locking scheduler, which
-- Processor/Locking has. There is no case for MVCC_SSI.
abbrev run_mode : CcMode → (ℕ → ℕ) → (ℕ → ℕ) → ℕ → Processor → Option (Outcome Processor)
run_mode serial clock uninit n p = some (serial_rounds clock uninit n p)
run_mode locking clock uninit n p = none
run_mode locking_exclusive_only clock uninit n p = none
run_mode occ clock uninit n p = some (run_occ_scheduler clock uninit n p)
run_mode p_occ clock uninit n p = some (run_occ_parallel_scheduler clock uninit n p)
run_mode mvcc clock uninit n p = some (run_mvcc_scheduler clock uninit n p)
run_mode mvcc_ssi clock uninit n p = some (ok p)

unfoldable pub run_scheduler : (ℕ → ℕ) → (ℕ → ℕ) → ℕ → Processor → Option (Outcome Processor)
run_scheduler clock uninit n p = run_mode p.mode clock uninit n p

-- One call of NewTxnRequest for each transaction.
unfoldable pub submit_all : List ℕ → Processor → Processor
submit_all [] p = p
submit_all (txn ∷ rest) p = submit_all rest (new_txn_request txn p)

abbrev take_result : Option ℕ → List ℕ → List ℕ
take_result none rest = rest
take_result (some txn) rest = txn ∷ rest

-- `n` tries of GetTxnResult: what they returned, in order.
unfoldable pub collect : ℕ → Processor → List ℕ
collect zero p = []
collect (suc n) p = let r = get_txn_result p in take_result r.0 (collect n r.1)
