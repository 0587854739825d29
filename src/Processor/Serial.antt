-- ===== src/Processor/Serial.antt =====
-- a2/src/txn/txn_processor.cc: RunSerialScheduler.
pub mod Round
pub mod Replay
use cmsc_624_spring.Common.{ℕ, zero, suc, Option, none, some, Outcome, ok, die, ◌>>=◌}
use cmsc_624_spring.Atomic.Queue
use cmsc_624_spring.Atomic.Queue.{AtomicQueue}
use cmsc_624_spring.Processor.{Processor, execute_txn, finish}

unfoldable pub serve : (ℕ → ℕ) → (ℕ → ℕ) → Option ℕ × AtomicQueue ℕ → Processor → Outcome Processor
serve clock uninit (none, requests) p = ok p
serve clock uninit (some txn, requests) p = do
  p₁ ← execute_txn uninit txn (record p { txn_requests = requests })
  p₂ ← finish clock txn p₁
  ok (record p₂ { txn_results = Queue.push p₂.txn_results txn })

-- One round of the loop.
unfoldable pub serial_round : (ℕ → ℕ) → (ℕ → ℕ) → Processor → Outcome Processor
serial_round clock uninit p = serve clock uninit (Queue.pop p.txn_requests) p

-- The rounds until `stopped_` is seen; how many there are is up to the thread that stops the loop.
unfoldable pub serial_rounds : (ℕ → ℕ) → (ℕ → ℕ) → ℕ → Processor → Outcome Processor
serial_rounds clock uninit zero p = ok p
serial_rounds clock uninit (suc n) p = elim (serial_round clock uninit p) [
  | die ↦ die
  | ok p' ↦ serial_rounds clock uninit n p'
]
