-- ===== src/Examples/Schedules.antt =====
-- A run of the locking scheduler: two transactions that increment the same record.
use cmsc_624_spring.Common.{
  ℕ, ◌+◌, ◌≡◌, refl, List, [], ◌∷◌, ◌++◌, Outcome, ok, die, length, find, has, put,
}
use cmsc_624_spring.Atomic.Queue
use cmsc_624_spring.Atomic.Queue.{AtomicQueue}
use cmsc_624_spring.Atomic.Set
use cmsc_624_spring.Atomic.Vector
use cmsc_624_spring.Txn
use cmsc_624_spring.Txn.{Txn}
use cmsc_624_spring.Txn.Types
use cmsc_624_spring.Txn.Types.{new_rmw}
use cmsc_624_spring.Storage
use cmsc_624_spring.Storage.{single}
use cmsc_624_spring.Storage.Single
use cmsc_624_spring.Processor.{Processor, locking, finish, commit_txn, apply_writes, write_all}
use cmsc_624_spring.Processor.Execute.{records}
use cmsc_624_spring.Processor.Locking.{
  request_locks, read_locks, write_locks, release_all, release_keys, Task, System, start_request,
  finish_request, hand_out, begin, read_one, run_task, requests, finishes, hands_out, begins, reads,
  runs, Reach, here, next,
}
use cmsc_624_spring.Processor.Locking.Ledger.{Start}
use cmsc_624_spring.Processor.Locking.Costs.{cost}
use cmsc_624_spring.Processor.Locking.Counting.{steps}
use cmsc_624_spring.Examples.Fifo.{fifo, lm_of}

abbrev rmws : ℕ → Txn
rmws i = new_rmw [] (7 ∷ []) 0

abbrev store : Single.Storage
store = record { records = (7, 40) ∷ []; timestamps = []; ticks = 0 }

abbrev two_rmws : Start
two_rmws = record { heap = rmws; requests = 1 ∷ 2 ∷ []; db = records store; log = [] }

abbrev waiting_system : System
waiting_system = record {
  processor = record {
    mode = locking;
    storage = single store;
    next_unique_id = 3;
    txn_requests = record { items = 1 ∷ 2 ∷ [] };
    ready_txns = [];
    completed_txns = Queue.empty;
    committed_txns = Vector.empty;
    txn_results = Queue.empty;
    active_set = Set.empty;
    lm = lm_of [];
    heap = rmws;
  };
  queued = [];
  begun = [];
}

abbrev clock : ℕ → ℕ
clock i = i

abbrev junk : ℕ → ℕ
junk i = 99

abbrev or_same : Processor → Outcome Processor → Processor
or_same p (ok q) = q
or_same p die = p

abbrev rest_of : List ℕ → AtomicQueue ℕ
rest_of items = record { items = items }

abbrev s₁ : System
s₁ = record waiting_system {
  processor = start_request fifo 1 (rest_of (2 ∷ [])) waiting_system.processor;
}

abbrev s₂ : System
s₂ = record s₁ { processor = start_request fifo 2 (rest_of []) s₁.processor }

-- Transaction 1 is served while 2 waits for its lock.
abbrev s₃ : System
s₃ = hand_out 1 [] s₂

abbrev s₄ : System
s₄ = begin 1 [] s₃

abbrev task : ℕ → List ℕ → Task
task txn keys = record { txn = txn; keys = keys }

abbrev s₅ : System
s₅ = record s₄ { processor = read_one junk 1 7 s₄.processor; begun = task 1 [] ∷ [] }

abbrev s₆ : System
s₆ = record s₅ { processor = or_same s₅.processor (run_task 1 s₅.processor); begun = [] }

abbrev s₇ : System
s₇ = record s₆ {
  processor = or_same s₆.processor (finish_request fifo clock 1 (rest_of []) s₆.processor);
}

-- And then 2.
abbrev s₈ : System
s₈ = hand_out 2 [] s₇

abbrev s₉ : System
s₉ = begin 2 [] s₈

abbrev s₁₀ : System
s₁₀ = record s₉ { processor = read_one junk 2 7 s₉.processor; begun = task 2 [] ∷ [] }

abbrev s₁₁ : System
s₁₁ = record s₁₀ { processor = or_same s₁₀.processor (run_task 2 s₁₀.processor); begun = [] }

abbrev s₁₂ : System
s₁₂ = record s₁₁ {
  processor = or_same s₁₁.processor (finish_request fifo clock 2 (rest_of []) s₁₁.processor);
}

r₂ : Reach fifo clock junk waiting_system s₂
unfolding start_request Queue.pop
r₂ = next (next here (requests 1 (rest_of (2 ∷ [])) refl)) (requests 2 (rest_of []) refl)

r₅ : Reach fifo clock junk waiting_system s₅
unfolding start_request hand_out begin new_rmw request_locks read_locks write_locks has
r₅ = next (next (next r₂ (hands_out 1 [] refl)) (begins [] 1 [] refl)) (reads [] 1 7 [] [] refl)

r₇ : Reach fifo clock junk waiting_system s₇
unfolding start_request hand_out begin new_rmw request_locks read_locks write_locks has find
    read_one Storage.read Single.read run_task Types.run Txn.read Txn.write put Queue.push Queue.pop
    finish_request finish commit_txn apply_writes write_all Storage.write Single.write Vector.push
    release_all release_keys
r₇ = next (next r₅ (runs [] 1 [] _ refl refl)) (finishes 1 (rest_of []) _ refl refl)

r₁₂ : Reach fifo clock junk waiting_system s₁₂
unfolding start_request hand_out begin new_rmw request_locks read_locks write_locks has find
    read_one Storage.read Single.read run_task Types.run Txn.read Txn.write put Queue.push Queue.pop
    finish_request finish commit_txn apply_writes write_all Storage.write Single.write Vector.push
    release_all release_keys
r₁₂ =
    next
      (next
        (next (next (next r₇ (hands_out 2 [] refl)) (begins [] 2 [] refl))
          (reads [] 2 7 [] [] refl))
        (runs [] 2 [] _ refl refl))
      (finishes 2 (rest_of []) _ refl refl)

-- Neither increment is lost, and the client gets both.
both_done :
    (s₁₂.processor.storage
      ≡ single (record { records = (7, 42) ∷ []; timestamps = (7, 1) ∷ []; ticks = 2 }))
    × (s₁₂.processor.txn_results.items ≡ 1 ∷ 2 ∷ [])
unfolding start_request hand_out begin new_rmw request_locks read_locks write_locks has find
    read_one Storage.read Single.read run_task Types.run Txn.read Txn.write put Queue.push Queue.pop
    finish_request finish commit_txn apply_writes write_all Storage.write Single.write Vector.push
    release_all release_keys
both_done = (refl, refl)

-- The bound is met: the twelve steps above are a longest run.
twelve_steps :
    (steps r₁₂ ≡ 12)
    × (cost (λ i. 5 + length ((rmws i).readset ++ (rmws i).writeset)) (1 ∷ 2 ∷ []) ≡ 12)
unfolding new_rmw r₁₂ r₇ r₅ r₂
twelve_steps = (refl, refl)
