-- ===== src/Examples/Txns.antt =====
-- A transaction of each class through TxnProcessor, and their pieces.
use cmsc_624_spring.Txn.{check_read_write_sets}
use cmsc_624_spring.Txn.Random.{Drawn, new_random_rmw, new_random_rmw_lem}
use cmsc_624_spring.Common.{
  IsFair, length, ◌%◌, ◌-◌, ◌<◌, ◌||◌, ℕ, zero, suc, ◌+◌, ◌≡◌, ◌≤◌, times, refl, true, none, some,
  [], ◌∷◌, Map, has, find, ok, ◌==◌, if◌then◌else◌, arith,
}
use cmsc_624_spring.Txn.{Txn}
use cmsc_624_spring.Txn.Types.{new_put, new_expect, new_rmw, new_noop, run}
use cmsc_624_spring.Txn.Spec.{IsFresh, Db, written}
use cmsc_624_spring.Txn.Clone.{clone, clone_lem}
use cmsc_624_spring.Txn.Fresh.{new_expect-IsFresh, new_put-IsFresh, new_rmw-IsFresh}
use cmsc_624_spring.Txn.Runs.{Ends, Mirrors, run_lem}
use cmsc_624_spring.Storage.{single}
use cmsc_624_spring.Storage.Single.{Storage}
use cmsc_624_spring.Processor.{Processor, serial}
use cmsc_624_spring.Processor.Execute.{records}
use cmsc_624_spring.Processor.Serial.{serial_rounds}
use cmsc_624_spring.Processor.Serial.Replay.{Replayed, AreFresh, serial_rounds_lem}
use cmsc_624_spring.Processor.{p_occ, new_processor}
use cmsc_624_spring.Processor.Client.{run_scheduler, submit_all}
use cmsc_624_spring.Processor.Client.Submit.{AreNumbered}
use cmsc_624_spring.Processor.Client.Served.{Serves, serve_client}
use cmsc_624_spring.LockManager.{LockManager}
use cmsc_624_spring.LockManager.A
use cmsc_624_spring.Processor.Locking.{System, start_request, Reach, here, next, requests}
use cmsc_624_spring.Processor.Locking.Places.{task_txns}
use cmsc_624_spring.Processor.Locking.Granting.{Starts, A-Keeps, results_lem}
use cmsc_624_spring.Atomic.Queue
use cmsc_624_spring.Atomic.Vector
use cmsc_624_spring.Atomic.Set

abbrev clock : ℕ → ℕ
clock i = 1000 + i

-- What an uninitialised variable holds.
abbrev junk : ℕ → ℕ
junk key = 77

abbrev one : Map ℕ
one = (1, 5) ∷ []

-- Transaction 0 puts, 1 expects what was put, 2 increments it, 3 expects the old value.
abbrev objects : ℕ → Txn
objects zero = new_put one
objects (suc zero) = new_expect one
objects (suc (suc zero)) = new_rmw [] (1 ∷ []) 0
objects (suc (suc (suc zero))) = new_expect one
objects (suc (suc (suc (suc n)))) = new_noop

abbrev stored : Storage
stored = record { records = (1, 0) ∷ (2, 0) ∷ []; timestamps = []; ticks = 0 }

abbrev waiting : Processor
waiting = record {
  mode = serial;
  storage = single stored;
  next_unique_id = 5;
  txn_requests = record { items = 0 ∷ 1 ∷ 2 ∷ 3 ∷ [] };
  ready_txns = [];
  completed_txns = Queue.empty;
  committed_txns = Vector.empty;
  txn_results = Queue.empty;
  active_set = Set.empty;
  lm = record { lock_table = []; txn_waits = [] };
  heap = objects;
}

objects-AreFresh : AreFresh objects (0 ∷ 1 ∷ 2 ∷ 3 ∷ [])
unfolding has
objects-AreFresh = (
  new_put-IsFresh one tt,
  refl,
  (
    new_expect-IsFresh one,
    refl,
    (new_rmw-IsFresh [] (1 ∷ []) 0 tt, refl, (new_expect-IsFresh one, refl, tt)),
  ),
)

serial_rounds_lem_example :
    (p' : Processor) × (serial_rounds clock junk 6 waiting ≡ ok p')
    × Replayed waiting (0 ∷ 1 ∷ 2 ∷ 3 ∷ []) (records stored) p'
serial_rounds_lem_example =
    serial_rounds_lem clock junk 6 (0 ∷ 1 ∷ 2 ∷ 3 ∷ []) waiting stored (omega arith) refl refl
      objects-AreFresh

abbrev loaded_rmw : Txn
loaded_rmw = record (new_rmw [] (1 ∷ []) 0) { reads = (1, 41) ∷ [] }

abbrev db_of_one : Db
db_of_one j = if 1 == j then some 41 else none

clone_lem_example : clone loaded_rmw ≡ loaded_rmw
clone_lem_example = clone_lem loaded_rmw

mirrored : Mirrors loaded_rmw db_of_one
unfolding has find new_rmw
mirrored j h = ground arith

run_lem_example :
    (t' : Txn) × (run loaded_rmw ≡ ok t')
    × Ends loaded_rmw true (written loaded_rmw.logic (1 ∷ []) db_of_one) t'
unfolding new_rmw
run_lem_example = run_lem loaded_rmw db_of_one refl tt tt mirrored

serve_client_example :
    let p = submit_all (0 ∷ 1 ∷ 2 ∷ 3 ∷ []) (new_processor clock p_occ objects) in
    AreNumbered p.heap (0 ∷ 1 ∷ 2 ∷ 3 ∷ []) 1
    × (p' : Processor) × (run_scheduler clock junk 9 p ≡ some (ok p'))
    × Serves objects (0 ∷ 1 ∷ 2 ∷ 3 ∷ []) p'
serve_client_example =
    serve_client clock junk 9 p_occ objects (0 ∷ 1 ∷ 2 ∷ 3 ∷ []) refl (omega arith) objects-AreFresh

abbrev idle_pool : System
idle_pool = record { processor = waiting; queued = []; begun = [] }

-- What the lock managers as they stand keep.
abbrev nothing_blocked : LockManager → ℕ → ℕ
nothing_blocked lm i = 0

idle_pool-Starts : Starts nothing_blocked idle_pool
idle_pool-Starts = record {
  ready = refl;
  unblocked = λ i. refl;
  queued = refl;
  begun = refl;
  completed = refl;
  results = refl;
}

abbrev one_ready : System
one_ready = record idle_pool {
  processor = start_request A.class 0 (record { items = 1 ∷ 2 ∷ 3 ∷ [] }) waiting;
}

one_ready-Reach : Reach A.class clock junk idle_pool one_ready
one_ready-Reach = next here (
    requests 0 (record { items = 1 ∷ 2 ∷ 3 ∷ [] })
      (Queue.pop_front waiting.txn_requests 0 (1 ∷ 2 ∷ 3 ∷ []) refl))

results_lem_example :
    (times 0 one_ready.processor.txn_results.items ≤ times 0 (0 ∷ 1 ∷ 2 ∷ 3 ∷ []))
    × (times 0 one_ready.processor.txn_requests.items
            + (times 0 one_ready.processor.ready_txns + nothing_blocked one_ready.processor.lm 0)
            + times 0 one_ready.queued
            + times 0 (task_txns one_ready.begun)
            + times 0 one_ready.processor.completed_txns.items
          ≡ 0
        → times 0 one_ready.processor.txn_results.items ≡ times 0 (0 ∷ 1 ∷ 2 ∷ 3 ∷ []))
results_lem_example =
    results_lem A-Keeps 0 {s = idle_pool} {s' = one_ready} idle_pool-Starts one_ready-Reach

abbrev counting : ℕ → ℕ
counting i = i

counting-IsFair : IsFair counting 10 10
counting-IsFair calls key lt =
    (calls + (key + 10 - calls % 10) % 10, omega arith, omega arith, omega arith)

new_random_rmw_lem_example :
    (t : Drawn Txn) × (new_random_rmw counting 10 10 3 4 0 25 ≡ ok (some t))
    × IsFresh t.value
    × (check_read_write_sets t.value ≡ ok tt)
    × (length t.value.readset ≡ 3)
    × (length t.value.writeset ≡ 4)
    × ((j : ℕ) → (has j t.value.readset || has j t.value.writeset) ≡ true → j < 10)
new_random_rmw_lem_example =
    new_random_rmw_lem counting 10 10 3 4 0 25 counting-IsFair (omega arith)
