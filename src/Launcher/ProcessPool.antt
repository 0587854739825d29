-- ===== src/Launcher/ProcessPool.antt =====
-- a1/src/launcher/process_pool_launcher.h, process_pool_launcher.cc: a pool of processes. The
-- constructor, ExecuteRequest and the processes stop at the `assert(false)` of the stubs.
pub mod Free
pub mod Buffers
pub mod Destroy
use cmsc_624_spring.Common.{
  ℕ, zero, suc, ◌+◌, ◌-◌, ◌*◌, ◌%◌, ◌^◌, Bool, true, false, Option, none, some, Outcome, ok, die,
  ◌>>=◌, ◌>>◌, require, update, if◌then◌else◌,
}
use cmsc_624_spring.Launcher.{Counters, new_counters, incr_done_txns}
use cmsc_624_spring.Launcher
use cmsc_624_spring.Database.{Database}
use cmsc_624_spring.Request.{Request}
use cmsc_624_spring.Request

abbrev pub rqst_buf_sz : ℕ
rqst_buf_sz = 1024

-- Addresses, but `next_`, which is NULL or an index into the array of states. The pointers to the
-- launcher's own state are left out: they are the same in all.
pub record ProcState : Type 0 where
  pub request : ℕ
  pub proc_ready : ℕ
  pub proc_id : ℕ
  pub proc_mutex : ℕ
  pub proc_cond : ℕ
  pub next : Option ℕ

-- The addresses in the proc_mgr, and its pool.
pub record ProcMgr : Type 0 where
  pub num_idle_procs : ℕ
  pub num_idle_procs_mutex : ℕ
  pub num_idle_procs_cond : ℕ
  pub pool_mutex : ℕ
  pub pool : Option ℕ

-- The arrays lie where mmap has put them: `pstates` is the address of the states, and
-- `launcher_state` that of the proc_mgr.
pub record ProcessPoolLauncher : Type 0 where
  pub counters : Counters
  pub launcher_state : ℕ
  pub mgr : ProcMgr
  pub pstates : ℕ
  pub states : ℕ → ProcState

-- `nprocs * RQST_BUF_SZ` and `i * RQST_BUF_SZ` are uint32.
abbrev pub req_bufs_size : ℕ → ℕ
req_bufs_size nprocs = nprocs * rqst_buf_sz % 2 ^ 32

abbrev pub request_buf : ℕ → ℕ → ℕ
request_buf req_bufs i = req_bufs + i * rqst_buf_sz % 2 ^ 32

-- The body of the loop; the arrays of the stub are NULL.
abbrev pub new_state : ℕ → ℕ → ProcState
new_state req_bufs i = record {
  request = request_buf req_bufs i;
  proc_ready = i;
  proc_id = 4 * i;
  proc_mutex = 40 * i;
  proc_cond = 48 * i;
  next = some ((i + 1) % 2 ^ 32);
}

-- The loop, with `n` states left from state `i`.
unfoldable pub init_states : ℕ → ℕ → ℕ → (ℕ → ProcState) → ℕ → ProcState
init_states req_bufs zero i states = states
init_states req_bufs (suc n) i states =
    init_states req_bufs n (i + 1) (update states i (new_state req_bufs i))

-- And `pstates[i - 1].next_ = NULL;` after it; with no process the index is 2^32 - 1.
unfoldable pub link_states : ℕ → ℕ → (ℕ → ProcState) → ℕ → ProcState
link_states req_bufs nprocs states =
    let filled = init_states req_bufs nprocs 0 states in
    let last = (nprocs + (2 ^ 32 - 1)) % 2 ^ 32 in
    update filled last (record (filled last) { next = none })

-- The constructor. `mmap n` is what its call number `n` returns; the new memory is zero.
unfoldable pub new_launcher : (ℕ → ℕ) → (ℕ → ProcState) → ProcMgr → ℕ → Outcome ProcessPoolLauncher
new_launcher mmap states mgr nprocs = do
  require false
  require false
  require false
  let made : ProcessPoolLauncher = record {
    counters = new_counters;
    launcher_state = mmap 0;
    mgr = record mgr { pool = some 0 };
    pstates = mmap 2;
    states = link_states (mmap 1) nprocs states;
  } in
      require false >> ok made

unfoldable pub execute_request : ProcessPoolLauncher → Outcome ProcessPoolLauncher
execute_request l =
    let counted = record l { counters = Launcher.execute_request l.counters } in
    require false >> ok counted

unfoldable pub incr_high_priority : Bool → Counters → Counters
incr_high_priority is_high_priority c =
    if is_high_priority
    then record c { high_priority_txns_executed = (c.high_priority_txns_executed + 1) % 2 ^ 64 }
    else c

-- A round of ExecutorFunc's loop, on the request in the buffer.
unfoldable pub executor_round :
    Request → Counters → (ℕ → Database) → Outcome (Counters × (ℕ → Database))
executor_round req c dbs = do
  require false
  dbs' ← Request.execute req dbs
  require false
  ok (incr_high_priority req.is_high_priority (incr_done_txns c), dbs')

abbrev pub sizeof_proc_state : ℕ
sizeof_proc_state = 72

-- The loop of the destructor over the pool, with `fuel` rounds. `munmap address length n` says whether
-- call number `n` returns 0; the result is the number of calls made and where the loop stands.
unfoldable pub destroy_pool :
    (ℕ → ℕ → ℕ → Bool) → ℕ → ℕ → (ℕ → ProcState) → Option ℕ → ℕ → Outcome (ℕ × Option ℕ)
destroy_pool munmap pstates zero states pstate calls = ok (calls, pstate)
destroy_pool munmap pstates (suc fuel) states none calls = ok (calls, none)
destroy_pool munmap pstates (suc fuel) states (some i) calls = do
  require (munmap (states i).proc_ready 1 calls)
  require (munmap (states i).proc_id 4 (calls + 1))
  require (munmap (states i).proc_mutex 40 (calls + 2))
  require (munmap (states i).proc_cond 48 (calls + 3))
  require (munmap (states i).request rqst_buf_sz (calls + 4))
  require (munmap (pstates + sizeof_proc_state * i) sizeof_proc_state (calls + 5))
  destroy_pool munmap pstates fuel states (states i).next (calls + 6)

-- The destructor, over a pool of `pool_sz` states.
unfoldable pub destroy : (ℕ → ℕ → ℕ → Bool) → ℕ → ProcessPoolLauncher → Outcome (Option ℕ)
destroy munmap pool_sz l = do
  require (munmap l.mgr.num_idle_procs 4 0)
  require (munmap l.mgr.num_idle_procs_mutex 40 1)
  require (munmap l.mgr.num_idle_procs_cond 48 2)
  require (munmap l.mgr.pool_mutex 40 3)
  r ← destroy_pool munmap l.pstates pool_sz l.states l.mgr.pool 4
  require (munmap l.launcher_state 40 r.0)
  ok r.1
