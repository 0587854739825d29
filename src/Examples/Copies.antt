-- ===== src/Examples/Copies.antt =====
-- a1/src/txn/request.cc and process_pool_launcher.cc: a request that is copied into the buffer of a
-- process.
use cmsc_624_spring.Common.{
  ℕ, ◌+◌, ◌%◌, ◌^◌, ◌<◌, ◌≤◌, ◌≡◌, ◌≢◌, ◌⊎◌, inl, Bool, ok, arith, if◌then◌else◌, ◌==◌, some, none,
}
use cmsc_624_spring.Database.{Database, nfields}
use cmsc_624_spring.Database.Word.{Bytes, read_word}
use cmsc_624_spring.Request.{execute}
use cmsc_624_spring.Request.Copy.{request_at, num_writes, read_half, copy_size, copy_request}
use cmsc_624_spring.Request.Copy.Bytes.{Same, Apart}
use cmsc_624_spring.Request.Copy.Layout.{HasRoom}
use cmsc_624_spring.Request.Copy.Runs.{copy_request-execute}
use cmsc_624_spring.Launcher.{new_counters}
use cmsc_624_spring.Launcher.ProcessPool.{
  ProcState, ProcessPoolLauncher, req_bufs_size, request_buf, rqst_buf_sz, link_states,
}
use cmsc_624_spring.Launcher.ProcessPool.Buffers.{buffers_hold}

-- A request at address 100 with one write; its writeset is at 200 and its updates are at 300.
abbrev memory : Bytes
memory j =
    if j == 112
    then 1
    else if j == 116
    then 200
    else if j == 124
    then 44
    else if j == 125
    then 1
    else if j == 200
    then 3
    else 0

memory_room : HasRoom 1000 100 memory
unfolding read_word read_half
memory_room = record {
  below = omega arith;
  object = inl (omega arith);
  writeset = inl (omega arith);
  updates = inl (omega arith);
}

memory_few : num_writes 100 memory + nfields < 2 ^ 32
unfolding read_half
memory_few = omega arith

copy_request-execute_example :
    (b' : Bytes) × (copy_request 1000 100 memory ≡ ok b')
    × ((j : ℕ) → (j < 1000) ⊎ (1000 + copy_size 100 memory ≤ j) → b' j ≡ memory j)
    × ((b'' : Bytes)
        → Same b'' 1000 b' 1000 (copy_size 100 memory)
        → (dbs : ℕ → Database)
        → execute (request_at 1000 b'') dbs ≡ execute (request_at 100 memory) dbs)
copy_request-execute_example = copy_request-execute 1000 100 memory memory_room memory_few

one_write : num_writes 100 memory ≤ 114
unfolding read_half
one_write = omega arith

buffers_hold_example :
    (request_buf 4096 2 + copy_size 100 memory ≤ 4096 + req_bufs_size 3)
    × ((j : ℕ)
        → j < 3
        → j ≢ 2
        → Apart (request_buf 4096 2) (copy_size 100 memory) (request_buf 4096 j) rqst_buf_sz)
buffers_hold_example = buffers_hold 4096 3 2 100 memory (omega arith) (omega arith) one_write

abbrev pub no_states : ℕ → ProcState
no_states i = record {
  request = 0;
  proc_ready = 0;
  proc_id = 0;
  proc_mutex = 0;
  proc_cond = 0;
  next = none;
}

-- munmap with pages of 4096 bytes.
abbrev munmap : ℕ → ℕ → ℕ → Bool
munmap address length calls = address % 4096 == 0

abbrev pool_of_three : ProcessPoolLauncher
pool_of_three = record {
  counters = new_counters;
  launcher_state = 0;
  mgr = record {
    num_idle_procs = 0;
    num_idle_procs_mutex = 0;
    num_idle_procs_cond = 0;
    pool_mutex = 0;
    pool = some 0;
  };
  pstates = 8192;
  states = link_states 4096 3 no_states;
}
