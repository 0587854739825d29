-- ===== src/Launcher/ThreadPool.antt =====
-- a1/src/launcher/thread_pool_launcher.h, thread_pool_launcher.cc: a pool of threads. The constructor,
-- ExecuteRequest and the threads stop at the `assert(false)` of the handed-out stubs.
pub mod Free
pub mod Destroy
use cmsc_624_spring.Common.{
  ℕ, zero, suc, ◌+◌, ◌-◌, ◌==◌, ◌≡◌, Bool, true, false, Option, none, some, Outcome, ok, die, ◌>>=◌,
  ◌>>◌, require, ltb, update,
}
use cmsc_624_spring.Launcher.{Counters, new_counters, incr_done_txns}
use cmsc_624_spring.Launcher
use cmsc_624_spring.Common.{ℤ, pos, negsuc}
use cmsc_624_spring.Database.{Database}
use cmsc_624_spring.Request.{Request}
use cmsc_624_spring.Request

-- The fields of a thread_state that differ between threads or change; the others point at members of
-- the launcher. States go by their index in the array, and `next_` is NULL or an index.
pub record ThreadState : Type 0 where
  pub req : Option Request
  pub thread_ready : Bool
  pub thread_id : ℕ
  pub next : Option ℕ

pub record ThreadPoolLauncher : Type 0 where
  pub counters : Counters
  pub pool_sz : ℕ
  pub pool : Option ℕ
  pub states : ℕ → ThreadState

-- The body of the loop that initialises the states; `thread_id i` is what malloc returns.
abbrev pub new_state : (ℕ → ℕ) → ℕ → ThreadState
new_state thread_id i = record {
  req = none;
  thread_ready = false;
  thread_id = thread_id i;
  next = some (i + 1);
}

-- The loop, with `n` states left from state `i`.
unfoldable pub init_states : (ℕ → ℕ) → ℕ → ℕ → (ℕ → ThreadState) → ℕ → ThreadState
init_states thread_id zero i states = states
init_states thread_id (suc n) i states =
    init_states thread_id n (i + 1) (update states i (new_state thread_id i))

-- And `states[i - 1].next_ = NULL;` after it.
unfoldable pub link_states : (ℕ → ℕ) → ℕ → (ℕ → ThreadState) → ℕ → ThreadState
link_states thread_id pool_sz states =
    let filled = init_states thread_id pool_sz 0 states in
    update filled (pool_sz - 1) (record (filled (pool_sz - 1)) { next = none })

-- The constructor; `states` is what malloc returns.
unfoldable pub new_launcher : (ℕ → ℕ) → (ℕ → ThreadState) → ℤ → Outcome ThreadPoolLauncher
new_launcher thread_id states (negsuc n) = die
new_launcher thread_id states (pos pool_sz) = do
  require (ltb 0 pool_sz)
  require false
  let made : ThreadPoolLauncher = record {
    counters = new_counters;
    pool_sz = pool_sz;
    pool = some 0;
    states = link_states thread_id pool_sz states;
  } in
      require false >> ok made

unfoldable pub execute_request : ThreadPoolLauncher → Outcome ThreadPoolLauncher
execute_request l =
    let counted = record l { counters = Launcher.execute_request l.counters } in
    require false >> ok counted

-- A round of ExecutorFunc's loop, on the request that the state points at.
unfoldable pub executor_round :
    Request → Counters → (ℕ → Database) → Outcome (Counters × (ℕ → Database))
executor_round req c dbs = do
  require false
  dbs' ← Request.execute req dbs
  require false
  ok (incr_done_txns c, dbs')

-- The addresses of the members that the destructor gives to munmap, in an object at `this`.
abbrev pub num_idle_threads_mutex_at : ℕ → ℕ
num_idle_threads_mutex_at this = this + 40

abbrev pub num_idle_threads_cond_at : ℕ → ℕ
num_idle_threads_cond_at this = this + 80

abbrev pub pool_mutex_at : ℕ → ℕ
pool_mutex_at this = this + 128

abbrev pub sizeof_mutex : ℕ
sizeof_mutex = 40

abbrev pub sizeof_cond : ℕ
sizeof_cond = 48

-- The calls of munmap that stand before the destructor's loop and in it. `munmap addr length n` says
-- whether call number `n` returns 0; the result is the number of calls made.
unfoldable pub destroy_members : (ℕ → ℕ → ℕ → Bool) → ℕ → ℕ → Outcome ℕ
destroy_members munmap this calls = do
  require (munmap (num_idle_threads_mutex_at this) sizeof_mutex calls)
  require (munmap (num_idle_threads_cond_at this) sizeof_cond (calls + 1))
  require (munmap (pool_mutex_at this) sizeof_mutex (calls + 2))
  ok (calls + 3)

-- The loop over the pool, with `fuel` rounds; pthread_join of a thread of the pool waits for its end.
unfoldable pub destroy_pool :
    (ℕ → ℕ → ℕ → Bool) → ℕ → ℕ → (ℕ → ThreadState) → Option ℕ → ℕ → Outcome (Option ℕ)
destroy_pool munmap this zero states pool calls = ok pool
destroy_pool munmap this (suc fuel) states none calls = ok none
destroy_pool munmap this (suc fuel) states (some i) calls =
    destroy_members munmap this calls >>= λ calls'.
    destroy_pool munmap this fuel states (states i).next calls'

-- The destructor; the array holds `pool_sz` states, so that many rounds reach the end of the list.
unfoldable pub destroy : (ℕ → ℕ → ℕ → Bool) → ℕ → ThreadPoolLauncher → Outcome (Option ℕ)
destroy munmap this l = do
  calls ← destroy_members munmap this 0
  destroy_pool munmap this l.pool_sz l.states l.pool calls
