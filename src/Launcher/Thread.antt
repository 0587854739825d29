-- ===== src/Launcher/Thread.antt =====
-- a1/src/launcher/thread_launcher.h, thread_launcher.cc: a thread for each request, interleaved in any
-- order. A step is a critical section, or what happens between two of them.
pub mod Invariant
pub mod Outstanding
pub mod Reclaim
pub mod Progress
pub mod Drained
pub mod Destroyed
pub use cmsc_624_spring.Common.{update}
use cmsc_624_spring.Common.{
  ℕ, suc, ◌+◌, ◌-◌, ◌%◌, ◌^◌, ◌<◌, ◌≡◌, Bool, true, false, List, [], ◌∷◌, ◌==◌, if◌then◌else◌,
}
use cmsc_624_spring.Launcher.{Counters, new_counters, incr_done_txns, execute_request}

-- Where the thread of a request stands in ExecutorFunc.
pub data Worker : Type 0 where
  absent : Worker  -- not created
  running : Worker  -- up to the return of `req->Execute()`
  executed : Worker  -- before it links its thread_arg into targ_list_
  linked : Worker  -- before it increments max_outstanding_
  signalled : Worker  -- before it increments txns_executed_
  returned : Worker

-- Where the launcher's thread stands in ExecuteRequest.
pub data Caller : Type 0 where
  ready : Caller  -- outside
  waiting : Caller  -- the thread is created; the loop on max_outstanding_
  taking : Caller  -- before it takes targ_list_
  joining : List ℕ → Caller  -- the loop that joins and frees the thread_args it has taken

-- Requests, their threads and their thread_args go by the number of the request. `issued` counts the
-- calls of ExecuteRequest, and `freed` lists the thread_args that were freed.
pub record Launcher : Type 0 where
  pub counters : Counters
  pub max_outstanding : ℕ  -- uint32
  pub targ_list : List ℕ
  pub caller : Caller
  pub workers : ℕ → Worker
  pub issued : ℕ
  pub freed : List ℕ

-- The constructor.
abbrev pub new_launcher : ℕ → Launcher
new_launcher max_outstanding = record {
  counters = new_counters;
  max_outstanding = max_outstanding;
  targ_list = [];
  caller = ready;
  workers = λ i. absent;
  issued = 0;
  freed = [];
}

unfoldable pub issue : Launcher → Launcher
issue l = record l {
  counters = execute_request l.counters;
  caller = waiting;
  workers = update l.workers l.issued running;
  issued = suc l.issued;
}

unfoldable pub admit : Launcher → Launcher
admit l = record l { max_outstanding = l.max_outstanding - 1; caller = taking }

unfoldable pub take : Launcher → Launcher
take l = record l { targ_list = []; caller = joining l.targ_list }

unfoldable pub join : ℕ → List ℕ → Launcher → Launcher
join i rest l = record l { caller = joining rest; freed = i ∷ l.freed }

unfoldable pub link : ℕ → Launcher → Launcher
link i l = record l { workers = update l.workers i linked; targ_list = i ∷ l.targ_list }

unfoldable pub signal : ℕ → Launcher → Launcher
signal i l = record l {
  workers = update l.workers i signalled;
  max_outstanding = (l.max_outstanding + 1) % 2 ^ 32;
}

unfoldable pub count : ℕ → Launcher → Launcher
count i l = record l { workers = update l.workers i returned; counters = incr_done_txns l.counters }

-- The destructor: the threads that its loop joins, one after another, and what it leaves of the list.
-- It frees nothing.
unfoldable pub destroy : Launcher → List ℕ × Launcher
destroy l = (l.targ_list, record l { targ_list = [] })

pub data Step (l : Launcher) : Launcher → Type 0 where
  issues : l.caller ≡ ready → Step l (issue l)
  admits : l.caller ≡ waiting → 0 < l.max_outstanding → Step l (admit l)
  takes : l.caller ≡ taking → Step l (take l)
  joins :
      (i : ℕ) (rest : List ℕ)
      → l.caller ≡ joining (i ∷ rest)
      → l.workers i ≡ returned
      → Step l (join i rest l)
  leaves : l.caller ≡ joining [] → Step l (record l { caller = ready })
  executes :
      (i : ℕ) → l.workers i ≡ running → Step l (record l { workers = update l.workers i executed })
  links : (i : ℕ) → l.workers i ≡ executed → Step l (link i l)
  signals : (i : ℕ) → l.workers i ≡ linked → Step l (signal i l)
  counts : (i : ℕ) → l.workers i ≡ signalled → Step l (count i l)

-- The states of a launcher made with that limit.
pub data Reach (max : ℕ) : Launcher → Type 0 where
  start : Reach max (new_launcher max)
  next : {l l' : Launcher} → Reach max l → Step l l' → Reach max l'
