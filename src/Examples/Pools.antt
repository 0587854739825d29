-- ===== src/Examples/Pools.antt =====
-- A run of the thread pool of a2, and command lines of a1.
use cmsc_624_spring.Common.{ℕ, ◌≡◌, refl, true, false, none, some, List, [], ◌∷◌, find, put}
use cmsc_624_spring.Atomic.Queue
use cmsc_624_spring.ThreadPool.{Pool, new_pool, add_task, poll, check, stop}
use cmsc_624_spring.Config.{
  pos, ExptConfig, thread, Found, done, expt_config, init_config, init_sizes, read_args,
}

-- Task 8 goes to thread 1 of two; a try finds its queue locked, and the thread runs the task after the
-- stop.
abbrev two_threads : Pool
two_threads = stop (check 1 (poll false 1 (add_task 8 5 (new_pool 2))))

-- `--exp_type 3 --max_outstanding 16 --test`, with numbers for the texts.
abbrev command_line : List (Found ℕ)
command_line =
    record { index = some 2; optarg = 3 }
    ∷ record { index = some 0; optarg = 16 }
    ∷ record { index = some 3; optarg = 0 }
    ∷ []

abbrev sixteen_threads : ExptConfig
sixteen_threads = record {
  max_outstanding = some (pos 16);
  pool_size = none;
  type = thread;
  test = true;
  contention = false;
}

command_line_done : expt_config pos command_line ≡ done sixteen_threads
unfolding expt_config init_config init_sizes read_args find put
command_line_done = refl
