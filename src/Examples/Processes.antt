-- ===== src/Examples/Processes.antt =====
-- The launcher of processes with room for one request, and the choice of a launcher.
use cmsc_624_spring.Common.{
  ℕ, ◌<◌, ◌≡◌, ◌↔◌, ◌⊎◌, refl, true, false, none, some, ok, arith, pos, update,
}
use cmsc_624_spring.Launcher.{new_counters, none_outstanding, execute_request, incr_done_txns}
use cmsc_624_spring.Launcher.Process
use cmsc_624_spring.Launcher.Process.{
  ProcessLauncher, made, new_launcher, running, executed, count, Reach, start, next, issues,
  executes, counts, int_max,
}
use cmsc_624_spring.Launcher.Process.Invariant.{is_counted, none_outstanding-executed}
use cmsc_624_spring.Launcher.Process.Unbounded.{is_running, outstanding_unbounded}
use cmsc_624_spring.Launcher.Tally.{tally}
use cmsc_624_spring.Examples.Copies.{no_states}
use cmsc_624_spring.Config.{ExptConfig, process, thread}
use cmsc_624_spring.Driver.Experiment.{Given, AnyLauncher, make_launcher, member, make_launcher_iff}

abbrev issued : ProcessLauncher
issued = record (made 1) {
  counters = execute_request new_counters;
  children = update (made 1).children 0 running;
  issued = 1;
}

abbrev child_done : ProcessLauncher
child_done = count 0 (record issued { children = update issued.children 0 executed })

child_done-Reach : Reach (pos 1) child_done
unfolding new_launcher Process.execute_request
child_done-Reach =
    next (next (next (start (made 1) refl) (issues issued refl)) (executes 0 refl)) (counts 0 refl)

none_outstanding-executed_example : is_counted (child_done.children 0) ≡ 1
unfolding count none_outstanding incr_done_txns execute_request
none_outstanding-executed_example =
    none_outstanding-executed {max = pos 1} {l = child_done} child_done-Reach (omega arith) refl 0
      (omega arith)

outstanding_unbounded_example :
    (l : ProcessLauncher) × Reach (pos 1) l
    × (l.issued ≡ 5)
    × (tally is_running l.issued l.children ≡ 5)
    × (l.max_outstanding ≡ 1)
outstanding_unbounded_example = outstanding_unbounded 1 5 (omega arith) (omega arith)

abbrev given : Given
given = record {
  unset = pos 0;
  thread_id = λ i. 0;
  thread_states = λ i. record { req = none; thread_ready = false; thread_id = 0; next = none };
  mmap = λ i. 4096;
  proc_states = no_states;
  mgr = record {
    num_idle_procs = 0;
    num_idle_procs_mutex = 0;
    num_idle_procs_cond = 0;
    pool_mutex = 0;
    pool = none;
  };
}

abbrev four_processes : ExptConfig
four_processes = record {
  max_outstanding = some (pos 4);
  pool_size = none;
  type = process;
  test = false;
  contention = true;
}

make_launcher_iff_example : ((l : AnyLauncher) × (make_launcher given four_processes ≡ ok l)) ↔ (
    (process ≡ thread)
    ⊎ ((process ≡ process)
        × ((n : ℕ) × (member given.unset (some (pos 4)) ≡ pos n) × (0 < n) × (n < int_max))))
make_launcher_iff_example = make_launcher_iff given four_processes
