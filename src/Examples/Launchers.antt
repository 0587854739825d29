-- ===== src/Examples/Launchers.antt =====
-- A run of the launcher of threads with room for one request.
use cmsc_624_spring.Common.{times, ◌+◌, ◌<◌, ◌≤◌, ◌≡◌, refl, [], arith}
use cmsc_624_spring.Launcher.Thread.{
  Launcher, issue, admit, take, join, link, signal, count, update, executed, returned, ready,
  new_launcher, Step, issues, admits, takes, joins, executes, links, signals, counts, Reach, start,
  next,
}
use cmsc_624_spring.Launcher.Tally.{tally}
use cmsc_624_spring.Launcher.Thread.Invariant.{is_running, waits}
use cmsc_624_spring.Launcher.Thread.Outstanding.{running_bound, overshoot}
use cmsc_624_spring.Launcher.Thread.Reclaim.{held, freed-once}
use cmsc_624_spring.Launcher.Thread.Progress.{caller_steps, steps, progress}

abbrev one_issued : Launcher
one_issued = issue (new_launcher 1)

one_issued-Reach : Reach 1 one_issued
one_issued-Reach = next start (issues refl)

abbrev one_executed : Launcher
one_executed = record one_issued { workers = update one_issued.workers 0 executed }

-- Request 0 has run and counted itself; its thread_arg is in the list, and the launcher still waits.
abbrev one_done : Launcher
one_done = count 0 (signal 0 (link 0 one_executed))

one_done-Reach : Reach 1 one_done
unfolding issue link signal
one_done-Reach =
    next (next (next (next one_issued-Reach (executes 0 refl)) (links 0 refl)) (signals 0 refl))
      (counts 0 refl)

abbrev one_taken : Launcher
one_taken = take (admit one_done)

-- The launcher has joined and freed the thread_arg.
abbrev one_freed : Launcher
one_freed = join 0 [] one_taken

one_freed-Reach : Reach 1 one_freed
unfolding issue link signal count admit take
one_freed-Reach =
    next (next (next one_done-Reach (admits refl (omega arith))) (takes refl))
      (joins 0 [] refl refl)

running_bound_example :
    tally is_running one_issued.issued one_issued.workers ≤ 1 + waits one_issued.caller
running_bound_example = running_bound {max = 1} {l = one_issued} (omega arith) one_issued-Reach

overshoot_example : (l : Launcher) × Reach 3 l × (tally is_running l.issued l.workers ≡ 4)
overshoot_example = overshoot 3

freed-once_example :
    (times 0 one_freed.freed ≤ 1)
    × (0 < times 0 one_freed.freed → one_freed.workers 0 ≡ returned)
    × (0 < times 0 one_freed.freed
        → times 0 one_freed.targ_list + times 0 (held one_freed.caller) ≡ 0)
freed-once_example = freed-once {max = 1} {l = one_freed} 0 (omega arith) one_freed-Reach

executes_one : Step one_issued one_executed
unfolding issue
executes_one = executes 0 refl

one_busy : 0 < caller_steps one_issued.caller + tally steps one_issued.issued one_issued.workers
unfolding issue
one_busy = omega arith

progress_example : (l' : Launcher) × Step one_issued l' × (l'.issued ≡ one_issued.issued)
progress_example = progress {max = 1} {l = one_issued} (omega arith) one_issued-Reach one_busy

abbrev one_left : Launcher
one_left = record one_freed { caller = ready }
