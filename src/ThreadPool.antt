-- ===== src/ThreadPool.antt =====
-- a2/src/utils/static_thread_pool.h: a queue of tasks for each thread. A step is a call of a queue, or
-- what a thread does between two of them.
pub mod Queued
pub mod Tasks
use cmsc_624_spring.Common.{
  ℕ, ◌+◌, ◌*◌, ◌%◌, ◌<◌, ◌≡◌, Bool, true, false, Option, none, some, List, [], ◌∷◌, ltb,
  if◌then◌else◌, update,
}
use cmsc_624_spring.Atomic.Queue
use cmsc_624_spring.Atomic.Queue.{AtomicQueue}

-- Where a thread stands in RunThread.
pub data Runner : Type 0 where
  polling : Runner  -- before PopNonBlocking
  checking : Runner  -- before the test of stopped_
  draining : Runner  -- in the loop that empties its queue
  finished : Runner

-- Tasks are numbers; `run` lists the tasks that were called, `added` those that AddTask has taken.
pub record Pool : Type 0 where
  pub thread_count : ℕ
  pub stopped : Bool
  pub queues : ℕ → AtomicQueue ℕ
  pub runners : ℕ → Runner
  pub sleep_durations : ℕ → ℕ
  pub run : List ℕ
  pub added : List ℕ

abbrev pub new_pool : ℕ → Pool
new_pool thread_count = record {
  thread_count = thread_count;
  stopped = false;
  queues = λ i. Queue.empty;
  runners = λ i. polling;
  sleep_durations = λ i. 1;
  run = [];
  added = [];
}

-- The try of AddTask that succeeds, on the queue that `rand() % thread_count_` chose. The tries before
-- it change nothing.
unfoldable pub add_task : ℕ → ℕ → Pool → Pool
add_task task draw p =
    let i = draw % p.thread_count in
    record p {
      queues = update p.queues i (Queue.push_non_blocking true (p.queues i) task).1;
      added = task ∷ p.added;
    }

unfoldable pub back_off : ℕ → ℕ
back_off sleep_duration = if ltb sleep_duration 32 then sleep_duration * 2 else sleep_duration

unfoldable pub polled : ℕ → Option ℕ × AtomicQueue ℕ → Pool → Pool
unfolding back_off
polled i (some task, queue) p = record p {
  queues = update p.queues i queue;
  runners = update p.runners i checking;
  sleep_durations = update p.sleep_durations i 1;
  run = task ∷ p.run;
}
polled i (none, queue) p = record p {
  queues = update p.queues i queue;
  runners = update p.runners i checking;
  sleep_durations = update p.sleep_durations i (back_off (p.sleep_durations i));
}

-- `free`: whether the queue's lock is.
unfoldable pub poll : Bool → ℕ → Pool → Pool
poll free i p = polled i (Queue.pop_non_blocking free (p.queues i)) p

unfoldable pub check : ℕ → Pool → Pool
check i p = record p { runners = update p.runners i (if p.stopped then draining else polling) }

unfoldable pub drained : ℕ → Option ℕ × AtomicQueue ℕ → Pool → Pool
drained i (some task, queue) p = record p { queues = update p.queues i queue; run = task ∷ p.run }
drained i (none, queue) p = record p {
  queues = update p.queues i queue;
  runners = update p.runners i finished;
}

unfoldable pub drain : ℕ → Pool → Pool
drain i p = drained i (Queue.pop (p.queues i)) p

-- The destructor, up to the joins.
unfoldable pub stop : Pool → Pool
stop p = record p { stopped = true }

-- AddTask asserts that the pool has not stopped.
pub data Step (p : Pool) : Pool → Type 0 where
  adds : (task draw : ℕ) → p.stopped ≡ false → Step p (add_task task draw p)
  polls :
      (free : Bool) (i : ℕ) → i < p.thread_count → p.runners i ≡ polling → Step p (poll free i p)
  checks : (i : ℕ) → i < p.thread_count → p.runners i ≡ checking → Step p (check i p)
  drains : (i : ℕ) → i < p.thread_count → p.runners i ≡ draining → Step p (drain i p)
  stops : Step p (stop p)

pub data Reach (thread_count : ℕ) : Pool → Type 0 where
  start : Reach thread_count (new_pool thread_count)
  next : {p p' : Pool} → Reach thread_count p → Step p p' → Reach thread_count p'
