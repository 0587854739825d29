-- ===== src/Processor/Lifetime/Early.antt =====
-- When the scheduler's thread ends, and what follows when it ends too early.
use cmsc_624_spring.Common.{
  ℕ, ◌≡◌, ◌≢◌, refl, ap, ◌∙◌, sym, Bool, true, false, not, ◌&&◌, [], Outcome, ok, die,
  if◌then◌else◌, arith, update,
}
use cmsc_624_spring.Atomic.Queue
use cmsc_624_spring.Atomic.Queue.{AtomicQueue}
use cmsc_624_spring.Txn.{Txn}
use cmsc_624_spring.Txn.Types
use cmsc_624_spring.LockManager.{LockManagerClass}
use cmsc_624_spring.Processor.{Processor, CcMode, new_processor, new_txn_request, get_txn_result}
use cmsc_624_spring.Processor.Locking.{
  System, Step, requests, finishes, hands_out, begins, reads, runs, begin, read_one, run_task,
}
use cmsc_624_spring.Processor.Lifetime.{
  has_case, OwnerAt, constructing, created, running, SchedulerAt, in_round, returned, ended,
  Lifetime, construct, create_thread, clear_stopped, test_stopped, stop, join_scheduler,
  delete_objects, by_scheduler, Event, creates, clears, submits, takes, tests, serves, schedules,
  ends_round, executes, stops, joins, deletes, destroys, Lives, still, then_on,
}

abbrev is_before_stop : OwnerAt → Bool
is_before_stop constructing = true
is_before_stop created = true
is_before_stop running = true
is_before_stop _ = false

abbrev has_created : OwnerAt → Bool
has_created constructing = false
has_created _ = true

abbrev is_over : SchedulerAt → Bool
is_over returned = true
is_over ended = true
is_over _ = false

-- The thread has not returned before the destructor.
abbrev IsGoing : Lifetime → Type 0
IsGoing l = is_before_stop l.owner ≡ true → (l.stopped ≡ false) × (l.scheduler ≢ returned)

tested :
    (mode : CcMode) (stopped : Bool)
    → has_case mode ≡ true
    → stopped ≡ false
    → (if has_case mode && not stopped then in_round else returned) ≢ returned
tested mode stopped has go h =
    let same : (if has_case mode && not stopped then in_round else returned) ≡ in_round =
      rw has (rw go refl) in
    absurd (cc (same, h))

Event-IsGoing :
    {mode : CcMode} {c : LockManagerClass} {clock uninit : ℕ → ℕ} {l l' : Lifetime}
    → has_case mode ≡ true
    → Event mode c clock uninit l l'
    → IsGoing l
    → IsGoing l'
unfolding create_thread clear_stopped test_stopped stop join_scheduler delete_objects
Event-IsGoing {l = l} has (creates e) inv = λ h. ((inv (ap is_before_stop e)).0, λ r. absurd cc)
Event-IsGoing {l = l} has (clears e) inv = λ h. (refl, (inv (ap is_before_stop e)).1)
Event-IsGoing {l = l} has (submits txn e) inv = inv
Event-IsGoing {l = l} has (takes e) inv = inv
Event-IsGoing {mode} {l = l} has (tests e) inv =
    λ h. ((inv h).0, tested mode l.stopped has (inv h).0)
Event-IsGoing {l = l} has (serves p' m e h) inv = λ h. ((inv h).0, λ r. absurd cc)
Event-IsGoing {l = l} has (schedules s' step m e h) inv = inv
Event-IsGoing {l = l} has (ends_round m e) inv = λ h. ((inv h).0, λ r. absurd cc)
Event-IsGoing {l = l} has (executes s' step h) inv = inv
Event-IsGoing {l = l} has (stops e) inv = λ h. absurd cc
Event-IsGoing {l = l} has (joins e r) inv = λ h. absurd cc
Event-IsGoing {l = l} has (deletes e) inv = λ h. absurd cc
Event-IsGoing {l = l} has (destroys e q b) inv = λ h. absurd cc

Lives-IsGoing :
    {mode : CcMode} {c : LockManagerClass} {clock uninit : ℕ → ℕ} {l l' : Lifetime}
    → has_case mode ≡ true
    → Lives mode c clock uninit l l'
    → IsGoing l
    → IsGoing l'
Lives-IsGoing has still inv = inv
Lives-IsGoing has (then_on r e) inv = Event-IsGoing has e (Lives-IsGoing has r inv)

construct-IsGoing :
    (clock : ℕ → ℕ) (mode : CcMode) (heap : ℕ → Txn) → IsGoing (construct clock false mode heap)
unfolding construct
construct-IsGoing clock mode heap = λ h. (refl, λ r. absurd cc)

run_task_results :
    (txn : ℕ) (p p' : Processor) → run_task txn p ≡ ok p' → p'.txn_results ≡ p.txn_results
unfolding run_task
run_task_results txn p p' ran = by_run (Types.run (p.heap txn)) refl
  where
    by_run : (o : Outcome Txn) → Types.run (p.heap txn) ≡ o → p'.txn_results ≡ p.txn_results
    by_run die h = absurd (ground arith)
    by_run (ok t) h =
        let left : record p {
          heap = update p.heap txn t;
          completed_txns = Queue.push p.completed_txns txn;
        }
            ≡ p' =
          ground arith in
        ap (λ q. q.txn_results) (sym left)

-- The pool's threads hand nothing to the client.
pool_results :
    {c : LockManagerClass} {clock uninit : ℕ → ℕ} {s s' : System} (step : Step c clock uninit s s')
    → by_scheduler step ≡ false
    → s'.processor.txn_results ≡ s.processor.txn_results
unfolding begin read_one
pool_results (requests txn rest e) h = absurd cc
pool_results (finishes txn rest p' e done) h = absurd cc
pool_results (hands_out txn rest e) h = absurd cc
pool_results (begins before txn after e) h = refl
pool_results (reads before txn key keys after e) h = refl
pool_results {s = s} (runs before txn after p' e ran) h = run_task_results txn s.processor p' ran

-- The scheduler's thread is over and nothing waits for the client.
record IsIdle (l : Lifetime) : Type 0 where
  created : has_created l.owner ≡ true
  over : is_over l.scheduler ≡ true
  results : l.system.processor.txn_results.items ≡ []

Event-IsIdle :
    {mode : CcMode} {c : LockManagerClass} {clock uninit : ℕ → ℕ} {l l' : Lifetime}
    → Event mode c clock uninit l l'
    → IsIdle l
    → IsIdle l'
unfolding create_thread clear_stopped test_stopped stop join_scheduler delete_objects
    new_txn_request get_txn_result
Event-IsIdle {l = l} (creates e) inv = absurd (cc (ap has_created e, inv.created))
Event-IsIdle {l = l} (clears e) inv = record {
  created = refl;
  over = inv.over;
  results = inv.results;
}
Event-IsIdle {l = l} (submits txn e) inv = record {
  created = inv.created;
  over = inv.over;
  results = inv.results;
}
Event-IsIdle {l = l} (takes e) inv = record {
  created = inv.created;
  over = inv.over;
  results = ap (λ r. r.1.items) (Queue.pop_empty l.system.processor.txn_results inv.results);
}
Event-IsIdle {l = l} (tests e) inv = absurd (cc (ap is_over e, inv.over))
Event-IsIdle {l = l} (serves p' m e h) inv = absurd (cc (ap is_over e, inv.over))
Event-IsIdle {l = l} (schedules s' step m e h) inv = absurd (cc (ap is_over e, inv.over))
Event-IsIdle {l = l} (ends_round m e) inv = absurd (cc (ap is_over e, inv.over))
Event-IsIdle {l = l} (executes s' step h) inv = record {
  created = inv.created;
  over = inv.over;
  results = ap (λ q. q.items) (pool_results step h) ∙ inv.results;
}
Event-IsIdle {l = l} (stops e) inv = record {
  created = refl;
  over = inv.over;
  results = inv.results;
}
Event-IsIdle {l = l} (joins e r) inv = record { created = refl; over = refl; results = inv.results }
Event-IsIdle {l = l} (deletes e) inv = record {
  created = refl;
  over = inv.over;
  results = inv.results;
}
Event-IsIdle {l = l} (destroys e q b) inv = record {
  created = refl;
  over = inv.over;
  results = inv.results;
}

Lives-IsIdle :
    {mode : CcMode} {c : LockManagerClass} {clock uninit : ℕ → ℕ} {l l' : Lifetime}
    → Lives mode c clock uninit l l'
    → IsIdle l
    → IsIdle l'
Lives-IsIdle still inv = inv
Lives-IsIdle (then_on r e) inv = Event-IsIdle e (Lives-IsIdle r inv)

-- `stopped_` is cleared only after the scheduler's thread is created. In the modes that have a
-- scheduler: where the uninitialised member reads as false, the thread never returns before the
-- destructor is called; where it reads as true, the constructor can end with the thread returned, and
-- then, whatever is requested, no result ever gets to the client.
pub ends_early :
    (c : LockManagerClass) (clock uninit : ℕ → ℕ) (mode : CcMode) (heap : ℕ → Txn)
    → has_case mode ≡ true
    → ((l : Lifetime)
        → Lives mode c clock uninit (construct clock false mode heap) l
        → l.owner ≡ running
        → l.scheduler ≢ returned)
      × ((l : Lifetime) × Lives mode c clock uninit (construct clock true mode heap) l
          × (l.owner ≡ running)
          × (l.scheduler ≡ returned)
          × ((l' : Lifetime)
              → Lives mode c clock uninit l l'
              → l'.system.processor.txn_results.items ≡ []))
unfolding construct create_thread clear_stopped test_stopped new_processor
ends_early c clock uninit mode heap has = (
  λ l r at. (Lives-IsGoing has r (construct-IsGoing clock mode heap) (ap is_before_stop at)).1,
  (
    _,
    then_on (then_on (then_on still (creates refl)) (tests refl)) (clears refl),
    refl,
    rw has refl,
    λ l' r.
        (Lives-IsIdle r (record { created = refl; over = rw has refl; results = refl })).results,
  ),
)
