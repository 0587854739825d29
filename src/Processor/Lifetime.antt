-- ===== src/Processor/Lifetime.antt =====
-- a2/src/txn/txn_processor.cc: the constructor, StartScheduler and the destructor of TxnProcessor, with
-- the thread that made the object, the scheduler's thread and the pool's threads in any interleaving.
pub mod Phases
pub mod Alive
pub mod Deleted
pub mod Early
use cmsc_624_spring.Common.{
  ℕ, ◌≡◌, Bool, true, false, ◌&&◌, not, Option, List, [], if◌then◌else◌, ok,
}
use cmsc_624_spring.Txn.{Txn}
use cmsc_624_spring.LockManager.{LockManagerClass}
use cmsc_624_spring.Processor.{
  Processor, CcMode, locking_exclusive_only, locking, mvcc_ssi, new_processor, new_txn_request,
  get_txn_result,
}
use cmsc_624_spring.Processor.Serial.{serial_round}
use cmsc_624_spring.Processor.Locking.{
  System, Step, requests, finishes, hands_out, begins, reads, runs,
}

abbrev pub is_locking : CcMode → Bool
is_locking locking_exclusive_only = true
is_locking locking = true
is_locking _ = false

-- The switch of RunScheduler has no case for MVCC_SSI.
abbrev pub has_case : CcMode → Bool
has_case mvcc_ssi = false
has_case _ = true

-- Where the thread is that makes the object and destroys it: about to create the scheduler's thread, to
-- clear `stopped_`, in between the two calls, and in the destructor about to join, to delete, and to
-- destroy the pool, which is a member.
pub data OwnerAt : Type 0 where
  constructing created running stopping joined deleted destroyed : OwnerAt

pub data SchedulerAt : Type 0 where
  not_created testing in_round returned ended : SchedulerAt

pub record Lifetime : Type 0 where
  pub system : System
  pub stopped : Bool
  pub owner : OwnerAt
  pub scheduler : SchedulerAt
  pub storage_alive : Bool
  pub lm_alive : Bool

-- The constructor up to the creation of the thread. `stopped_` is not initialised: it is `junk`.
unfoldable pub construct : (ℕ → ℕ) → Bool → CcMode → (ℕ → Txn) → Lifetime
construct clock junk mode heap = record {
  system = record { processor = new_processor clock mode heap; queued = []; begun = [] };
  stopped = junk;
  owner = constructing;
  scheduler = not_created;
  storage_alive = true;
  lm_alive = is_locking mode;
}

unfoldable pub create_thread : Lifetime → Lifetime
create_thread l = record l { owner = created; scheduler = testing }

unfoldable pub clear_stopped : Lifetime → Lifetime
clear_stopped l = record l { stopped = false; owner = running }

-- RunScheduler's switch and the condition of the loops.
unfoldable pub test_stopped : CcMode → Lifetime → Lifetime
test_stopped mode l = record l {
  scheduler = if has_case mode && not l.stopped then in_round else returned;
}

unfoldable pub stop : Lifetime → Lifetime
stop l = record l { stopped = true; owner = stopping }

unfoldable pub join_scheduler : Lifetime → Lifetime
join_scheduler l = record l { owner = joined; scheduler = ended }

unfoldable pub delete_objects : CcMode → Lifetime → Lifetime
delete_objects mode l = record l {
  owner = deleted;
  storage_alive = false;
  lm_alive = if is_locking mode then false else l.lm_alive;
}

abbrev set_processor : Processor → Lifetime → Lifetime
set_processor p l = record l { system = record l.system { processor = p } }

-- The steps of the loop in the scheduler's thread; the others are those of the pool's threads.
abbrev pub by_scheduler :
    {c : LockManagerClass} {clock uninit : ℕ → ℕ} {s s' : System} → Step c clock uninit s s' → Bool
by_scheduler (requests txn rest e) = true
by_scheduler (finishes txn rest p' e h) = true
by_scheduler (hands_out txn rest e) = true
by_scheduler (begins before txn after e) = false
by_scheduler (reads before txn key keys after e) = false
by_scheduler (runs before txn after p' e h) = false

pub data Event (mode : CcMode) (c : LockManagerClass) (clock uninit : ℕ → ℕ) (l : Lifetime)
    : Lifetime → Type 0 where
  creates : l.owner ≡ constructing → Event mode c clock uninit l (create_thread l)
  clears : l.owner ≡ created → Event mode c clock uninit l (clear_stopped l)
  submits :
      (txn : ℕ)
      → l.owner ≡ running
      → Event mode c clock uninit l (set_processor (new_txn_request txn l.system.processor) l)
  takes :
      l.owner ≡ running
      → Event mode c clock uninit l (set_processor (get_txn_result l.system.processor).1 l)
  tests : l.scheduler ≡ testing → Event mode c clock uninit l (test_stopped mode l)
  -- A round of the serial scheduler, which the OCC and MVCC schedulers call too.
  serves :
      (p' : Processor)
      → is_locking mode ≡ false
      → l.scheduler ≡ in_round
      → serial_round clock uninit l.system.processor ≡ ok p'
      → Event mode c clock uninit l (record (set_processor p' l) { scheduler = testing })
  -- A part of a round of the locking scheduler, and its end.
  schedules :
      (s' : System) (step : Step c clock uninit l.system s')
      → is_locking mode ≡ true
      → l.scheduler ≡ in_round
      → by_scheduler step ≡ true
      → Event mode c clock uninit l (record l { system = s' })
  ends_round :
      is_locking mode ≡ true
      → l.scheduler ≡ in_round
      → Event mode c clock uninit l (record l { scheduler = testing })
  -- The pool's threads run until they are joined.
  executes :
      (s' : System) (step : Step c clock uninit l.system s')
      → by_scheduler step ≡ false
      → Event mode c clock uninit l (record l { system = s' })
  stops : l.owner ≡ running → Event mode c clock uninit l (stop l)
  joins :
      l.owner ≡ stopping → l.scheduler ≡ returned → Event mode c clock uninit l (join_scheduler l)
  deletes : l.owner ≡ joined → Event mode c clock uninit l (delete_objects mode l)
  destroys :
      l.owner ≡ deleted
      → l.system.queued ≡ []
      → l.system.begun ≡ []
      → Event mode c clock uninit l (record l { owner = destroyed })

pub data Lives (mode : CcMode) (c : LockManagerClass) (clock uninit : ℕ → ℕ) (l : Lifetime)
    : Lifetime → Type 0 where
  still : Lives mode c clock uninit l l
  then_on :
      {l' l'' : Lifetime}
      → Lives mode c clock uninit l l'
      → Event mode c clock uninit l' l''
      → Lives mode c clock uninit l l''
