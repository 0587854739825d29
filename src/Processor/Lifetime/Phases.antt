-- ===== src/Processor/Lifetime/Phases.antt =====
-- What each phase of a TxnProcessor's life leaves in place, from its constructor to its destructor.
use cmsc_624_spring.Common.{
  ℕ, ◌≡◌, ◌≢◌, inl, inr, refl, ap, ◌∙◌, sym, Bool, Bool-cases, true, false, List, [], ◌∷◌, ◌++◌,
  if◌then◌else◌,
}
use cmsc_624_spring.Txn.{Txn}
use cmsc_624_spring.LockManager.{LockManagerClass}
use cmsc_624_spring.Processor.{CcMode}
use cmsc_624_spring.Processor.Locking.{
  System, Step, requests, finishes, hands_out, begins, reads, runs,
}
use cmsc_624_spring.Processor.Lifetime.{
  is_locking, OwnerAt, constructing, created, running, stopping, joined, deleted, destroyed,
  SchedulerAt, testing, in_round, returned, ended, Lifetime, construct, create_thread,
  clear_stopped, test_stopped, stop, join_scheduler, delete_objects, by_scheduler, Event, creates,
  clears, submits, takes, tests, serves, schedules, ends_round, executes, stops, joins, deletes,
  destroys, Lives, still, then_on,
}

abbrev pub has_joined : OwnerAt → Bool
has_joined joined = true
has_joined deleted = true
has_joined destroyed = true
has_joined _ = false

abbrev pub has_deleted : OwnerAt → Bool
has_deleted deleted = true
has_deleted destroyed = true
has_deleted _ = false

abbrev pub is_up : OwnerAt → Bool
is_up created = true
is_up running = true
is_up _ = false

abbrev pub is_going : SchedulerAt → Bool
is_going testing = true
is_going in_round = true
is_going returned = true
is_going _ = false

-- What the constructor allocated is there.
abbrev pub AreAlive : CcMode → Lifetime → Type 0
AreAlive mode l = (l.storage_alive ≡ true) × (l.lm_alive ≡ is_locking mode)

pub record Inv (mode : CcMode) (l : Lifetime) : Type 0 where
  pub objects : has_deleted l.owner ≡ false → AreAlive mode l
  pub waited : has_joined l.owner ≡ true → l.scheduler ≡ ended
  pub going : is_up l.owner ≡ true → is_going l.scheduler ≡ true
  pub idle : is_locking mode ≡ false → (l.system.queued ≡ []) × (l.system.begun ≡ [])

pub has_deleted-has_joined : (o : OwnerAt) → has_joined o ≡ false → has_deleted o ≡ false
has_deleted-has_joined constructing h = refl
has_deleted-has_joined created h = refl
has_deleted-has_joined running h = refl
has_deleted-has_joined stopping h = refl
has_deleted-has_joined joined h = absurd cc
has_deleted-has_joined deleted h = absurd cc
has_deleted-has_joined destroyed h = absurd cc

pub construct-Inv :
    (clock : ℕ → ℕ) (junk : Bool) (mode : CcMode) (heap : ℕ → Txn)
    → Inv mode (construct clock junk mode heap)
unfolding construct
construct-Inv clock junk mode heap = record {
  objects = λ h. (refl, refl);
  waited = λ h. absurd cc;
  going = λ h. absurd cc;
  idle = λ h. (refl, refl);
}

not_empty : {A : Type 0} (xs : List A) (y : A) (ys : List A) → xs ++ y ∷ ys ≢ []
not_empty [] y ys h = absurd cc
not_empty (x ∷ xs) y ys h = absurd cc

-- Without a task the pool's threads take no step.
pub no_task :
    {c : LockManagerClass} {clock uninit : ℕ → ℕ} {s s' : System} (step : Step c clock uninit s s')
    → s.queued ≡ []
    → s.begun ≡ []
    → by_scheduler step ≡ true
no_task (requests txn rest e) queued begun = refl
no_task (finishes txn rest p' e h) queued begun = refl
no_task (hands_out txn rest e) queued begun = refl
no_task (begins before txn after e) queued begun =
    absurd (not_empty before txn after (sym e ∙ queued))
no_task (reads before txn key keys after e) queued begun =
    absurd (not_empty before _ after (sym e ∙ begun))
no_task (runs before txn after p' e h) queued begun =
    absurd (not_empty before _ after (sym e ∙ begun))

-- The scheduler's thread is in its loop: it has not been joined.
pub not_joined :
    {mode : CcMode} (l : Lifetime) → Inv mode l → l.scheduler ≢ ended → has_joined l.owner ≡ false
not_joined l inv at = elim (Bool-cases (has_joined l.owner)) [
  | inl over ↦ absurd (at (inv.waited over))
  | inr goes_on ↦ goes_on
]

tested_going : (b : Bool) → is_going (if b then in_round else returned) ≡ true
tested_going true = refl
tested_going false = refl

Event-Inv :
    {mode : CcMode} {c : LockManagerClass} {clock uninit : ℕ → ℕ} {l l' : Lifetime}
    → Event mode c clock uninit l l'
    → Inv mode l
    → Inv mode l'
unfolding create_thread clear_stopped test_stopped stop join_scheduler delete_objects
Event-Inv {l = l} (creates e) inv = record {
  objects = λ h. inv.objects (ap has_deleted e);
  waited = λ h. absurd cc;
  going = λ h. refl;
  idle = inv.idle;
}
Event-Inv {l = l} (clears e) inv = record {
  objects = λ h. inv.objects (ap has_deleted e);
  waited = λ h. absurd cc;
  going = λ h. inv.going (ap is_up e);
  idle = inv.idle;
}
Event-Inv (submits txn e) inv = record {
  objects = inv.objects;
  waited = inv.waited;
  going = inv.going;
  idle = inv.idle;
}
Event-Inv (takes e) inv = record {
  objects = inv.objects;
  waited = inv.waited;
  going = inv.going;
  idle = inv.idle;
}
Event-Inv (tests e) inv = record {
  objects = inv.objects;
  waited = λ h. absurd (cc (e, inv.waited h));
  going = λ h. tested_going _;
  idle = inv.idle;
}
Event-Inv (serves p' m e h) inv = record {
  objects = inv.objects;
  waited = λ over. absurd (cc (e, inv.waited over));
  going = λ h. refl;
  idle = inv.idle;
}
Event-Inv (schedules s' step m e h) inv = record {
  objects = inv.objects;
  waited = inv.waited;
  going = inv.going;
  idle = λ other. absurd (cc (m, other));
}
Event-Inv (ends_round m e) inv = record {
  objects = inv.objects;
  waited = λ over. absurd (cc (e, inv.waited over));
  going = λ h. refl;
  idle = inv.idle;
}
Event-Inv (executes s' step h) inv = record {
  objects = inv.objects;
  waited = inv.waited;
  going = inv.going;
  idle = λ other. absurd (cc (h, no_task step (inv.idle other).0 (inv.idle other).1));
}
Event-Inv (stops e) inv = record {
  objects = λ h. inv.objects (ap has_deleted e);
  waited = λ h. absurd cc;
  going = λ h. absurd cc;
  idle = inv.idle;
}
Event-Inv (joins e r) inv = record {
  objects = λ h. inv.objects (ap has_deleted e);
  waited = λ h. refl;
  going = λ h. absurd cc;
  idle = inv.idle;
}
Event-Inv (deletes e) inv = record {
  objects = λ h. absurd cc;
  waited = λ h. inv.waited (ap has_joined e);
  going = λ h. absurd cc;
  idle = inv.idle;
}
Event-Inv (destroys e q b) inv = record {
  objects = λ h. absurd cc;
  waited = λ h. inv.waited (ap has_joined e);
  going = λ h. absurd cc;
  idle = inv.idle;
}

pub Lives-Inv :
    {mode : CcMode} {c : LockManagerClass} {clock uninit : ℕ → ℕ} {l l' : Lifetime}
    → Lives mode c clock uninit l l'
    → Inv mode l
    → Inv mode l'
Lives-Inv still inv = inv
Lives-Inv (then_on r e) inv = Event-Inv e (Lives-Inv r inv)
