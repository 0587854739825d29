-- ===== src/Processor/Lifetime/Alive.antt =====
-- The storage and the lock manager are deleted under no step of the scheduler's thread.
use cmsc_624_spring.Common.{ℕ, ◌≡◌, Bool, true, false}
use cmsc_624_spring.Txn.{Txn}
use cmsc_624_spring.LockManager.{LockManagerClass}
use cmsc_624_spring.Processor.{CcMode}
use cmsc_624_spring.Processor.Lifetime.{
  is_locking, in_round, Lifetime, construct, Event, creates, clears, submits, takes, tests, serves,
  schedules, ends_round, executes, stops, joins, deletes, destroys, Lives,
}
use cmsc_624_spring.Processor.Lifetime.Phases.{
  AreAlive, Inv, has_deleted-has_joined, construct-Inv, no_task, not_joined, Lives-Inv,
}

-- The steps that use the storage or the lock manager, and those of them that the scheduler's thread
-- takes.
abbrev pub scheduler_uses :
    {mode : CcMode} {c : LockManagerClass} {clock uninit : ℕ → ℕ} {l l' : Lifetime}
    → Event mode c clock uninit l l'
    → Bool
scheduler_uses (serves p' m at h) = true
scheduler_uses (schedules s' step m at h) = true
scheduler_uses _ = false

abbrev pub uses :
    {mode : CcMode} {c : LockManagerClass} {clock uninit : ℕ → ℕ} {l l' : Lifetime}
    → Event mode c clock uninit l l'
    → Bool
uses (serves p' m at h) = true
uses (schedules s' step m at h) = true
uses (executes s' step h) = true
uses _ = false

in_loop : {mode : CcMode} {l : Lifetime} → Inv mode l → l.scheduler ≡ in_round → AreAlive mode l
in_loop {l = l} inv at =
    inv.objects (has_deleted-has_joined l.owner (not_joined l inv (λ over. absurd (cc (at, over)))))

Uses :
    {mode : CcMode} {c : LockManagerClass} {clock uninit : ℕ → ℕ} {l l' : Lifetime}
    → Event mode c clock uninit l l'
    → Type 0
Uses {mode} {l = l} e =
    (scheduler_uses e ≡ true → AreAlive mode l)
    × (is_locking mode ≡ false → uses e ≡ true → AreAlive mode l)

Event-Uses :
    {mode : CcMode} {c : LockManagerClass} {clock uninit : ℕ → ℕ} {l l' : Lifetime}
    (e : Event mode c clock uninit l l')
    → Inv mode l
    → Uses e
unfolding Uses
Event-Uses (serves p' m at h) inv = (λ u. in_loop inv at, λ other u. in_loop inv at)
Event-Uses (schedules s' step m at h) inv = (λ u. in_loop inv at, λ other u. in_loop inv at)
Event-Uses (executes s' step h) inv =
    (λ u. absurd cc, λ other u. absurd (cc (h, no_task step (inv.idle other).0 (inv.idle other).1)))
Event-Uses (creates at) inv = (λ u. absurd cc, λ other u. absurd cc)
Event-Uses (clears at) inv = (λ u. absurd cc, λ other u. absurd cc)
Event-Uses (submits txn at) inv = (λ u. absurd cc, λ other u. absurd cc)
Event-Uses (takes at) inv = (λ u. absurd cc, λ other u. absurd cc)
Event-Uses (tests at) inv = (λ u. absurd cc, λ other u. absurd cc)
Event-Uses (ends_round m at) inv = (λ u. absurd cc, λ other u. absurd cc)
Event-Uses (stops at) inv = (λ u. absurd cc, λ other u. absurd cc)
Event-Uses (joins at r) inv = (λ u. absurd cc, λ other u. absurd cc)
Event-Uses (deletes at) inv = (λ u. absurd cc, λ other u. absurd cc)
Event-Uses (destroys at q b) inv = (λ u. absurd cc, λ other u. absurd cc)

-- From the constructor of TxnProcessor to the end of its destructor, in every interleaving: whenever
-- the scheduler's thread uses the storage or the lock manager, both are there as the constructor
-- allocated them; and in the modes without locking that holds of every thread.
pub uses-AreAlive :
    {mode : CcMode} {c : LockManagerClass} {clock uninit : ℕ → ℕ} {l l' : Lifetime} (junk : Bool)
    (heap : ℕ → Txn)
    → Lives mode c clock uninit (construct clock junk mode heap) l
    → (e : Event mode c clock uninit l l')
    → (scheduler_uses e ≡ true → AreAlive mode l)
      × (is_locking mode ≡ false → uses e ≡ true → AreAlive mode l)
unfolding Uses
uses-AreAlive {mode} {clock = clock} junk heap r e =
    Event-Uses e (Lives-Inv r (construct-Inv clock junk mode heap))
