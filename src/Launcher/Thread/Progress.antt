-- ===== src/Launcher/Thread/Progress.antt =====
-- The work that the calls of ExecuteRequest leave, and the threads that can do it.
use cmsc_624_spring.Common.{times, ℕ, ◌+◌, ◌^◌, ◌<◌, ◌≡◌, refl, List, [], ◌∷◌, length, arith}
use native.Mathlib.Decide.{dec_lt}
use cmsc_624_spring.Launcher.Thread.{
  Worker, absent, running, executed, linked, signalled, returned, Caller, ready, waiting, taking,
  joining, Launcher, issue, admit, take, join, link, signal, count, Step, issues, admits, takes,
  joins, leaves, executes, links, signals, counts, Reach,
}
use cmsc_624_spring.Launcher.Tally.{tally, tally-update, tally-pos}
use cmsc_624_spring.Launcher.Thread.Invariant.{holds_slot, known_at, Reach-Inv}
use cmsc_624_spring.Launcher.Thread.Reclaim.{has_linked, Owned, Reach-Owned}

-- The steps of a worker, a link counting for two because it adds to the list that the launcher frees.
abbrev pub steps : Worker → ℕ
steps running = 5
steps executed = 4
steps linked = 2
steps signalled = 1
steps _ = 0

abbrev pub caller_steps : Caller → ℕ
caller_steps ready = 0
caller_steps waiting = 3
caller_steps taking = 2
caller_steps (joining rest) = 1 + length rest

-- What there is left to do for the requests that were issued.
unfoldable pub left : Launcher → ℕ
left l = tally steps l.issued l.workers + caller_steps l.caller + length l.targ_list

-- Every step but a new call of ExecuteRequest takes away from what is left, so that in whatever order
-- they are scheduled only finitely many of them follow a call.
pub Step-left :
    {max : ℕ} {l l' : Launcher}
    → max + 1 < 2 ^ 32
    → Reach max l
    → Step l l'
    → l'.issued ≡ l.issued
    → left l' < left l
unfolding left issue admit take join link signal count
Step-left small r (issues e) same = absurd (omega (arith, same))
Step-left small r (admits e free) same = ground arith
Step-left small r (takes e) same = ground arith
Step-left small r (joins i rest e h) same = ground arith
Step-left small r (leaves e) same = ground arith
Step-left {l = l} small r (executes i e) same =
    let lt = known_at small (Reach-Inv small r) i running e (λ q. cc) in
    ground (arith, tally-update steps l.issued i l.workers executed lt)
Step-left {l = l} small r (links i e) same =
    let lt = known_at small (Reach-Inv small r) i executed e (λ q. cc) in
    ground (arith, tally-update steps l.issued i l.workers linked lt)
Step-left {l = l} small r (signals i e) same =
    let lt = known_at small (Reach-Inv small r) i linked e (λ q. cc) in
    ground (arith, tally-update steps l.issued i l.workers signalled lt)
Step-left {l = l} small r (counts i e) same =
    let lt = known_at small (Reach-Inv small r) i signalled e (λ q. cc) in
    ground (arith, tally-update steps l.issued i l.workers returned lt)

-- A step that issues nothing.
abbrev Works : Launcher → Type 0
Works l = (l' : Launcher) × Step l l' × (l'.issued ≡ l.issued)

Works-at : (l : Launcher) (i : ℕ) (w : Worker) → l.workers i ≡ w → 0 < steps w → Works l
unfolding link signal count
Works-at l i absent e h = absurd (omega arith)
Works-at l i running e h = (_, executes i e, refl)
Works-at l i executed e h = (_, links i e, refl)
Works-at l i linked e h = (_, signals i e, refl)
Works-at l i signalled e h = (_, counts i e, refl)
Works-at l i returned e h = absurd (omega arith)

slot-Works : (l : Launcher) (i : ℕ) → 0 < holds_slot (l.workers i) → Works l
slot-Works l i h = Works-at l i (l.workers i) refl (at (l.workers i) h)
  where
    at : (w : Worker) → 0 < holds_slot w → 0 < steps w
    at absent h = absurd (omega arith)
    at running h = omega arith
    at executed h = omega arith
    at linked h = omega arith
    at signalled h = absurd (omega arith)
    at returned h = absurd (omega arith)

join-Works :
    (l : Launcher) (i : ℕ) (rest : List ℕ) → Owned l → l.caller ≡ joining (i ∷ rest) → Works l
unfolding join times
join-Works l i rest o e = at (l.workers i) refl
  where
    has : 0 < has_linked (l.workers i)
    has = ground (arith, o.once i)

    at : (w : Worker) → l.workers i ≡ w → Works l
    at absent q = absurd (ground (arith, has))
    at running q = absurd (ground (arith, has))
    at executed q = absurd (ground (arith, has))
    at linked q = Works-at l i linked q (omega arith)
    at signalled q = Works-at l i signalled q (omega arith)
    at returned q = (_, joins i rest e q, refl)

caller-Works :
    {max : ℕ} {l : Launcher}
    → max + 1 < 2 ^ 32
    → Reach max l
    → (c : Caller) → l.caller ≡ c
    → 0 < caller_steps c
    → Works l
unfolding admit take
caller-Works small r ready e h = absurd (omega arith)
caller-Works {max} {l} small r waiting e h = elim (dec_lt 0 l.max_outstanding) [
  | yes free ↦ (_, admits e free, refl)
  | no full ↦
      let inv = Reach-Inv small r in
      let (i, lt, holds) = tally-pos holds_slot l.issued l.workers (ground (arith, inv.slots)) in
      slot-Works l i holds
]
caller-Works small r taking e h = (_, takes e, refl)
caller-Works small r (joining []) e h = (_, leaves e, refl)
caller-Works {l = l} small r (joining (i ∷ rest)) e h = join-Works l i rest (Reach-Owned small r) e

-- No deadlock: at a launcher with a limit below 2^32 - 1, even a limit of zero, as long as ExecuteRequest has not
-- come back or a thread has not returned, some thread can take a step other than a new call.
pub progress :
    {max : ℕ} {l : Launcher}
    → max + 1 < 2 ^ 32
    → Reach max l
    → 0 < caller_steps l.caller + tally steps l.issued l.workers
    → (l' : Launcher) × Step l l' × (l'.issued ≡ l.issued)
progress {max} {l} small r h = elim (dec_lt 0 (caller_steps l.caller)) [
  | yes busy ↦ caller-Works small r l.caller refl busy
  | no idle ↦
      let (i, lt, has) = tally-pos steps l.issued l.workers (omega arith) in
      Works-at l i (l.workers i) refl has
]
