-- ===== src/ThreadPool/Tasks.antt =====
-- What becomes of the tasks of a pool.
use native.Mathlib.Nat.{mod-lt}
use cmsc_624_spring.Common.{
  ℕ, ◌+◌, ◌%◌, ◌<◌, ◌≡◌, refl, sym, subst, Bool, true, false, Option, none, some, List, [], ◌∷◌,
  ◌==◌, update, times, times-append, times_cons, times_nil, arith, Bool-cases, ◌⊎◌, inl, inr,
}
use cmsc_624_spring.Atomic.Queue
use cmsc_624_spring.Atomic.Queue.{AtomicQueue}
use cmsc_624_spring.ThreadPool.{
  draining, finished, Pool, new_pool, add_task, back_off, polled, poll, check, drained, drain, stop,
  Step, adds, polls, checks, drains, stops, Reach, start, next,
}
use cmsc_624_spring.ThreadPool.Queued.{queued, queued-update, queued_none, taken, times-pop}

-- Durations that doubling from 1 reaches before it stops.
pub IsDuration : ℕ → Type 0
IsDuration s = (s ≡ 1) ⊎ ((s ≡ 2) ⊎ ((s ≡ 4) ⊎ ((s ≡ 8) ⊎ ((s ≡ 16) ⊎ (s ≡ 32)))))

one-IsDuration : IsDuration 1
unfolding IsDuration
one-IsDuration = inl refl

back_off-IsDuration : (s : ℕ) → IsDuration s → IsDuration (back_off s)
unfolding back_off IsDuration
back_off-IsDuration s (inl e) = subst (λ x. IsDuration (back_off x)) (sym e) (inr (inl refl))
back_off-IsDuration s (inr (inl e)) =
    subst (λ x. IsDuration (back_off x)) (sym e) (inr (inr (inl refl)))
back_off-IsDuration s (inr (inr (inl e))) =
    subst (λ x. IsDuration (back_off x)) (sym e) (inr (inr (inr (inl refl))))
back_off-IsDuration s (inr (inr (inr (inl e)))) =
    subst (λ x. IsDuration (back_off x)) (sym e) (inr (inr (inr (inr (inl refl)))))
back_off-IsDuration s (inr (inr (inr (inr (inl e))))) =
    subst (λ x. IsDuration (back_off x)) (sym e) (inr (inr (inr (inr (inr (refl))))))
back_off-IsDuration s (inr (inr (inr (inr (inr (e)))))) =
    subst (λ x. IsDuration (back_off x)) (sym e) (inr (inr (inr (inr (inr (refl))))))

pub record Inv (n : ℕ) (p : Pool) : Type 0 where
  pub threads : p.thread_count ≡ n
  pub kept : (t : ℕ) → times t p.run + queued t n p.queues ≡ times t p.added
  pub over : (i : ℕ) → p.runners i ≡ finished → ((p.queues i).items ≡ []) × (p.stopped ≡ true)
  pub halting : (i : ℕ) → p.runners i ≡ draining → p.stopped ≡ true
  pub durations : (i : ℕ) → IsDuration (p.sleep_durations i)

durations-update :
    (f : ℕ → ℕ) (i s : ℕ)
    → ((j : ℕ) → IsDuration (f j))
    → IsDuration s
    → (j : ℕ) → IsDuration (update f i s j)
durations-update f i s h hs j = elim (Bool-cases (i == j)) [
  | inl same ↦ rw same hs
  | inr other ↦ rw other (h j)
]

module _ {n : ℕ} where
  add-Inv :
      (p : Pool) (task draw : ℕ)
      → 0 < n
      → Inv n p
      → p.stopped ≡ false
      → Inv n (add_task task draw p)
  unfolding add_task Queue.push_non_blocking Queue.push
  add-Inv p task draw pos v running =
      let i = draw % p.thread_count in
      let bound = mod-lt draw pos in
      let in_range : i < n = subst (λ m. draw % m < n) (sym v.threads) bound in
      record {
        threads = v.threads;
        kept = λ t. omega (
          arith,
          v.kept t,
          queued-update t n i p.queues (Queue.push (p.queues i) task) in_range,
          times-append t (p.queues i).items (task ∷ []),
          times_cons t task p.added,
        );
        over = λ j h. absurd (ground (arith, (v.over j h).1));
        halting = v.halting;
        durations = v.durations;
      }

  polled-Inv :
      (p : Pool) (i : ℕ) (r : Option ℕ × AtomicQueue ℕ)
      → i < n
      → Inv n p
      → ((t : ℕ) → times t (p.queues i).items ≡ times t (taken r.0) + times t r.1.items)
      → Inv n (polled i r p)
  unfolding polled
  polled-Inv p i (none, q) lt v e = record {
    threads = v.threads;
    kept = λ t. omega (arith, v.kept t, e t, times_nil t, queued-update t n i p.queues q lt);
    over = λ j h. ground (arith, v.over j);
    halting = λ j h. ground (arith, v.halting j);
    durations =
        durations-update p.sleep_durations i (back_off (p.sleep_durations i)) v.durations
          (back_off-IsDuration (p.sleep_durations i) (v.durations i));
  }
  polled-Inv p i (some task, q) lt v e = record {
    threads = v.threads;
    kept = λ t.
        omega (arith, v.kept t, e t, times_cons t task p.run, queued-update t n i p.queues q lt);
    over = λ j h. ground (arith, v.over j);
    halting = λ j h. ground (arith, v.halting j);
    durations = durations-update p.sleep_durations i 1 v.durations one-IsDuration;
  }

  drained-Inv :
      (p : Pool) (i : ℕ) (r : Option ℕ × AtomicQueue ℕ)
      → i < n
      → Inv n p
      → p.runners i ≡ draining
      → ((t : ℕ) → times t (p.queues i).items ≡ times t (taken r.0) + times t r.1.items)
      → (r.0 ≡ none → r.1.items ≡ [])
      → Inv n (drained i r p)
  unfolding drained
  drained-Inv p i (none, q) lt v d e empty = record {
    threads = v.threads;
    kept = λ t. omega (arith, v.kept t, e t, times_nil t, queued-update t n i p.queues q lt);
    over = λ j h. ground (arith, v.over j, v.halting i d, empty refl);
    halting = λ j h. ground (arith, v.halting j);
    durations = v.durations;
  }
  drained-Inv p i (some task, q) lt v d e empty = record {
    threads = v.threads;
    kept = λ t.
        omega (arith, v.kept t, e t, times_cons t task p.run, queued-update t n i p.queues q lt);
    over = λ j h. ground (arith, v.over j);
    halting = v.halting;
    durations = v.durations;
  }

  check-Inv : (p : Pool) (i : ℕ) → Inv n p → Inv n (check i p)
  unfolding check
  check-Inv p i v = record {
    threads = v.threads;
    kept = v.kept;
    over = λ j h. ground (arith, v.over j);
    halting = λ j h. ground (arith, v.halting j);
    durations = v.durations;
  }

pop-nothing : (q : AtomicQueue ℕ) → (Queue.pop q).0 ≡ none → (Queue.pop q).1.items ≡ []
unfolding Queue.pop Queue.take_front
pop-nothing q = by_items q.items
  where
    by_items : (l : List ℕ) → (Queue.take_front l).0 ≡ none → (Queue.take_front l).1.items ≡ []
    by_items [] h = refl
    by_items (x ∷ l) h = absurd cc

times-pop_non_blocking :
    (free : Bool) (t : ℕ) (q : AtomicQueue ℕ)
    → times t q.items
      ≡ times t (taken (Queue.pop_non_blocking free q).0)
        + times t (Queue.pop_non_blocking free q).1.items
unfolding Queue.pop_non_blocking
times-pop_non_blocking true t q = times-pop t q
times-pop_non_blocking false t q = omega (arith, times_nil t)

Step-Inv : {n : ℕ} {p p' : Pool} → 0 < n → Inv n p → Step p p' → Inv n p'
unfolding poll drain stop
Step-Inv {n} {p} pos v (adds task draw running) = add-Inv p task draw pos v running
Step-Inv {n} {p} pos v (polls free i lt e) =
    polled-Inv p i (Queue.pop_non_blocking free (p.queues i)) (subst (λ m. i < m) v.threads lt) v
      (λ t. times-pop_non_blocking free t (p.queues i))
Step-Inv {n} {p} pos v (checks i lt e) = check-Inv p i v
Step-Inv {n} {p} pos v (drains i lt e) =
    drained-Inv p i (Queue.pop (p.queues i)) (subst (λ m. i < m) v.threads lt) v e
      (λ t. times-pop t (p.queues i)) (pop-nothing (p.queues i))
Step-Inv {n} {p} pos v stops = record {
  threads = v.threads;
  kept = v.kept;
  over = λ j h. ((v.over j h).0, refl);
  halting = λ j h. refl;
  durations = v.durations;
}

start-Inv : (n : ℕ) → Inv n (new_pool n)
start-Inv n = record {
  threads = refl;
  kept = λ t. omega (arith, times_nil t, queued_none t n (λ i. Queue.empty) (λ i lt. refl));
  over = λ j h. absurd cc;
  halting = λ j h. absurd cc;
  durations = λ j. one-IsDuration;
}

pub Reach-Inv : {n : ℕ} {p : Pool} → 0 < n → Reach n p → Inv n p
Reach-Inv {n} pos start = start-Inv n
Reach-Inv pos (next r s) = Step-Inv pos (Reach-Inv pos r) s
