-- ===== src/ThreadPool/Queued.antt =====
-- How often a task stands in the queues of a pool.
use native.Mathlib.Decide.{dec_lt}
use cmsc_624_spring.Common.{
  ℕ, zero, suc, ◌+◌, ◌<◌, ◌≤◌, ◌≡◌, refl, ap, Option, none, some, List, [], ◌∷◌, update, times,
  times_cons, times_nil, arith,
}
use cmsc_624_spring.Atomic.Queue
use cmsc_624_spring.Atomic.Queue.{AtomicQueue}

-- How often a task stands in the first `n` queues.
pub queued : ℕ → ℕ → (ℕ → AtomicQueue ℕ) → ℕ
queued t zero qs = 0
queued t (suc n) qs = times t (qs n).items + queued t n qs

queued-update_above :
    (t n i : ℕ) (qs : ℕ → AtomicQueue ℕ) (q : AtomicQueue ℕ)
    → n ≤ i
    → queued t n (update qs i q) ≡ queued t n qs
unfolding queued
queued-update_above t zero i qs q h = refl
queued-update_above t (suc n) i qs q h = ground (arith, queued-update_above t n i qs q)

pub queued-update :
    (t n i : ℕ) (qs : ℕ → AtomicQueue ℕ) (q : AtomicQueue ℕ)
    → i < n
    → queued t n (update qs i q) + times t (qs i).items ≡ queued t n qs + times t q.items
unfolding queued
queued-update t zero i qs q h = absurd (omega arith)
queued-update t (suc n) i qs q h = elim (dec_lt i n) [
  | yes below ↦ ground (arith, queued-update t n i qs q below)
  | no last ↦ ground (arith, queued-update_above t n i qs q, same)
]
  where
    same : i ≡ n → times t (qs i).items ≡ times t (qs n).items
    same e = ap (λ k. times t (qs k).items) e

pub queued_none :
    (t n : ℕ) (qs : ℕ → AtomicQueue ℕ) → ((i : ℕ) → i < n → (qs i).items ≡ []) → queued t n qs ≡ 0
unfolding queued
queued_none t zero qs h = refl
queued_none t (suc n) qs h = omega (
  arith,
  ap (times t) (h n (omega arith)),
  times_nil t,
  queued_none t n qs (λ i lt. h i (omega arith)),
)

abbrev pub taken : Option ℕ → List ℕ
taken none = []
taken (some t) = t ∷ []

-- What a pop takes out of a queue.
pub times-pop :
    (t : ℕ) (q : AtomicQueue ℕ)
    → times t q.items ≡ times t (taken (Queue.pop q).0) + times t (Queue.pop q).1.items
unfolding Queue.pop
times-pop t q = by_items q.items
  where
    by_items :
        (l : List ℕ)
        → times t l ≡ times t (taken (Queue.take_front l).0) + times t (Queue.take_front l).1.items
    by_items [] = omega (arith, times_nil t)
    by_items (x ∷ l) = times_cons t x l
