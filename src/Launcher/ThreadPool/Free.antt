-- ===== src/Launcher/ThreadPool/Free.antt =====
-- The list of idle threads that the constructor's loop links.
use cmsc_624_spring.Common.{
  ℕ, zero, suc, ◌+◌, ◌<◌, ◌≤◌, ◌≡◌, ap, ◌&&◌, some, arith, update, leb, ltb, if◌then◌else◌,
}
use cmsc_624_spring.Launcher.FreeList.{walk, range, walk-IsLinked}
use cmsc_624_spring.Launcher.ThreadPool.{ThreadState, new_state, init_states, link_states}

init_states_at :
    (thread_id : ℕ → ℕ) (n i : ℕ) (states : ℕ → ThreadState) (j : ℕ)
    → init_states thread_id n i states j
      ≡ (if leb i j && ltb j (i + n) then new_state thread_id j else states j)
unfolding init_states
init_states_at thread_id zero i states j = ground arith
init_states_at thread_id (suc n) i states j =
    ground
      (arith, init_states_at thread_id n (i + 1) (update states i (new_state thread_id i)) j, same)
  where
    same : i ≡ j → new_state thread_id i ≡ new_state thread_id j
    same e = ap (new_state thread_id) e

-- For a pool that is not empty, following `next_` from the first state comes by every state once, in
-- the order of the array, and ends at NULL.
pub walk-link_states_threads :
    (thread_id : ℕ → ℕ) (pool_sz fuel : ℕ) (states : ℕ → ThreadState)
    → 0 < pool_sz
    → pool_sz ≤ fuel
    → walk (λ i. (link_states thread_id pool_sz states i).next) fuel (some 0) ≡ range 0 pool_sz
unfolding link_states
walk-link_states_threads thread_id zero fuel states pos le = absurd (omega arith)
walk-link_states_threads thread_id (suc n) fuel states pos le =
    walk-IsLinked n 0 fuel (λ i. (link_states thread_id (suc n) states i).next) (omega arith)
      (record {
        inner = λ j lo hi. ground (arith, init_states_at thread_id (suc n) 0 states j);
        last = ground arith;
      })
