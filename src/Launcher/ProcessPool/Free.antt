-- ===== src/Launcher/ProcessPool/Free.antt =====
-- The list of idle processes that the constructor's loop links.
use cmsc_624_spring.Common.{
  ℕ, zero, suc, ◌+◌, ◌-◌, ◌%◌, ◌^◌, ◌<◌, ◌≤◌, ◌≡◌, ap, ◌∙◌, ◌&&◌, none, some, arith, update, leb,
  ltb, if◌then◌else◌,
}
use cmsc_624_spring.Launcher.FreeList.{walk, range, walk-IsLinked}
use cmsc_624_spring.Launcher.ProcessPool.{ProcState, new_state, init_states, link_states}

pub init_states_at :
    (req_bufs n i : ℕ) (states : ℕ → ProcState) (j : ℕ)
    → init_states req_bufs n i states j
      ≡ (if leb i j && ltb j (i + n) then new_state req_bufs j else states j)
unfolding init_states
init_states_at req_bufs zero i states j = ground arith
init_states_at req_bufs (suc n) i states j =
    ground
      (arith, init_states_at req_bufs n (i + 1) (update states i (new_state req_bufs i)) j, same)
  where
    same : i ≡ j → new_state req_bufs i ≡ new_state req_bufs j
    same e = ap (new_state req_bufs) e

-- In range, a state but the last is as the loop has made it.
pub link_states_inner :
    (req_bufs n : ℕ) (states : ℕ → ProcState) (j : ℕ)
    → suc n < 2 ^ 32
    → j < n
    → link_states req_bufs (suc n) states j ≡ new_state req_bufs j
unfolding link_states
link_states_inner req_bufs n states j small lt =
    let last : (suc n + (2 ^ 32 - 1)) % 2 ^ 32 ≡ n = omega arith in
    rw last (ground (arith, init_states_at req_bufs (suc n) 0 states j))

link_states_last :
    (req_bufs n : ℕ) (states : ℕ → ProcState)
    → suc n < 2 ^ 32
    → (link_states req_bufs (suc n) states n).next ≡ none
unfolding link_states
link_states_last req_bufs n states small =
    let last : (suc n + (2 ^ 32 - 1)) % 2 ^ 32 ≡ n = omega arith in rw last (ground arith)

-- For a pool that is not empty and fewer than 2^32 processes, following `next_` from the first state
-- comes by every state once, in the order of the array, and ends at NULL.
pub walk-link_states :
    (req_bufs nprocs fuel : ℕ) (states : ℕ → ProcState)
    → 0 < nprocs
    → nprocs < 2 ^ 32
    → nprocs ≤ fuel
    → walk (λ i. (link_states req_bufs nprocs states i).next) fuel (some 0) ≡ range 0 nprocs
walk-link_states req_bufs zero fuel states pos small le = absurd (omega arith)
walk-link_states req_bufs (suc n) fuel states pos small le =
    walk-IsLinked n 0 fuel (λ i. (link_states req_bufs (suc n) states i).next) (omega arith)
      (record {
        inner = λ j lo hi.
            let fits : (j + 1) % 2 ^ 32 ≡ j + 1 = omega arith in
            ap (λ s. s.next) (link_states_inner req_bufs n states j small (omega arith))
            ∙ ap some fits;
        last =
            let e : 0 + n ≡ n = omega arith in
            ap (λ j. (link_states req_bufs (suc n) states j).next) e
            ∙ link_states_last req_bufs n states small;
      })
