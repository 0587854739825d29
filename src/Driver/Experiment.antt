-- ===== src/Driver/Experiment.antt =====
-- a1/src/db_start.cc: the choices that main makes by the configuration, and the requests that
-- run_experiment issues.
use cmsc_624_spring.Common.{
  ℕ, zero, suc, ◌+◌, ◌-◌, ◌%◌, ◌^◌, ◌<◌, ◌≡◌, ◌↔◌, ◌⊎◌, inl, inr, refl, ap, Bool, true, false,
  Option, none, some, List, [], ◌∷◌, Outcome, ok, die, ◌>>=◌, arith, Bool-cases, ltb, ℤ, pos,
  negsuc,
}
use cmsc_624_spring.Config.{ExecModel, process_pool, process, thread_pool, thread, ExptConfig}
use cmsc_624_spring.Launcher.Thread
use cmsc_624_spring.Launcher.Process
use cmsc_624_spring.Launcher.Process.{int_max}
use cmsc_624_spring.Launcher.ThreadPool
use cmsc_624_spring.Launcher.ProcessPool

abbrev pub low_database_sz : ℕ
low_database_sz = 5000000

abbrev pub high_database_sz : ℕ
high_database_sz = 500

abbrev pub dry_run_sz : ℕ
dry_run_sz = 1000

abbrev pub num_reqs : ℕ
num_reqs = 2000000

-- `conf._type == PROCESS || conf._type == PROCESS_POOL`
unfoldable pub multi_process : ExecModel → Bool
multi_process process = true
multi_process process_pool = true
multi_process _ = false

unfoldable pub db_size_of : ExptConfig → ℕ
db_size_of conf = elim conf.contention [ true ↦ high_database_sz | false ↦ low_database_sz ]

-- `high_priority = conf._type == PROCESS_POOL;`
unfoldable pub has_high_priority : ExecModel → Bool
has_high_priority process_pool = true
has_high_priority _ = false

-- `Launcher *`
pub data AnyLauncher : Type 0 where
  processes : Process.ProcessLauncher → AnyLauncher
  pooled_processes : ProcessPool.ProcessPoolLauncher → AnyLauncher
  threads : Thread.Launcher → AnyLauncher
  pooled_threads : ThreadPool.ThreadPoolLauncher → AnyLauncher

-- An int that is passed as, or assigned to, a uint32.
abbrev pub to_uint32 : ℤ → ℕ
to_uint32 (pos n) = n % 2 ^ 32
to_uint32 (negsuc n) = 2 ^ 32 - 1 - n % 2 ^ 32

-- The memory that the constructors get, and what a member of the configuration holds that was not set.
pub record Given : Type 0 where
  pub unset : ℤ
  pub thread_id : ℕ → ℕ
  pub thread_states : ℕ → ThreadPool.ThreadState
  pub mmap : ℕ → ℕ
  pub proc_states : ℕ → ProcessPool.ProcState
  pub mgr : ProcessPool.ProcMgr

abbrev pub member : ℤ → Option ℤ → ℤ
member unset none = unset
member unset (some n) = n

-- The choice of the launcher, in main and in run_test.
unfoldable pub choose_launcher : Given → ExecModel → ℤ → ℤ → Outcome AnyLauncher
choose_launcher given process max_outstanding pool_size = do
  l ← Process.new_launcher max_outstanding
  ok (processes l)
choose_launcher given process_pool max_outstanding pool_size = do
  l ← ProcessPool.new_launcher given.mmap given.proc_states given.mgr (to_uint32 pool_size)
  ok (pooled_processes l)
choose_launcher given thread max_outstanding pool_size =
    ok (threads (Thread.new_launcher (to_uint32 max_outstanding)))
choose_launcher given thread_pool max_outstanding pool_size = do
  l ← ThreadPool.new_launcher given.thread_id given.thread_states pool_size
  ok (pooled_threads l)

unfoldable pub make_launcher : Given → ExptConfig → Outcome AnyLauncher
make_launcher given conf =
    choose_launcher given conf.type (member given.unset conf.max_outstanding)
      (member given.unset conf.pool_size)

-- The dry run's loop, with `n` requests left from request `i`.
unfoldable pub dry_run {ℓ} : {R : Type ℓ} → (ℕ → R) → ℕ → ℕ → List R
dry_run requests zero i = []
dry_run requests (suc n) i = requests i ∷ dry_run requests n (i + 1)

-- The loop of the experiment: `done i` is what the flag holds before round `i`, of at most `fuel`; the
-- counter is a uint32.
unfoldable pub real_run {ℓ} : {R : Type ℓ} → (ℕ → Bool) → (ℕ → R) → ℕ → ℕ → List R
real_run done requests zero i = []
real_run done requests (suc fuel) i = elim (done i) [
  | true ↦ []
  | false ↦ requests (i % 2 ^ 32 % num_reqs) ∷ real_run done requests fuel (i + 1)
]

process_iff :
    (max : ℤ)
    → ((l : Process.ProcessLauncher) × (Process.new_launcher max ≡ ok l))
      ↔ ((n : ℕ) × (max ≡ pos n) × (0 < n) × (n < int_max))
unfolding Process.new_launcher
process_iff (pos max) = (
  λ (l, h). (max, refl, ground arith, ground arith),
  λ (n, e, lo, hi). (Process.made max, ground arith),
)
process_iff (negsuc max) = (λ (l, h). absurd cc, λ (n, e, lo, hi). absurd cc)

returned_by :
    (o : Outcome Process.ProcessLauncher) (x : AnyLauncher)
    → (o >>= λ l. ok (processes l)) ≡ ok x
    → (l : Process.ProcessLauncher) × (o ≡ ok l)
returned_by (ok l) x h = (l, refl)
returned_by die x h = absurd cc

pool_dies :
    (thread_id : ℕ → ℕ) (states : ℕ → ThreadPool.ThreadState) (pool_sz : ℤ)
    → ThreadPool.new_launcher thread_id states pool_sz ≡ die
unfolding ThreadPool.new_launcher
pool_dies thread_id states (negsuc n) = refl
pool_dies thread_id states (pos n) = elim (Bool-cases (ltb 0 n)) [
  | inl h ↦ rw h refl
  | inr h ↦ rw h refl
]

choose_iff :
    (given : Given) (type : ExecModel) (max pool : ℤ)
    → ((l : AnyLauncher) × (choose_launcher given type max pool ≡ ok l))
      ↔ ((type ≡ thread) ⊎ ((type ≡ process) × ((n : ℕ) × (max ≡ pos n) × (0 < n) × (n < int_max))))
unfolding choose_launcher ProcessPool.new_launcher
choose_iff given process max pool = (
  λ (l, h). inr (refl, (process_iff max).0 (returned_by (Process.new_launcher max) l h)),
  λ made. elim made [
    | inl other ↦ absurd cc
    | inr (this, limit) ↦
        let (l, e) = (process_iff max).1 limit in
        (processes l, ap (λ o. o >>= λ x. ok (processes x)) e)
  ],
)
choose_iff given process_pool max pool = (
  λ (l, h). absurd cc,
  λ made. elim made [ inl other ↦ absurd cc | inr (other, limit) ↦ absurd cc ],
)
choose_iff given thread max pool =
    (λ l. inl refl, λ h. (threads (Thread.new_launcher (to_uint32 max)), refl))
choose_iff given thread_pool max pool = (
  λ (l, h). let dies = pool_dies given.thread_id given.thread_states pool in absurd (ground arith),
  λ made. elim made [ inl other ↦ absurd cc | inr (other, limit) ↦ absurd cc ],
)

-- The configurations that a launcher is made for: main goes on past the choice of the launcher exactly
-- for THREAD, with any limit, and for PROCESS with a limit between 0 and INT_MAX. For the two pools
-- it ends in an assertion.
pub make_launcher_iff :
    (given : Given) (conf : ExptConfig)
    → ((l : AnyLauncher) × (make_launcher given conf ≡ ok l)) ↔ (
        (conf.type ≡ thread)
        ⊎ ((conf.type ≡ process)
            × ((n : ℕ) × (member given.unset conf.max_outstanding ≡ pos n)
                × (0 < n)
                × (n < int_max))))
unfolding make_launcher
make_launcher_iff given conf =
    choose_iff given conf.type (member given.unset conf.max_outstanding)
      (member given.unset conf.pool_size)
