-- ===== src/Launcher/ThreadPool/Destroy.antt =====
-- What the destructor of the launcher of a pool of threads does.
use cmsc_624_spring.Common.{
  ℕ, ◌+◌, ◌<◌, ◌≡◌, refl, subst, Bool, false, die, arith, Bool-cases, inl, inr,
}
use cmsc_624_spring.Launcher.Unmap.{WantsPages, not_both}
use cmsc_624_spring.Launcher.ThreadPool.{
  ThreadPoolLauncher, destroy, destroy_members, num_idle_threads_mutex_at, sizeof_mutex,
  sizeof_cond,
}

-- Wherever the launcher lies, with pages of more than 40 bytes and a munmap that fails on what is not
-- the start of a page, the destructor ends in a failed assertion: the members that it unmaps are
-- parts of the object, and not both the mutex and the condition variable start a page.
pub destroy_misaligned :
    (page : ℕ) (munmap : ℕ → ℕ → ℕ → Bool) (this : ℕ) (l : ThreadPoolLauncher)
    → 40 < page
    → WantsPages page munmap
    → destroy munmap this l ≡ die
unfolding destroy destroy_members
destroy_misaligned page munmap this l big w =
    elim (Bool-cases (munmap (num_idle_threads_mutex_at this) sizeof_mutex 0)) [
      | inr failed ↦ rw failed refl
      | inl unmapped ↦
          let e : this + 40 + 40 ≡ this + 80 = omega arith in
          let next : munmap (this + 80) sizeof_cond 1 ≡ false =
            subst (λ a. munmap a sizeof_cond 1 ≡ false) e
              (not_both w (this + 40) 40 (omega arith) big unmapped) in
          rw (unmapped, next) refl
    ]
