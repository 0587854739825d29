-- ===== src/Launcher/Unmap.antt =====
-- What the destructors of the launchers rely on in munmap.
use cmsc_624_spring.Common.{ℕ, ◌+◌, ◌%◌, ◌<◌, ◌≡◌, ◌≢◌, sym, ap, ◌∙◌, Bool, true, false, arith}
use native.Mathlib.Nat.{mod-add-mod, mod-eq_of_lt}
use native.Mathlib.Decide.{dec_lt}

-- munmap fails on an address that is not a multiple of the size of a page. `munmap address length n`
-- says whether call number `n` returns 0.
pub record WantsPages (page : ℕ) (munmap : ℕ → ℕ → ℕ → Bool) : Type 0 where
  pub unaligned :
      (address length calls : ℕ) → address % page ≢ 0 → munmap address length calls ≡ false

next_off : (page a d : ℕ) → 0 < d → d < page → a % page ≡ 0 → (a + d) % page ≢ 0
next_off page a d pos small e h =
    let same : (a % page + d) % page ≡ (a + d) % page = mod-add-mod a page d in
    let start : a % page + d ≡ d = omega (arith, e) in
    absurd (omega (arith, sym (mod-eq_of_lt small) ∙ ap (λ r. r % page) (sym start) ∙ same ∙ h))

-- Two addresses less than a page apart are not both unmapped.
pub not_both :
    {page : ℕ} {munmap : ℕ → ℕ → ℕ → Bool}
    → WantsPages page munmap
    → (a d : ℕ) {m n i j : ℕ} → 0 < d
    → d < page
    → munmap a m i ≡ true
    → munmap (a + d) n j ≡ false
not_both {page} w a d {m} {n} {i} {j} pos small unmapped = elim (dec_lt 0 (a % page)) [
  | no aligned ↦ w.unaligned (a + d) n j (next_off page a d pos small (omega arith))
  | yes off ↦ let failed = w.unaligned a m i (λ e. omega arith) in absurd (ground arith)
]
