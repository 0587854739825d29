-- ===== src/Launcher/Process/Invariant.antt =====
-- What the counters of the launcher of processes count, in every reachable state.
use cmsc_624_spring.Common.{
  ℕ, ◌%◌, ◌^◌, ◌<◌, ◌≤◌, ◌≡◌, ◌≢◌, refl, sym, ◌∙◌, true, ok, arith, update, subst, suc,
}
use native.Mathlib.Decide.{dec_lt}
use cmsc_624_spring.Launcher.{none_outstanding, incr_done_txns}
use cmsc_624_spring.Launcher
use cmsc_624_spring.Common.{ℤ, pos, negsuc}
use cmsc_624_spring.Launcher.Process.{
  made, Child, absent, running, executed, counted, exited, ProcessLauncher, new_launcher,
  execute_request, count, Step, issues, executes, counts, exits, Reach, start, next,
}
use cmsc_624_spring.Launcher.Tally.{
  tally, tally_zero, tally-suc, tally-update, tally-update_above, tally-full,
}

-- The child has executed its request and incremented the counter.
abbrev pub is_counted : Child → ℕ
is_counted counted = 1
is_counted exited = 1
is_counted _ = 0

pub record Inv (l : ProcessLauncher) : Type 0 where
  pub above : (i : ℕ) → l.issued ≤ i → l.children i ≡ absent
  pub requests : l.counters.num_requests ≡ l.issued % 2 ^ 64
  pub done : l.counters.txns_executed ≡ tally is_counted l.issued l.children % 2 ^ 64

start-Inv : (max : ℤ) (l : ProcessLauncher) → new_launcher max ≡ ok l → Inv l
unfolding new_launcher
start-Inv (negsuc n) l e = absurd cc
start-Inv (pos max) l e =
    let same : made max ≡ l = ground arith in
    subst Inv same (record {
      above = λ i h. refl;
      requests = refl;
      done = omega (arith, tally_zero is_counted (λ i. absent));
    })

module _ {l : ProcessLauncher} (inv : Inv l) where
  known : (i : ℕ) (w : Child) → l.children i ≡ w → w ≢ absent → i < l.issued
  known i w e ne = elim (dec_lt i l.issued) [
    | yes lt ↦ lt
    | no out ↦ absurd (ne (sym e ∙ inv.above i (omega arith)))
  ]

  above-update :
      (i : ℕ) (w : Child) → i < l.issued → (j : ℕ) → l.issued ≤ j → update l.children i w j ≡ absent
  above-update i w lt j h = ground (arith, inv.above j h)

  issues-Inv : (l' : ProcessLauncher) → execute_request true l ≡ ok l' → Inv l'
  unfolding execute_request Launcher.execute_request
  issues-Inv l' e =
      let same : record l {
        counters = Launcher.execute_request l.counters;
        children = update l.children l.issued running;
        issued = suc l.issued;
      }
          ≡ l' =
        ground arith in
      subst Inv same (record {
        above = λ i h. ground (arith, inv.above i);
        requests = omega (arith, inv.requests);
        done = ground (
          arith,
          inv.done,
          tally-suc is_counted l.issued (update l.children l.issued running),
          tally-update_above is_counted l.issued l.issued l.children running,
        );
      })

  moves-Inv :
      (i : ℕ) (w : Child)
      → i < l.issued
      → is_counted w ≡ is_counted (l.children i)
      → Inv (record l { children = update l.children i w })
  moves-Inv i w lt same = record {
    above = above-update i w lt;
    requests = inv.requests;
    done = ground (arith, inv.done, tally-update is_counted l.issued i l.children w lt);
  }

  count-Inv : (i : ℕ) → l.children i ≡ executed → Inv (count i l)
  unfolding count incr_done_txns
  count-Inv i e =
      let lt = known i executed e (λ q. cc) in
      record {
        above = above-update i counted lt;
        requests = inv.requests;
        done = ground (arith, inv.done, tally-update is_counted l.issued i l.children counted lt);
      }

Step-Inv : {l l' : ProcessLauncher} → Inv l → Step l l' → Inv l'
Step-Inv inv (issues l' e) = issues-Inv inv l' e
Step-Inv inv (executes i e) = moves-Inv inv i executed (known inv i running e (λ q. cc)) (rw e refl)
Step-Inv inv (counts i e) = count-Inv inv i e
Step-Inv inv (exits i e) = moves-Inv inv i exited (known inv i counted e (λ q. cc)) (rw e refl)

pub Reach-Inv : {max : ℤ} {l : ProcessLauncher} → Reach max l → Inv l
Reach-Inv {max} (start l e) = start-Inv max l e
Reach-Inv (next r s) = Step-Inv (Reach-Inv r) s

is_counted_small : (c : Child) → is_counted c ≤ 1
is_counted_small absent = omega arith
is_counted_small running = omega arith
is_counted_small executed = omega arith
is_counted_small counted = omega arith
is_counted_small exited = omega arith

-- When the test of WaitOutstanding's loop finds the two counters equal, and fewer than 2^64 requests
-- were issued, the child of every request that was issued has executed it and counted itself.
pub none_outstanding-executed :
    {max : ℤ} {l : ProcessLauncher}
    → Reach max l
    → l.issued < 2 ^ 64
    → none_outstanding l.counters ≡ true
    → (i : ℕ) → i < l.issued
    → is_counted (l.children i) ≡ 1
unfolding none_outstanding
none_outstanding-executed {l = l} r few h =
    let inv = Reach-Inv r in
    let (bound, full) = tally-full is_counted is_counted_small l.issued l.children in
    full (ground (arith, inv.requests, inv.done))
