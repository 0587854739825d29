-- ===== src/Launcher/Thread/Invariant.antt =====
-- What the counters of the launcher count, in every reachable state.
use cmsc_624_spring.Common.{ℕ, ◌+◌, ◌%◌, ◌^◌, ◌<◌, ◌≤◌, ◌≡◌, ◌≢◌, refl, sym, ◌∙◌, arith}
use native.Mathlib.Decide.{dec_lt}
use cmsc_624_spring.Launcher.{incr_done_txns, execute_request}
use cmsc_624_spring.Launcher.Thread.{
  Worker, absent, running, executed, linked, signalled, returned, Caller, ready, waiting, Launcher,
  update, new_launcher, issue, admit, take, join, link, signal, count, Step, issues, admits, takes,
  joins, leaves, executes, links, signals, counts, Reach, start, next,
}
use cmsc_624_spring.Launcher.Tally.{
  tally, tally_zero, tally-suc, tally-update, tally-update_above, weight-le-tally,
}

-- A request that the launcher has started and that has not given its slot back.
abbrev pub holds_slot : Worker → ℕ
holds_slot running = 1
holds_slot executed = 1
holds_slot linked = 1
holds_slot _ = 0

abbrev pub is_running : Worker → ℕ
is_running running = 1
is_running _ = 0

abbrev pub is_returned : Worker → ℕ
is_returned returned = 1
is_returned _ = 0

-- The launcher has started a request and not yet taken its slot.
abbrev pub waits : Caller → ℕ
waits waiting = 1
waits _ = 0

pub record Inv (max : ℕ) (l : Launcher) : Type 0 where
  pub above : (i : ℕ) → l.issued ≤ i → l.workers i ≡ absent
  pub slots : l.max_outstanding + tally holds_slot l.issued l.workers ≡ max + waits l.caller
  pub requests : l.counters.num_requests ≡ l.issued % 2 ^ 64
  pub done : l.counters.txns_executed ≡ tally is_returned l.issued l.workers % 2 ^ 64

start-Inv : (max : ℕ) → Inv max (new_launcher max)
start-Inv max = record {
  above = λ i h. refl;
  slots = omega (arith, tally_zero holds_slot (λ i. absent));
  requests = refl;
  done = omega (arith, tally_zero is_returned (λ i. absent));
}

module _ {max : ℕ} {l : Launcher} (small : max + 1 < 2 ^ 32) (inv : Inv max l) where
  -- A worker that exists was issued.
  pub known : (i : ℕ) → l.workers i ≢ absent → i < l.issued
  known i h = elim (dec_lt i l.issued) [
    | yes lt ↦ lt
    | no out ↦ absurd (h (inv.above i (omega arith)))
  ]

  pub known_at : (i : ℕ) (w : Worker) → l.workers i ≡ w → w ≢ absent → i < l.issued
  known_at i w e ne = known i (λ a. ne (sym e ∙ a))

  above-update :
      (i : ℕ) (w : Worker) → i < l.issued → (j : ℕ) → l.issued ≤ j → update l.workers i w j ≡ absent
  above-update i w lt j h = ground (arith, inv.above j h)

  issue-Inv : l.caller ≡ ready → Inv max (issue l)
  unfolding issue execute_request
  issue-Inv e = record {
    above = λ i h. ground (arith, inv.above i);
    slots = ground (
      arith,
      tally-suc holds_slot l.issued (update l.workers l.issued running),
      tally-update_above holds_slot l.issued l.issued l.workers running,
    );
    requests = omega arith;
    done = ground (
      arith,
      tally-suc is_returned l.issued (update l.workers l.issued running),
      tally-update_above is_returned l.issued l.issued l.workers running,
    );
  }

  executes-Inv :
      (i : ℕ) → l.workers i ≡ running → Inv max (record l { workers = update l.workers i executed })
  executes-Inv i e =
      let lt = known_at i running e (λ q. cc) in
      record {
        above = above-update i executed lt;
        slots = ground (arith, tally-update holds_slot l.issued i l.workers executed lt);
        requests = inv.requests;
        done = ground (arith, tally-update is_returned l.issued i l.workers executed lt);
      }

  link-Inv : (i : ℕ) → l.workers i ≡ executed → Inv max (link i l)
  unfolding link
  link-Inv i e =
      let lt = known_at i executed e (λ q. cc) in
      record {
        above = above-update i linked lt;
        slots = ground (arith, tally-update holds_slot l.issued i l.workers linked lt);
        requests = inv.requests;
        done = ground (arith, tally-update is_returned l.issued i l.workers linked lt);
      }

  signal-Inv : (i : ℕ) → l.workers i ≡ linked → Inv max (signal i l)
  unfolding signal
  signal-Inv i e =
      let lt = known_at i linked e (λ q. cc) in
      record {
        above = above-update i signalled lt;
        slots = ground (
          arith,
          tally-update holds_slot l.issued i l.workers signalled lt,
          weight-le-tally holds_slot l.issued i l.workers lt,
        );
        requests = inv.requests;
        done = ground (arith, tally-update is_returned l.issued i l.workers signalled lt);
      }

  count-Inv : (i : ℕ) → l.workers i ≡ signalled → Inv max (count i l)
  unfolding count incr_done_txns
  count-Inv i e =
      let lt = known_at i signalled e (λ q. cc) in
      record {
        above = above-update i returned lt;
        slots = ground (arith, tally-update holds_slot l.issued i l.workers returned lt);
        requests = inv.requests;
        done = ground (arith, tally-update is_returned l.issued i l.workers returned lt);
      }

Step-Inv : {max : ℕ} {l l' : Launcher} → max + 1 < 2 ^ 32 → Inv max l → Step l l' → Inv max l'
unfolding admit take join
Step-Inv small inv (issues e) = issue-Inv small inv e
Step-Inv small inv (admits e free) = record {
  above = inv.above;
  slots = ground arith;
  requests = inv.requests;
  done = inv.done;
}
Step-Inv small inv (takes e) = record {
  above = inv.above;
  slots = ground arith;
  requests = inv.requests;
  done = inv.done;
}
Step-Inv small inv (joins i rest e r) = record {
  above = inv.above;
  slots = ground arith;
  requests = inv.requests;
  done = inv.done;
}
Step-Inv small inv (leaves e) = record {
  above = inv.above;
  slots = ground arith;
  requests = inv.requests;
  done = inv.done;
}
Step-Inv small inv (executes i e) = executes-Inv small inv i e
Step-Inv small inv (links i e) = link-Inv small inv i e
Step-Inv small inv (signals i e) = signal-Inv small inv i e
Step-Inv small inv (counts i e) = count-Inv small inv i e

-- It holds in every state that a launcher can reach, whatever the interleaving.
pub Reach-Inv : {max : ℕ} {l : Launcher} → max + 1 < 2 ^ 32 → Reach max l → Inv max l
Reach-Inv {max} small start = start-Inv max
Reach-Inv small (next r s) = Step-Inv small (Reach-Inv small r) s
