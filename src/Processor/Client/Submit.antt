-- ===== src/Processor/Client/Submit.antt =====
-- What the calls of NewTxnRequest leave.
use cmsc_624_spring.Common.{
  ℕ, ◌+◌, ◌≡◌, refl, sym, ap, subst, ◌∙◌, false, List, [], ◌∷◌, ◌++◌, ◌==◌, if◌then◌else◌, has,
  append-nil, append_assoc, arith, Bool-cases, inl, inr,
}
use cmsc_624_spring.Atomic.Queue
use cmsc_624_spring.Txn.{Txn, committed, aborted}
use cmsc_624_spring.Txn.Spec.{Db, effect, decide, IsFresh}
use cmsc_624_spring.Processor.{Processor, new_txn_request}
use cmsc_624_spring.Processor.Client.{submit_all}
use cmsc_624_spring.Processor.Serial.Replay.{replay, Verdicts, commits, AreFresh}

-- The same transaction under some number.
pub Renumbered : Txn → Txn → Type 0
Renumbered t t' = (id : ℕ) × (t' ≡ record t { unique_id = id })

-- The transactions have the numbers from `n` on, in order.
abbrev pub AreNumbered : (ℕ → Txn) → List ℕ → ℕ → Type 0
AreNumbered heap [] n = Unit
AreNumbered heap (a ∷ rest) n = ((heap a).unique_id ≡ n) × AreNumbered heap rest (n + 1)

pub record Submitted (p : Processor) (reqs : List ℕ) (p' : Processor) : Type 0 where
  pub items : p'.txn_requests.items ≡ p.txn_requests.items ++ reqs
  pub same : (b : ℕ) → Renumbered (p.heap b) (p'.heap b)
  pub others : (b : ℕ) → has b reqs ≡ false → p'.heap b ≡ p.heap b
  pub storage : p'.storage ≡ p.storage
  pub mode : p'.mode ≡ p.mode
  pub results : p'.txn_results ≡ p.txn_results
  pub log : p'.committed_txns ≡ p.committed_txns

renumber : (p : Processor) (txn b : ℕ) → Renumbered (p.heap b) ((new_txn_request txn p).heap b)
unfolding new_txn_request Renumbered
renumber p txn b = elim (Bool-cases (txn == b)) [
  | inl same ↦
      let e : txn ≡ b = ground arith in
      (
        p.next_unique_id,
        ap (λ c. if c then record (p.heap txn) { unique_id = p.next_unique_id } else p.heap b) same
            ∙ ap (λ j. record (p.heap j) { unique_id = p.next_unique_id }) e,
      )
  | inr other ↦ (
    (p.heap b).unique_id,
    ap (λ c. if c then record (p.heap txn) { unique_id = p.next_unique_id } else p.heap b) other,
  )
]

renumber_other :
    (p : Processor) (txn b : ℕ) → (txn == b) ≡ false → (new_txn_request txn p).heap b ≡ p.heap b
unfolding new_txn_request
renumber_other p txn b h = rw h refl

own_number :
    (txn : ℕ) (p : Processor) → ((new_txn_request txn p).heap txn).unique_id ≡ p.next_unique_id
unfolding new_txn_request
own_number txn p = ground arith

next_number :
    (txn : ℕ) (p : Processor) → (new_txn_request txn p).next_unique_id ≡ p.next_unique_id + 1
unfolding new_txn_request
next_number txn p = refl

-- Each address stands in the list once.
abbrev pub AreDistinct : List ℕ → Type 0
AreDistinct [] = Unit
AreDistinct (a ∷ rest) = (has a rest ≡ false) × AreDistinct rest

set_id : ℕ → Txn → Txn
set_id id t = record t { unique_id = id }

Renumbered-trans : (t t' t'' : Txn) → Renumbered t t' → Renumbered t' t'' → Renumbered t t''
unfolding Renumbered set_id
Renumbered-trans t t' t'' (i, e) (j, e') = (j, e' ∙ ap (set_id j) e)

pub submit_all-Submitted : (reqs : List ℕ) (p : Processor) → Submitted p reqs (submit_all reqs p)
unfolding submit_all has Renumbered new_txn_request Queue.push
submit_all-Submitted [] p = record {
  items = sym (append-nil p.txn_requests.items);
  same = λ b. ((p.heap b).unique_id, refl);
  others = λ b h. refl;
  storage = refl;
  mode = refl;
  results = refl;
  log = refl;
}
submit_all-Submitted (txn ∷ rest) p =
    let s = submit_all-Submitted rest (new_txn_request txn p) in
    record {
      items = s.items ∙ append_assoc p.txn_requests.items (txn ∷ []) rest;
      same = λ b.
          Renumbered-trans (p.heap b) ((new_txn_request txn p).heap b)
            ((submit_all rest (new_txn_request txn p)).heap b) (renumber p txn b) (s.same b);
      others = λ b h. s.others b (ground arith) ∙ renumber_other p txn b (ground arith);
      storage = s.storage;
      mode = s.mode;
      results = s.results;
      log = s.log;
    }

-- The numbers that the calls give: one after another, as the calls came.
pub submit_all-AreNumbered :
    (reqs : List ℕ) (p : Processor)
    → AreDistinct reqs
    → AreNumbered (submit_all reqs p).heap reqs p.next_unique_id
unfolding submit_all
submit_all-AreNumbered [] p d = tt
submit_all-AreNumbered (txn ∷ rest) p d = (
  ap (λ t. t.unique_id) ((submit_all-Submitted rest (new_txn_request txn p)).others txn d.0)
      ∙ own_number txn p,
  subst (AreNumbered (submit_all rest (new_txn_request txn p)).heap rest) (next_number txn p)
      (submit_all-AreNumbered rest (new_txn_request txn p) d.1),
)

-- Numbers do not matter to what transactions do.
abbrev AreRenumbered : (ℕ → Txn) → (ℕ → Txn) → Type 0
AreRenumbered h h' = (b : ℕ) → Renumbered (h b) (h' b)

module _ (h h' : ℕ → Txn) (r : AreRenumbered h h') where
  effect-Renumbered : (a : ℕ) (db : Db) → effect (h' a) db ≡ effect (h a) db
  unfolding Renumbered
  effect-Renumbered a db = ap (λ t. effect t db) (r a).1

  decide-Renumbered : (a : ℕ) (db : Db) → decide (h' a) db ≡ decide (h a) db
  unfolding Renumbered
  decide-Renumbered a db = ap (λ t. decide t db) (r a).1

  pub replay-Renumbered : (reqs : List ℕ) (db : Db) → replay h' reqs db ≡ replay h reqs db
  replay-Renumbered [] db = refl
  replay-Renumbered (a ∷ rest) db =
      ap (replay h' rest) (effect-Renumbered a db) ∙ replay-Renumbered rest (effect (h a) db)

  pub commits-Renumbered : (reqs : List ℕ) (db : Db) → commits h' reqs db ≡ commits h reqs db
  commits-Renumbered [] db = refl
  commits-Renumbered (a ∷ rest) db =
      let later =
        ap (commits h' rest) (effect-Renumbered a db) ∙ commits-Renumbered rest (effect (h a) db) in
      ap (λ l. if decide (h' a) db then a ∷ l else l) later
      ∙ ap
          (λ b.
            if b then a ∷ commits h rest (effect (h a) db) else commits h rest (effect (h a) db))
          (decide-Renumbered a db)

  pub Verdicts-Renumbered :
      (k : ℕ → Txn) (reqs : List ℕ) (db : Db) → Verdicts h' k reqs db → Verdicts h k reqs db
  Verdicts-Renumbered k [] db v = tt
  Verdicts-Renumbered k (a ∷ rest) db v = (
    v.0 ∙ ap (λ b. if b then committed else aborted) (decide-Renumbered a db),
    Verdicts-Renumbered k rest (effect (h a) db)
        (subst (Verdicts h' k rest) (effect-Renumbered a db) v.1),
  )

  pub AreFresh-Renumbered : (reqs : List ℕ) → AreFresh h reqs → AreFresh h' reqs
  unfolding Renumbered
  AreFresh-Renumbered [] f = tt
  AreFresh-Renumbered (a ∷ rest) f = (fresh_at a f.0, f.1, AreFresh-Renumbered rest f.2)
    where
      fresh_id : (id : ℕ) (t : Txn) → IsFresh t → IsFresh (record t { unique_id = id })
      fresh_id id t g = record {
        status = g.status;
        reads = g.reads;
        writes = g.writes;
        sets = g.sets;
      }

      fresh_at : (a : ℕ) → IsFresh (h a) → IsFresh (h' a)
      fresh_at a g = subst IsFresh (sym (r a).1) (fresh_id (r a).0 (h a) g)

pub AreFresh-distinct : (h : ℕ → Txn) (reqs : List ℕ) → AreFresh h reqs → AreDistinct reqs
AreFresh-distinct h [] f = tt
AreFresh-distinct h (a ∷ rest) f = (f.1, AreFresh-distinct h rest f.2)
