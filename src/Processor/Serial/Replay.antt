-- ===== src/Processor/Serial/Replay.antt =====
-- The serial scheduler refines a database to which the requests are applied one after another.
use cmsc_624_spring.Common.{
  ℕ, zero, suc, ◌≤◌, ◌≡◌, refl, sym, ap, subst, ◌∙◌, Bool, true, false, List, [], ◌∷◌, ◌++◌, ok,
  ◌==◌, if◌then◌else◌, arith, length, has, append-nil, append_assoc,
}
use cmsc_624_spring.Txn.{Txn}
use cmsc_624_spring.Txn.Spec.{Db, decide, effect, verdict, IsFresh}
use cmsc_624_spring.Storage.{single}
use cmsc_624_spring.Storage.Single.{Storage}
use cmsc_624_spring.Processor.{Processor}
use cmsc_624_spring.Processor.Execute.{records}
use cmsc_624_spring.Processor.Serial.{serial_round, serial_rounds}
use cmsc_624_spring.Processor.Serial.Round.{serial_round_lem, serial_round_idle}

-- The database after the requests, in order.
abbrev pub replay : (ℕ → Txn) → List ℕ → Db → Db
replay heap [] db = db
replay heap (a ∷ rest) db = replay heap rest (effect (heap a) db)

-- Each request has the status that its own turn decides.
abbrev pub Verdicts : (ℕ → Txn) → (ℕ → Txn) → List ℕ → Db → Type 0
Verdicts heap heap' [] db = Unit
Verdicts heap heap' (a ∷ rest) db =
    ((heap' a).status ≡ verdict (heap a) db) × Verdicts heap heap' rest (effect (heap a) db)

-- The requests that commit, in order.
abbrev pub commits : (ℕ → Txn) → List ℕ → Db → List ℕ
commits heap [] db = []
commits heap (a ∷ rest) db =
    if decide (heap a) db
    then a ∷ commits heap rest (effect (heap a) db)
    else commits heap rest (effect (heap a) db)

-- Distinct addresses of fresh transactions.
abbrev pub AreFresh : (ℕ → Txn) → List ℕ → Type 0
AreFresh heap [] = Unit
AreFresh heap (a ∷ rest) = IsFresh (heap a) × (has a rest ≡ false) × AreFresh heap rest

abbrev Agree : (ℕ → Txn) → (ℕ → Txn) → List ℕ → Type 0
Agree h h' [] = Unit
Agree h h' (a ∷ rest) = (h a ≡ h' a) × Agree h h' rest

Agree-of_others :
    (h h' : ℕ → Txn) (txn : ℕ) (rest : List ℕ)
    → has txn rest ≡ false
    → ((b : ℕ) → (txn == b) ≡ false → h' b ≡ h b)
    → Agree h h' rest
unfolding has
Agree-of_others h h' txn [] absent others = tt
Agree-of_others h h' txn (a ∷ rest) absent others =
    (sym (others a (ground arith)), Agree-of_others h h' txn rest (ground arith) others)

AreFresh-Agree :
    (h h' : ℕ → Txn) (rest : List ℕ) → Agree h h' rest → AreFresh h rest → AreFresh h' rest
AreFresh-Agree h h' [] g f = tt
AreFresh-Agree h h' (a ∷ rest) g f = (subst IsFresh g.0 f.0, f.1, AreFresh-Agree h h' rest g.1 f.2)

replay-Agree :
    (h h' : ℕ → Txn) (rest : List ℕ) (db : Db)
    → Agree h h' rest
    → replay h rest db ≡ replay h' rest db
replay-Agree h h' [] db g = refl
replay-Agree h h' (a ∷ rest) db g =
    ap (λ t. replay h rest (effect t db)) g.0 ∙ replay-Agree h h' rest (effect (h' a) db) g.1

commits-Agree :
    (h h' : ℕ → Txn) (rest : List ℕ) (db : Db)
    → Agree h h' rest
    → commits h rest db ≡ commits h' rest db
commits-Agree h h' [] db g = refl
commits-Agree h h' (a ∷ rest) db g =
    ap (λ t. if decide t db then a ∷ commits h rest (effect t db) else commits h rest (effect t db))
      g.0
    ∙ ap (λ l. if decide (h' a) db then a ∷ l else l)
        (commits-Agree h h' rest (effect (h' a) db) g.1)

Verdicts-Agree :
    (h h' k : ℕ → Txn) (rest : List ℕ) (db : Db)
    → Agree h h' rest
    → Verdicts h' k rest db
    → Verdicts h k rest db
Verdicts-Agree h h' k [] db g v = tt
Verdicts-Agree h h' k (a ∷ rest) db g v = (
  v.0 ∙ ap (λ t. verdict t db) (sym g.0),
  Verdicts-Agree h h' k rest (effect (h a) db) g.1
      (subst (λ t. Verdicts h' k rest (effect t db)) (sym g.0) v.1),
)

-- What the rounds leave.
pub record Replayed (p : Processor) (requests : List ℕ) (db : Db) (p' : Processor) : Type 0 where
  pub storage : (s' : Storage) × (p'.storage ≡ single s') × (records s' ≡ replay p.heap requests db)
  pub verdicts : Verdicts p.heap p'.heap requests db
  pub others : (b : ℕ) → has b requests ≡ false → p'.heap b ≡ p.heap b
  pub log : p'.committed_txns.elements ≡ p.committed_txns.elements ++ commits p.heap requests db
  pub requests_left : p'.txn_requests.items ≡ []
  pub results : p'.txn_results.items ≡ p.txn_results.items ++ requests

append_if :
    (b : Bool) (xs : List ℕ) (a : ℕ) (ys : List ℕ)
    → (if b then xs ++ a ∷ [] else xs) ++ ys ≡ xs ++ (if b then a ∷ ys else ys)
append_if true xs a ys = append_assoc xs (a ∷ []) ys
append_if false xs a ys = refl

rounds_step :
    (clock uninit : ℕ → ℕ) (n : ℕ) (p p₁ : Processor)
    → serial_round clock uninit p ≡ ok p₁
    → serial_rounds clock uninit (suc n) p ≡ serial_rounds clock uninit n p₁
unfolding serial_rounds
rounds_step clock uninit n p p₁ h = rw (h, serial_rounds) refl

-- Serial equivalence. On a single-version storage, with the requests distinct and fresh, any number of
-- rounds that is at least the number of requests ends without `DIE` and leaves: the database of the
-- requests applied one after another in queue order, an abort applying nothing; for each request the
-- status COMMITTED or ABORTED that the database of its turn decides; the results handed to the
-- client in the order of the requests; the commit log extended by exactly the committed ones, in
-- order; no request waiting; and every other transaction untouched.
pub serial_rounds_lem :
    (clock uninit : ℕ → ℕ) (n : ℕ) (requests : List ℕ) (p : Processor) (s : Storage)
    → length requests ≤ n
    → p.txn_requests.items ≡ requests
    → p.storage ≡ single s
    → AreFresh p.heap requests
    → (p' : Processor) × (serial_rounds clock uninit n p ≡ ok p')
      × Replayed p requests (records s) p'
unfolding serial_rounds has
serial_rounds_lem clock uninit zero [] p s le items e fresh = (
  p,
  refl,
  record {
    storage = (s, e, refl);
    verdicts = tt;
    others = λ b h. refl;
    log = sym (append-nil p.committed_txns.elements);
    requests_left = items;
    results = sym (append-nil p.txn_results.items);
  },
)
serial_rounds_lem clock uninit (suc n) [] p s le items e fresh =
    let (p', done, r) = serial_rounds_lem clock uninit n [] p s (omega arith) items e tt in
    (p', rounds_step clock uninit n p p (serial_round_idle clock uninit p items) ∙ done, r)
serial_rounds_lem clock uninit zero (a ∷ rest) p s le items e fresh = absurd (omega arith)
serial_rounds_lem clock uninit (suc n) (a ∷ rest) p s le items e fresh =
    let (p₁, done₁, r₁) = serial_round_lem clock uninit a rest p s items e fresh.0 in
    let (s₁, e₁, db₁) = r₁.storage in
    let agree = Agree-of_others p.heap p₁.heap a rest fresh.1 r₁.others in
    let (p', done, r) =
      serial_rounds_lem clock uninit n rest p₁ s₁ (omega arith) r₁.requests e₁
        (AreFresh-Agree p.heap p₁.heap rest agree fresh.2) in
    (
      p',
      rounds_step clock uninit n p p₁ done₁ ∙ done,
      record {
        storage = (
          r.storage.0,
          r.storage.1,
          r.storage.2
              ∙ sym (replay-Agree p.heap p₁.heap rest (records s₁) agree)
              ∙ ap (replay p.heap rest) db₁,
        );
        verdicts = (
          ap (λ t. t.status) (r.others a fresh.1) ∙ r₁.status,
          subst (Verdicts p.heap p'.heap rest) db₁
              (Verdicts-Agree p.heap p₁.heap p'.heap rest (records s₁) agree r.verdicts),
        );
        others = λ b h. r.others b (ground arith) ∙ r₁.others b (ground arith);
        log =
            r.log
            ∙ ap (λ l. l ++ commits p₁.heap rest (records s₁)) r₁.log
            ∙ append_if (decide (p.heap a) (records s)) p.committed_txns.elements a
                (commits p₁.heap rest (records s₁))
            ∙ ap
                (λ l.
                  p.committed_txns.elements ++ (if decide (p.heap a) (records s) then a ∷ l else l))
                (sym (commits-Agree p.heap p₁.heap rest (records s₁) agree)
                  ∙ ap (commits p.heap rest) db₁);
        requests_left = r.requests_left;
        results =
            r.results
            ∙ ap (λ l. l ++ rest) r₁.results
            ∙ append_assoc p.txn_results.items (a ∷ []) rest;
      },
    )
