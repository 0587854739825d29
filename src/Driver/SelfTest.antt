-- ===== src/Driver/SelfTest.antt =====
-- a1/src/db_start.cc: run_test, which runs requests on one database concurrently and on a copy of it
-- sequentially, and compares.
use mathlib.Core.List.{Perm}
use cmsc_624_spring.Common.{
  ℕ, zero, suc, ◌+◌, ◌*◌, ◌<◌, ◌≤◌, ◌≡◌, refl, sym, ap, subst, ◌∙◌, Bool, true, false, Option, none,
  some, List, [], ◌∷◌, ◌++◌, Outcome, ok, ◌>>=◌, arith, inl, inr, ◌⊎◌,
}
use native.Mathlib.Decide.{dec_lt}
use cmsc_624_spring.Database.{Database, record_size, nfields, create, copy, compare}
use cmsc_624_spring.Database.Fields.{create-IsByte}
use cmsc_624_spring.Database.Compare.{Agree, compare_iff, copy_lem}
use cmsc_624_spring.Request.{Request, set_database, execute_all}
use cmsc_624_spring.Request.Fields.{add_amounts, add_amounts_local}
use cmsc_624_spring.Request.Order.{
  Write, writes_from, writes_of_all, total, apply_all, apply_all_lem, IsValid,
}
use cmsc_624_spring.Request.Interleave.{AreReady, execute_all-perm}
use cmsc_624_spring.Driver.{generate_requests}
use cmsc_624_spring.Driver.Returns.{IsFair, generate_requests_returns}
use cmsc_624_spring.Driver.Generate.{generate_requests-AreGenerated, AreGenerated-AreReady}

abbrev pub test_db_sz : ℕ
test_db_sz = 500

-- Where the two databases are.
abbrev db_test : ℕ
db_test = 0

abbrev db_simple : ℕ
db_simple = 1

abbrev two : Database → Database → ℕ → Database
two a b zero = a
two a b (suc i) = b

unfoldable pub set_all : ℕ → List Request → List Request
set_all db [] = []
set_all db (req ∷ reqs) = set_database db req ∷ set_all db reqs

-- The sequential half: the databases after the requests, and the comparison.
unfoldable pub finish_test : Database → Database → List Request → Outcome Bool
finish_test test simple reqs = do
  dbs ← execute_all (set_all db_simple reqs) (two test simple)
  compare (dbs db_test) (dbs db_simple)

-- The launcher executes the requests on the test database; `concurrent reqs` is the order in which
-- their writes of records reach it. The code has 10000 for `num_requests`. `none`: a key took more
-- than `fuel` draws.
unfoldable pub run_test :
    (ℕ → ℕ) → ℕ → Bool → ℕ → (List Request → List Write) → Option (Outcome Bool)
run_test rand fuel multi_process num_requests concurrent =
    let test = create rand test_db_sz multi_process in
    let draws = nfields * test_db_sz in
    let fresh = create (λ i. rand (draws + i)) test_db_sz multi_process in
    elim (generate_requests rand fuel db_test test_db_sz false num_requests (2 * draws)) [
      | none ↦ none
      | some g ↦ some (do
        simple ← copy fresh test
        finish_test (apply_all (concurrent g.value) test) simple g.value)
    ]

writes_from-set_database :
    (d : ℕ) (req : Request) (n i : ℕ) → writes_from (set_database d req) n i ≡ writes_from req n i
unfolding writes_from set_database
writes_from-set_database d req zero i = refl
writes_from-set_database d req (suc n) i =
    ap (λ ws. record { key = req.writeset i; amounts = req.updates } ∷ ws)
      (writes_from-set_database d req n (i + 1))

writes-set_all : (d : ℕ) (reqs : List Request) → writes_of_all (set_all d reqs) ≡ writes_of_all reqs
unfolding set_all set_database
writes-set_all d [] = refl
writes-set_all d (req ∷ reqs) =
    ap (λ ws. ws ++ writes_of_all (set_all d reqs))
      (writes_from-set_database d req req.num_writes 0)
    ∙ ap (λ ws. writes_from req req.num_writes 0 ++ ws) (writes-set_all d reqs)

AreReady-set_all : (d e : ℕ) (reqs : List Request) → AreReady d reqs → AreReady e (set_all e reqs)
unfolding set_all set_database
AreReady-set_all d e [] r = tt
AreReady-set_all d e (req ∷ reqs) r = (refl, r.1, AreReady-set_all d e reqs r.2)

-- Databases that agree still agree after the same writes.
apply_all-Agree :
    (n : ℕ) (ws : List Write) (a b : Database)
    → IsValid a
    → IsValid b
    → Agree n a b
    → Agree n (apply_all ws a) (apply_all ws b)
apply_all-Agree n ws a b va vb agree =
    subst (λ x. Agree n x (apply_all ws b)) (sym (apply_all_lem ws a va))
      (subst (λ x. Agree n (record a { records = λ k. add_amounts (total ws k) (a.records k) }) x)
        (sym (apply_all_lem ws b vb))
        (λ k j lt lt'.
          add_amounts_local (total ws k) (a.records k) (b.records k) (λ i h. agree k i lt h) j lt'))

num_records-apply_all :
    (ws : List Write) (db : Database) → IsValid db → (apply_all ws db).num_records ≡ db.num_records
num_records-apply_all ws db v = ap (λ x. x.num_records) (apply_all_lem ws db v)

copy-IsValid :
    (n : ℕ) (dst src dst' : Database)
    → IsValid dst
    → IsValid src
    → Agree n dst' src
    → ((k j : ℕ) → (n ≤ k) ⊎ (record_size ≤ j) → dst'.records k j ≡ dst.records k j)
    → IsValid dst'
copy-IsValid n dst src dst' vd vs agree beyond k j = elim (dec_lt k n) [
  | yes in_db ↦ elim (dec_lt j record_size) [
    | yes in_record ↦ subst (λ x. x < 256) (sym (agree k j in_db in_record)) (vs k j)
    | no out ↦ subst (λ x. x < 256) (sym (beyond k j (inr (omega arith)))) (vd k j)
  ]
  | no out ↦ subst (λ x. x < 256) (sym (beyond k j (inl (omega arith)))) (vd k j)
]

-- The second half of the test, from databases that agree.
finish_test_lem :
    (reqs : List Request) (ws : List Write) (test simple : Database)
    → IsValid test
    → IsValid simple
    → AreReady db_test reqs
    → Perm (writes_of_all reqs) ws
    → test.num_records ≡ simple.num_records
    → Agree test.num_records test simple
    → finish_test (apply_all ws test) simple reqs ≡ ok true
unfolding finish_test
finish_test_lem reqs ws test simple vt vs ready p sizes agree =
    rw
      (execute_all-perm db_simple (set_all db_simple reqs) ws (two (apply_all ws test) simple) vs
        (AreReady-set_all db_test db_simple reqs ready)
        (subst (λ l. Perm l ws) (sym (writes-set_all db_simple reqs)) p))
      ((compare_iff (apply_all ws test) (apply_all ws simple)).0.1 (
        same_size ∙ sizes ∙ sym (num_records-apply_all ws simple vs),
        subst (λ n. Agree n (apply_all ws test) (apply_all ws simple)) (sym same_size)
            (apply_all-Agree test.num_records ws test simple vt vs agree),
      ))
  where
    same_size : (apply_all ws test).num_records ≡ test.num_records
    same_size = num_records-apply_all ws test vt

copied_lem :
    (rand : ℕ → ℕ) (multi_process : Bool) (ws : List Write) (reqs : List Request)
    → AreReady db_test reqs
    → Perm (writes_of_all reqs) ws
    → let test = create rand test_db_sz multi_process in
      let fresh = create (λ i. rand (nfields * test_db_sz + i)) test_db_sz multi_process in
      (do simple ← copy fresh test; finish_test (apply_all ws test) simple reqs) ≡ ok true
unfolding create
copied_lem rand multi_process ws reqs ready p =
    let other = λ (i : ℕ). rand (nfields * test_db_sz + i) in
    let test = create rand test_db_sz multi_process in
    let fresh = create other test_db_sz multi_process in
    let vt = create-IsByte rand test_db_sz multi_process in
    let (simple, copied, size, agree, beyond) = copy_lem fresh test refl in
    rw copied (
      finish_test_lem reqs ws test simple vt
        (copy-IsValid test_db_sz fresh test simple (create-IsByte other test_db_sz multi_process) vt
          agree beyond)
        ready p (sym size) (λ k j lt lt'. sym (agree k j lt lt')))

-- The self-test passes: if rand() is fair, any `fuel` draws in a row containing each key, and the
-- launcher gets all record writes of the requests to the test database, each as one step, in any
-- order whatever, then the test comes to its end, no assertion fails, and the comparison with the
-- sequential run finds no difference.
pub run_test_passes :
    (rand : ℕ → ℕ) (fuel : ℕ) (multi_process : Bool) (num_requests : ℕ)
    (concurrent : List Request → List Write)
    → IsFair rand fuel test_db_sz
    → ((reqs : List Request) → Perm (writes_of_all reqs) (concurrent reqs))
    → run_test rand fuel multi_process num_requests concurrent ≡ some (ok true)
unfolding run_test
run_test_passes rand fuel multi_process num_requests concurrent fair p =
    let draws = 2 * (nfields * test_db_sz) in
    let (g, made) =
      generate_requests_returns rand fuel test_db_sz fair db_test false num_requests draws
        (omega arith) in
    let generated =
      generate_requests-AreGenerated rand fuel db_test test_db_sz false num_requests draws g
        (omega arith) made in
    rw (made, run_test)
      (ap some (
        copied_lem rand multi_process (concurrent g.value) g.value
          (AreGenerated-AreReady db_test test_db_sz false 0 g.value generated.1) (p g.value)))
