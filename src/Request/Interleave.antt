-- ===== src/Request/Interleave.antt =====
-- Executing requests one after another, and any interleaving of their record writes.
use mathlib.Core.List.{Perm}
use cmsc_624_spring.Common.{ℕ, ◌≡◌, sym, ap, ◌∙◌, fun_ext, List, [], ◌∷◌, ◌++◌, ok, arith}
use cmsc_624_spring.Database.{Database, update}
use cmsc_624_spring.Request.{Request, lock, unlock, execute, execute_all}
use cmsc_624_spring.Request.Order.{
  Write, writes_from, writes_of_all, apply_all, apply_all-append, apply_all-perm, IsValid,
  IsSeparate, txn_lem,
}

update-update {ℓ} :
    {A : Type ℓ} (f : ℕ → A) (a : ℕ) (x y : A) → update (update f a x) a y ≡ update f a y
update-update f a x y = fun_ext λ b. ground arith

update_same {ℓ} : {A : Type ℓ} (f : ℕ → A) (a b : ℕ) → update f a (f a) b ≡ f b
update_same f a b = ground (arith, at)
  where
    at : a ≡ b → f a ≡ f b
    at e = ap f e

-- Requests on the database at `d` whose assertions hold.
abbrev pub AreReady : ℕ → List Request → Type 0
AreReady d [] = Unit
AreReady d (req ∷ reqs) = (req.db ≡ d) × IsSeparate req × AreReady d reqs

abbrev after : ℕ → List Write → (ℕ → Database) → ℕ → Database
after d ws dbs = update dbs d (apply_all ws (dbs d))

update_self {ℓ} : {A : Type ℓ} (f : ℕ → A) (a : ℕ) (x : A) → update f a x a ≡ x
update_self f a x = ground arith

after-after :
    (d : ℕ) (ws ws' : List Write) (dbs : ℕ → Database)
    → after d ws' (after d ws dbs) ≡ after d (ws ++ ws') dbs
after-after d ws ws' dbs =
    let first = apply_all ws (dbs d) in
    ap (λ db. update (update dbs d first) d (apply_all ws' db)) (update_self dbs d first)
    ∙ update-update dbs d first (apply_all ws' first)
    ∙ ap (update dbs d) (sym (apply_all-append ws ws' (dbs d)))

execute_lem :
    (d : ℕ) (req : Request) (dbs : ℕ → Database)
    → req.db ≡ d
    → IsSeparate req
    → execute req dbs ≡ ok (after d (writes_from req req.num_writes 0) dbs)
unfolding execute lock unlock
execute_lem d req dbs e separate =
    rw (txn_lem req (dbs req.db) separate)
      (ap (λ i. ok (after i (writes_from req req.num_writes 0) dbs)) e)

execute_all_lem :
    (d : ℕ) (reqs : List Request) (dbs : ℕ → Database)
    → AreReady d reqs
    → execute_all reqs dbs ≡ ok (after d (writes_of_all reqs) dbs)
unfolding execute_all apply_all
execute_all_lem d [] dbs ready = ap ok (fun_ext λ b. sym (update_same dbs d b))
execute_all_lem d (req ∷ reqs) dbs (e, separate, ready) =
    let first = writes_from req req.num_writes 0 in
    rw (execute_lem d req dbs e separate, execute_all)
      (execute_all_lem d reqs (after d first dbs) ready
        ∙ ap ok (after-after d first (writes_of_all reqs) dbs))

pub execute_all-perm :
    (d : ℕ) (reqs : List Request) (ws : List Write) (dbs : ℕ → Database)
    → IsValid (dbs d)
    → AreReady d reqs
    → Perm (writes_of_all reqs) ws
    → execute_all reqs dbs ≡ ok (update dbs d (apply_all ws (dbs d)))
execute_all-perm d reqs ws dbs v ready p =
    execute_all_lem d reqs dbs ready
    ∙ ap (λ db. ok (update dbs d db)) (apply_all-perm (writes_of_all reqs) ws (dbs d) v p)
