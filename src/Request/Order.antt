-- ===== src/Request/Order.antt =====
-- The order in which records are written does not matter: a database after a set of requests depends
-- on the writes as a multiset.
use mathlib.Core.List.{Perm, Permᴰ}
use mathlib.Core.Logic.{∥∥₁_elim}
use native.Mathlib.Nat.{ℕ_set}
use cmsc_624_spring.Common.{
  ℕ, zero, suc, ◌+◌, ◌<◌, ◌≡◌, refl, sym, ap, subst, ◌∙◌, fun_ext, true, false, List, [], ◌∷◌, ◌++◌,
  ok, ◌==◌, if◌then◌else◌, arith, inl, inr, Bool-cases,
}
use cmsc_624_spring.Database.{Database, get_record, put_record}
use cmsc_624_spring.Request.{Request, do_write, may_write, write_records, txn}
use cmsc_624_spring.Database.Fields.{IsByte}
use cmsc_624_spring.Request.Fields.{
  add_amounts, do_write_lem, add_amounts-IsByte, add_amounts_twice, add_amounts_zero,
}

-- One call of DoWrite on the record with that key.
pub record Write : Type 0 where
  pub key : ℕ
  pub amounts : ℕ → ℕ

unfoldable pub apply_write : Write → Database → Database
apply_write w db = put_record db w.key (do_write w.amounts (get_record db w.key))

unfoldable pub apply_all : List Write → Database → Database
apply_all [] db = db
apply_all (w ∷ ws) db = apply_all ws (apply_write w db)

-- The writes of a request, with `n` left from write `i`.
unfoldable pub writes_from : Request → ℕ → ℕ → List Write
writes_from req zero i = []
writes_from req (suc n) i =
    record { key = req.writeset i; amounts = req.updates } ∷ writes_from req n (i + 1)

abbrev pub writes_of_all : List Request → List Write
writes_of_all [] = []
writes_of_all (req ∷ reqs) = writes_from req req.num_writes 0 ++ writes_of_all reqs

abbrev pub share : Write → ℕ → ℕ → ℕ
share w k f = if w.key == k then w.amounts f else 0

-- What the writes add to field `f` of the record with key `k`.
abbrev pub total : List Write → ℕ → ℕ → ℕ
total [] k f = 0
total (w ∷ ws) k f = share w k f + total ws k f

abbrev pub IsValid : Database → Type 0
IsValid db = (k : ℕ) → IsByte (db.records k)

abbrev added : List Write → Database → Database
added ws db = record db { records = λ k. add_amounts (total ws k) (db.records k) }

share_same : (w : Write) (k : ℕ) → (w.key == k) ≡ true → share w k ≡ w.amounts
share_same w k h = fun_ext λ f. rw h refl

share_other : (w : Write) (k : ℕ) → (w.key == k) ≡ false → share w k ≡ (λ f. 0)
share_other w k h = fun_ext λ f. rw h refl

record-write :
    (w : Write) (db : Database) (k : ℕ)
    → IsValid db
    → (apply_write w db).records k ≡ add_amounts (share w k) (db.records k)
unfolding apply_write put_record get_record
record-write w db k v = elim (Bool-cases (w.key == k)) [
  | inl same ↦
      let e : w.key ≡ k = ground arith in
      ap (λ b. if b then do_write w.amounts (db.records w.key) else db.records k) same
      ∙ do_write_lem w.amounts (db.records w.key) (v w.key)
      ∙ ap (λ i. add_amounts w.amounts (db.records i)) e
      ∙ ap (λ t. add_amounts t (db.records k)) (sym (share_same w k same))
  | inr other ↦
      ap (λ b. if b then do_write w.amounts (db.records w.key) else db.records k) other
      ∙ sym (add_amounts_zero (db.records k) (v k))
      ∙ ap (λ t. add_amounts t (db.records k)) (sym (share_other w k other))
]

apply_write-IsValid : (w : Write) (db : Database) → IsValid db → IsValid (apply_write w db)
apply_write-IsValid w db v k =
    subst IsByte (sym (record-write w db k v)) (add_amounts-IsByte (share w k) (db.records k) (v k))

added-write :
    (w : Write) (ws : List Write) (db : Database)
    → IsValid db
    → added ws (apply_write w db) ≡ added (w ∷ ws) db
unfolding apply_write put_record get_record
added-write w ws db v =
    ap (λ r. record db { records = r })
      (fun_ext λ k.
        ap (add_amounts (total ws k)) (record-write w db k v)
        ∙ add_amounts_twice (share w k) (total ws k) (db.records k) (v k))

-- The writes add their totals to each field of each record, modulo 2^64.
pub apply_all_lem : (ws : List Write) (db : Database) → IsValid db → apply_all ws db ≡ added ws db
unfolding apply_all
apply_all_lem [] db v =
    ap (λ r. record db { records = r }) (fun_ext λ k. sym (add_amounts_zero (db.records k) (v k)))
apply_all_lem (w ∷ ws) db v =
    apply_all_lem ws (apply_write w db) (apply_write-IsValid w db v) ∙ added-write w ws db v

total-perm-d : {ws ws' : List Write} (k f : ℕ) → Permᴰ ws ws' → total ws k f ≡ total ws' k f
total-perm-d k f Permᴰ.nil = refl
total-perm-d k f (Permᴰ.cons {b = w'} {l₁ = xs} {l₂ = ys} e d) =
    ap (λ w. share w k f + total xs k f) e ∙ ap (λ n. share w' k f + n) (total-perm-d k f d)
total-perm-d k f (Permᴰ.swap {a} {b} {a'} {b'} {l} e e') =
    omega (arith, ap (λ w. share w k f) e, ap (λ w. share w k f) e')
total-perm-d k f (Permᴰ.trans d d') = total-perm-d k f d ∙ total-perm-d k f d'

total-perm : (ws ws' : List Write) → Perm ws ws' → (k f : ℕ) → total ws k f ≡ total ws' k f
total-perm ws ws' p k f = ∥∥₁_elim p (ℕ_set _ _) (total-perm-d k f)

pub apply_all-perm :
    (ws ws' : List Write) (db : Database)
    → IsValid db
    → Perm ws ws'
    → apply_all ws db ≡ apply_all ws' db
apply_all-perm ws ws' db v p =
    apply_all_lem ws db v
    ∙ ap (λ r. record db { records = r })
        (fun_ext λ k. ap (λ t. add_amounts t (db.records k)) (fun_ext (total-perm ws ws' p k)))
    ∙ sym (apply_all_lem ws' db v)

pub apply_all-append :
    (ws ws' : List Write) (db : Database)
    → apply_all (ws ++ ws') db ≡ apply_all ws' (apply_all ws db)
unfolding apply_all
apply_all-append [] ws' db = refl
apply_all-append (w ∷ ws) ws' db = apply_all-append ws ws' (apply_write w db)

-- The assertion of `Txn` holds at every write.
abbrev pub IsSeparate : Request → Type 0
IsSeparate req = (i : ℕ) → i < req.num_writes → may_write req i ≡ true

write_records_lem :
    (req : Request) (n i : ℕ) (db : Database)
    → ((j : ℕ) → j < i + n → may_write req j ≡ true)
    → write_records req n i db ≡ ok (apply_all (writes_from req n i) db)
unfolding write_records apply_all writes_from apply_write
write_records_lem req zero i db h = refl
write_records_lem req (suc n) i db h =
    rw (h i (omega arith), write_records)
      (write_records_lem req n (i + 1)
        (apply_write (record { key = req.writeset i; amounts = req.updates }) db)
        (λ j lt. h j (omega arith)))

pub txn_lem :
    (req : Request) (db : Database)
    → IsSeparate req
    → txn req db ≡ ok (apply_all (writes_from req req.num_writes 0) db)
unfolding txn
txn_lem req db h = write_records_lem req req.num_writes 0 db (λ j lt. h j (omega arith))
