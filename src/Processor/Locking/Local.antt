-- ===== src/Processor/Locking/Local.antt =====
-- A transaction depends on the records of its readset and writeset only, and changes those of its
-- writeset only.
use cmsc_624_spring.Common.{
  ℕ, ◌+◌, ◌%◌, ◌^◌, ◌≡◌, refl, sym, ap, ◌∙◌, Bool, true, false, ◌&&◌, ◌||◌, Option, none, some,
  List, [], ◌∷◌, arith, Map, find, keys, has, has-keys, is_some, or_else, Bool-cases, inl, inr,
}
use cmsc_624_spring.Txn.{Txn, TxnType, noop, expect, puts, rmw}
use cmsc_624_spring.Txn.Types.{or_zero}
use cmsc_624_spring.Txn.Spec.{
  Db, holds_all, holds_value, decide_logic, decide, written, effect, HasSets,
}

abbrev pub in_sets : Txn → ℕ → Bool
in_sets t j = has j t.readset || has j t.writeset

-- The databases have the same records where the transaction can look.
abbrev pub SameFor : Txn → Db → Db → Type 0
SameFor t db db' = (j : ℕ) → in_sets t j ≡ true → db j ≡ db' j

holds_all-same :
    (m : Map ℕ) (db db' : Db)
    → ((j : ℕ) → has j (keys m) ≡ true → db j ≡ db' j)
    → holds_all m db ≡ holds_all m db'
unfolding holds_all has
holds_all-same [] db db' h = refl
holds_all-same ((k, v) ∷ m) db db' h =
    ap (λ o. holds_value o v && holds_all m db) (h k (ground arith))
    ∙ ap (λ b. holds_value (db' k) v && b) (holds_all-same m db db' (λ j e. h j (ground arith)))

decide_logic-same :
    (logic : TxnType) (readset writeset : List ℕ) (db db' : Db)
    → HasSets logic readset writeset
    → ((j : ℕ) → (has j readset || has j writeset) ≡ true → db j ≡ db' j)
    → decide_logic logic db ≡ decide_logic logic db'
decide_logic-same noop readset writeset db db' sets h = refl
decide_logic-same (expect m) readset writeset db db' sets h =
    holds_all-same m db db' (λ j e. h j (ground (arith, sets j)))
decide_logic-same (puts m) readset writeset db db' sets h = refl
decide_logic-same (rmw time) readset writeset db db' sets h = refl

pub decide-same :
    (t : Txn) (db db' : Db)
    → HasSets t.logic t.readset t.writeset
    → SameFor t db db'
    → decide t db ≡ decide t db'
decide-same t db db' sets h = decide_logic-same t.logic t.readset t.writeset db db' sets h

pub written-same :
    (t : Txn) (db db' : Db) (j : ℕ)
    → SameFor t db db'
    → written t.logic t.writeset db j ≡ written t.logic t.writeset db' j
written-same t db db' j h = at t.logic
  where
    at : (l : TxnType) → written l t.writeset db j ≡ written l t.writeset db' j
    at noop = refl
    at (expect m) = refl
    at (puts m) = refl
    at (rmw time) = elim (Bool-cases (has j t.writeset)) [
      | inl here ↦ rw here (ap (λ o. some ((or_zero o + 1) % 2 ^ 64)) (h j (ground arith)))
      | inr absent ↦ rw absent refl
    ]

absent_value : (j : ℕ) (m : Map ℕ) → has j (keys m) ≡ false → find j m ≡ none
absent_value j m h = at (find j m) (sym (has-keys j m) ∙ h)
  where
    at : (o : Option ℕ) → is_some o ≡ false → o ≡ none
    at none e = refl
    at (some v) e = absurd cc

pub written_outside :
    (t : Txn) (db : Db) (j : ℕ)
    → HasSets t.logic t.readset t.writeset
    → has j t.writeset ≡ false
    → written t.logic t.writeset db j ≡ none
written_outside t db j sets h = at t.logic sets
  where
    at : (l : TxnType) → HasSets l t.readset t.writeset → written l t.writeset db j ≡ none
    at noop sets = refl
    at (expect m) sets = refl
    at (puts m) sets = absent_value j m (sets.1 j ∙ h)
    at (rmw time) sets = rw h refl

-- The records outside of the writeset stay.
pub effect_outside :
    (t : Txn) (db : Db) (j : ℕ)
    → HasSets t.logic t.readset t.writeset
    → has j t.writeset ≡ false
    → effect t db j ≡ db j
effect_outside t db j sets h = elim (Bool-cases (decide t db)) [
  | inl commits ↦ rw commits (ap (λ o. or_else o (db j)) (written_outside t db j sets h))
  | inr aborts ↦ rw aborts refl
]
