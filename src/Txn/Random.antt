-- ===== src/Txn/Random.antt =====
-- a2/src/txn/txn_types.h: the constructor of RMW that draws its sets. `rand i` is the result of call
-- number i of rand(); the functions take the number of calls made before and hand on the number after.
use native.Mathlib.Nat.{mod-lt}
use cmsc_624_spring.Common.{
  ℕ, zero, suc, ◌+◌, ◌%◌, ◌<◌, ◌≤◌, ◌≡◌, refl, sym, ap, subst, ◌∙◌, Bool, true, false, ◌||◌, Option,
  none, some, List, [], ◌∷◌, ◌++◌, ◌==◌, if◌then◌else◌, arith, has, insert, has-insert, length,
  length-append, length-insert, IsAscending, insert-IsAscending, Bool-cases, inl, inr, IsFair,
  unseen, has-append, ok, Outcome, ◌>>◌, require, leb, le→leb,
}
use cmsc_624_spring.Txn.{Txn, disjoint, check_read_write_sets}
use cmsc_624_spring.Txn.Types.{new_rmw}
use cmsc_624_spring.Txn.Spec.{IsFresh}
use cmsc_624_spring.Txn.Fresh.{new_rmw-IsFresh}

pub record Drawn {ℓ} (A : Type ℓ) : Type ℓ where
  pub value : A
  pub calls : ℕ

-- The loop that draws a key outside of both sets; `none`: `fuel` draws were not enough.
unfoldable pub draw_key : (ℕ → ℕ) → ℕ → ℕ → List ℕ → List ℕ → ℕ → Option (Drawn ℕ)
draw_key rand zero dbsize readset set calls = none
draw_key rand (suc fuel) dbsize readset set calls =
    let key = rand calls % dbsize in
    let rest = draw_key rand fuel dbsize readset set (calls + 1) in
    if has key readset || has key set
    then rest
    else some (record { value = key; calls = calls + 1 })

-- The loop that fills a set with `n` keys outside of `readset`.
unfoldable pub draw_set : (ℕ → ℕ) → ℕ → ℕ → List ℕ → ℕ → List ℕ → ℕ → Option (Drawn (List ℕ))
draw_set rand fuel dbsize readset zero set calls = some (record { value = set; calls = calls })
draw_set rand fuel dbsize readset (suc n) set calls =
    elim (draw_key rand fuel dbsize readset set calls) [
      | none ↦ none
      | some k ↦ draw_set rand fuel dbsize readset n (insert k.value set) k.calls
    ]

-- `DCHECK` is `assert`, since DEBUG is true.
unfoldable pub new_random_rmw : (ℕ → ℕ) → ℕ → ℕ → ℕ → ℕ → ℕ → ℕ → Outcome (Option (Drawn Txn))
new_random_rmw rand fuel dbsize readsetsize writesetsize time calls = do
  require (leb (readsetsize + writesetsize) dbsize)
  ok (elim (draw_set rand fuel dbsize [] readsetsize [] calls) [
    | none ↦ none
    | some r ↦ elim (draw_set rand fuel dbsize r.value writesetsize [] r.calls) [
      | none ↦ none
      | some w ↦ some (record { value = new_rmw r.value w.value time; calls = w.calls })
    ]
  ])

-- The keys of a set lie in the database and outside of the other set.
IsWithin : ℕ → List ℕ → List ℕ → Type 0
IsWithin dbsize readset set = (j : ℕ) → has j set ≡ true → (j < dbsize) × (has j readset ≡ false)

draw_key_lem :
    (rand : ℕ → ℕ) (fuel dbsize : ℕ) (readset set : List ℕ) (calls c : ℕ)
    → 0 < dbsize
    → calls ≤ c
    → c < calls + fuel
    → (has (rand c % dbsize) readset || has (rand c % dbsize) set) ≡ false
    → (k : Drawn ℕ) × (draw_key rand fuel dbsize readset set calls ≡ some k)
      × (k.value < dbsize)
      × ((has k.value readset || has k.value set) ≡ false)
unfolding draw_key
draw_key_lem rand zero dbsize readset set calls c pos lo hi new = absurd (omega arith)
draw_key_lem rand (suc fuel) dbsize readset set calls c pos lo hi new =
    elim (Bool-cases (has (rand calls % dbsize) readset || has (rand calls % dbsize) set)) [
      | inl old ↦
          let (k, e, bound, rest) =
            draw_key_lem rand fuel dbsize readset set (calls + 1) c pos (later old) (omega arith)
              new in
          (k, rw old e, bound, rest)
      | inr fresh ↦ (
        record { value = rand calls % dbsize; calls = calls + 1 },
        rw fresh refl,
        mod-lt (rand calls) pos,
        fresh,
      )
    ]
  where
    later :
        (has (rand calls % dbsize) readset || has (rand calls % dbsize) set) ≡ true → calls + 1 ≤ c
    later old = ground (arith, ap (λ i. has (rand i % dbsize) readset || has (rand i % dbsize) set))

left_false : (a b : Bool) → (a || b) ≡ false → a ≡ false
left_false a b h = ground arith

right_false : (a b : Bool) → (a || b) ≡ false → b ≡ false
right_false a b h = ground arith

insert-IsWithin :
    (dbsize : ℕ) (readset set : List ℕ) (key : ℕ)
    → key < dbsize
    → has key readset ≡ false
    → IsWithin dbsize readset set
    → IsWithin dbsize readset (insert key set)
unfolding IsWithin
insert-IsWithin dbsize readset set key lt new within j h = elim (Bool-cases (key == j)) [
  | inl same ↦
      let e : key ≡ j = ground arith in
      subst (λ i. (i < dbsize) × (has i readset ≡ false)) e (lt, new)
  | inr other ↦ within j (ground (arith, has-insert key j set))
]

module _ (rand : ℕ → ℕ) (fuel dbsize : ℕ) (fair : IsFair rand fuel dbsize) where
  draw_set_lem :
      (readset : List ℕ) (n : ℕ) (set : List ℕ) (calls : ℕ)
      → length readset + length set + n ≤ dbsize
      → IsAscending set
      → IsWithin dbsize readset set
      → (s : Drawn (List ℕ)) × (draw_set rand fuel dbsize readset n set calls ≡ some s)
        × IsAscending s.value
        × IsWithin dbsize readset s.value
        × (length s.value ≡ length set + n)
  unfolding draw_set IsWithin
  draw_set_lem readset zero set calls room asc within =
      (record { value = set; calls = calls }, refl, asc, within, omega arith)
  draw_set_lem readset (suc n) set calls room asc within =
      let (key, lt, new) =
        unseen dbsize (readset ++ set) (omega (arith, length-append readset set)) in
      let (c, lo, hi, e) = fair calls key lt in
      let outside = sym (has-append key readset set) ∙ new in
      let (k, drawn, bound, fresh) =
        draw_key_lem rand fuel dbsize readset set calls c (omega arith) lo hi
          (subst (λ j. (has j readset || has j set) ≡ false) (sym e) outside) in
      let grown : length (insert k.value set) ≡ suc (length set) =
        length-insert k.value set asc
        ∙ ap (λ b. if b then length set else suc (length set))
            (right_false (has k.value readset) (has k.value set) fresh) in
      let (s, done, asc', within', size) =
        draw_set_lem readset n (insert k.value set) k.calls (omega (arith, grown))
          (insert-IsAscending k.value set asc)
          (insert-IsWithin dbsize readset set k.value bound
            (left_false (has k.value readset) (has k.value set) fresh) within) in
      (s, rw (draw_set, drawn) done, asc', within', omega (arith, size, grown))

disjoint_lem :
    (readset writeset : List ℕ)
    → ((j : ℕ) → has j writeset ≡ true → has j readset ≡ false)
    → disjoint readset writeset ≡ true
unfolding disjoint has
disjoint_lem readset [] h = refl
disjoint_lem readset (key ∷ keys) h =
    let here = h key (ground arith) in
    let later = disjoint_lem readset keys (λ j e. h j (ground arith)) in ground arith

none-IsWithin : (dbsize : ℕ) (readset : List ℕ) → IsWithin dbsize readset []
unfolding IsWithin has
none-IsWithin dbsize readset j h = absurd cc

-- If rand() is fair, any `fuel` draws in a row containing each key, and the database has room for both
-- sets, then the constructor of RMW that draws its sets passes its DCHECK and returns a transaction with no reads or writes
-- yet, with sets of the sizes asked for, whose keys lie in the database, and which pass
-- CheckReadWriteSets: no key is in both.
pub new_random_rmw_lem :
    (rand : ℕ → ℕ) (fuel dbsize readsetsize writesetsize time calls : ℕ)
    → IsFair rand fuel dbsize
    → readsetsize + writesetsize ≤ dbsize
    → (t : Drawn Txn) × (new_random_rmw rand fuel dbsize readsetsize writesetsize time calls
        ≡ ok (some t))
      × IsFresh t.value
      × (check_read_write_sets t.value ≡ ok tt)
      × (length t.value.readset ≡ readsetsize)
      × (length t.value.writeset ≡ writesetsize)
      × ((j : ℕ) → (has j t.value.readset || has j t.value.writeset) ≡ true → j < dbsize)
unfolding new_random_rmw check_read_write_sets new_rmw IsWithin
new_random_rmw_lem rand fuel dbsize readsetsize writesetsize time calls fair room =
    let (r, drawn, asc, within, size) =
      draw_set_lem rand fuel dbsize fair [] readsetsize [] calls (omega arith) tt
        (none-IsWithin dbsize []) in
    let (w, drawn', asc', within', size') =
      draw_set_lem rand fuel dbsize fair r.value writesetsize [] r.calls (omega (arith, size)) tt
        (none-IsWithin dbsize r.value) in
    (
      record { value = new_rmw r.value w.value time; calls = w.calls },
      rw (new_random_rmw, le→leb (readsetsize + writesetsize) dbsize room, drawn, drawn') refl,
      new_rmw-IsFresh r.value w.value time asc',
      rw (disjoint_lem r.value w.value (λ j h. (within' j h).1)) refl,
      omega (arith, size),
      omega (arith, size'),
      λ j h. elim (Bool-cases (has j r.value)) [
        | inl reads ↦ (within j reads).0
        | inr not_read ↦ (within' j (ground arith)).0
      ],
    )
