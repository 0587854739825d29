-- ===== src/Txn/Fresh.antt =====
-- Transactions as the constructors of a2/src/txn/txn_types.h leave them.
use cmsc_624_spring.Common.{
  ℕ, ◌≡◌, refl, false, ◌||◌, List, [], ◌∷◌, arith, Map, keys, has, insert, has-insert, IsSorted,
  IsAscending,
}
use cmsc_624_spring.Txn.Types.{insert_keys, new_noop, new_expect, new_put, new_rmw}
use cmsc_624_spring.Txn.Spec.{IsFresh}

has-insert_keys :
    (m : Map ℕ) (s : List ℕ) (j : ℕ) → has j (insert_keys m s) ≡ (has j (keys m) || has j s)
unfolding insert_keys has
has-insert_keys [] s j = refl
has-insert_keys ((k, v) ∷ m) s j =
    ground (arith, has-insert_keys m (insert k s) j, has-insert k j s)

has_nil : (j : ℕ) → has j [] ≡ false
unfolding has
has_nil j = refl

has-insert_keys_nil : (m : Map ℕ) (j : ℕ) → has j (keys m) ≡ has j (insert_keys m [])
has-insert_keys_nil m j = ground (arith, has-insert_keys m [] j, has_nil j)

pub new_noop-IsFresh : IsFresh new_noop
unfolding new_noop
new_noop-IsFresh = record { status = refl; reads = refl; writes = refl; sets = tt }

pub new_expect-IsFresh : (m : Map ℕ) → IsFresh (new_expect m)
unfolding new_expect
new_expect-IsFresh m = record {
  status = refl;
  reads = refl;
  writes = refl;
  sets = has-insert_keys_nil m;
}

pub new_put-IsFresh : (m : Map ℕ) → IsSorted m → IsFresh (new_put m)
unfolding new_put
new_put-IsFresh m a = record {
  status = refl;
  reads = refl;
  writes = refl;
  sets = (a, has-insert_keys_nil m);
}

pub new_rmw-IsFresh :
    (readset writeset : List ℕ) (time : ℕ)
    → IsAscending writeset
    → IsFresh (new_rmw readset writeset time)
unfolding new_rmw
new_rmw-IsFresh readset writeset time a = record {
  status = refl;
  reads = refl;
  writes = refl;
  sets = a;
}
