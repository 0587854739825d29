-- ===== src/Txn/Clone.antt =====
-- a2/src/txn/txn_types.h: the virtual copy constructors.
use cmsc_624_spring.Common.{◌≡◌, refl, [], ap}
use cmsc_624_spring.Txn.{Txn, TxnType, noop, expect, puts, rmw, copy_txn_internals}
use cmsc_624_spring.Txn.Types.{new_noop, new_expect, new_put, new_rmw}

-- Each builds a new object of its class from the fields of the class, and copies the rest over what
-- the constructor has set.
new_like : TxnType → Txn
new_like noop = new_noop
new_like (expect m) = new_expect m
new_like (puts m) = new_put m
new_like (rmw time) = new_rmw [] [] time

pub clone : Txn → Txn
unfolding copy_txn_internals new_like
clone t = copy_txn_internals t (new_like t.logic)

logic-new_like : (l : TxnType) → (new_like l).logic ≡ l
unfolding new_like new_noop new_expect new_put new_rmw
logic-new_like noop = refl
logic-new_like (expect m) = refl
logic-new_like (puts m) = refl
logic-new_like (rmw time) = refl

-- A clone equals the transaction it was made from, at any point of its life: same class and fields
-- of the class, sets, buffers, status and numbers.
pub clone_lem : (t : Txn) → clone t ≡ t
unfolding clone
clone_lem t = ap (λ l. record t { logic = l }) (logic-new_like t.logic)
