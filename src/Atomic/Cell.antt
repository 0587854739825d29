-- ===== src/Atomic/Cell.antt =====
-- a2/src/utils/atomic.h, class Atomic, at T = uint64: the operators wrap at 2^64.
use cmsc_624_spring.Common.{
  ℕ, ◌+◌, ◌-◌, ◌*◌, ◌/◌, ◌%◌, ◌^◌, ◌<◌, ◌≡◌, Bool, true, false, Option, none, some, arith, ◌==◌,
  if◌then◌else◌,
}

abbrev pub word : ℕ → ℕ
word n = n % 2 ^ 64

pub record Atomic : Type 0 where
  pub value : ℕ

-- `operator*`
pub load : Atomic → ℕ
load a = a.value

-- `operator=`
pub store : Atomic → ℕ → Atomic
store a x = record { value = x }

pub increment : Atomic → Atomic
increment a = record { value = word (a.value + 1) }

pub decrement : Atomic → Atomic
decrement a = record { value = word (a.value + 2 ^ 64 - 1) }

pub add : Atomic → ℕ → Atomic
add a x = record { value = word (a.value + x) }

pub subtract : Atomic → ℕ → Atomic
subtract a x = record { value = word (a.value + 2 ^ 64 - x) }

pub multiply : Atomic → ℕ → Atomic
multiply a x = record { value = word (a.value * x) }

-- `none` stands for the undefined behaviour of a division by 0, here and in `remainder`.
pub divide : Atomic → ℕ → Option Atomic
divide a x = if x == 0 then none else some (record { value = a.value / x })

pub remainder : Atomic → ℕ → Option Atomic
remainder a x = if x == 0 then none else some (record { value = a.value % x })

pub record Swapped : Type 0 where
  pub won : Bool
  pub atomic : Atomic
  pub old_value : ℕ  -- `*old_value` after the call

-- `CAS(&old_value, new_value)`
pub cas : Atomic → ℕ → ℕ → Swapped
cas a old_value new_value =
    if a.value == old_value
    then record { won = true; atomic = record { value = new_value }; old_value = old_value }
    else record { won = false; atomic = a; old_value = a.value }

-- The loop that `CAS` serves: try, and try once more with the value that the failure reported. Alone,
-- the second try always wins, so the update is applied to the value that was there.
pub cas_retry :
    (a : Atomic) (guess : ℕ) (f : ℕ → ℕ)
    → let first = cas a guess (f guess) in
      let second = cas first.atomic first.old_value (f first.old_value) in
      (if first.won then first.atomic.value else second.atomic.value) ≡ f a.value
unfolding cas
cas_retry a guess f = ground arith

-- Adding and subtracting any word undo each other, through any wrap, and so do `++` and `--`; no
-- operation leaves the range of the type.
pub add-subtract :
    (a : Atomic) (x : ℕ)
    → a.value < 2 ^ 64
    → x < 2 ^ 64
    → (load (subtract (add a x) x) ≡ load a)
      × (load (add (subtract a x) x) ≡ load a)
      × (load (decrement (increment a)) ≡ load a)
      × (load (increment (decrement a)) ≡ load a)
      × (load (multiply a x) < 2 ^ 64)
unfolding load add subtract increment decrement multiply
add-subtract a x ha hx = (omega arith, omega arith, omega arith, omega arith, omega arith)

-- Quotient and remainder of one value by a non-zero divisor add up to it again.
pub divide-remainder :
    (a : Atomic) (x : ℕ)
    → 0 < x
    → (q : Atomic) × (r : Atomic) × (divide a x ≡ some q)
      × (remainder a x ≡ some r)
      × (load q * x + load r ≡ load a)
      × (load r < x)
unfolding load divide remainder
divide-remainder a x h = (
  record { value = a.value / x },
  record { value = a.value % x },
  ground arith,
  ground arith,
  grind arith,
  grind arith,
)
