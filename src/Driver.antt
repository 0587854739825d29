-- ===== src/Driver.antt =====
-- a1/src/db_start.cc: the generation of requests. `rand i` is the result of call number i of rand();
-- each function takes the number of calls made before it and hands on the number after it.
pub mod Draws
pub mod Generate
pub mod Returns
pub mod SelfTest
pub mod Experiment
pub mod Results
use cmsc_624_spring.Common.{
  ℕ, zero, suc, ◌+◌, ◌%◌, Bool, true, false, ◌&&◌, Option, none, some, List, [], ◌∷◌, ◌==◌,
  if◌then◌else◌, has, insert,
}
use cmsc_624_spring.Database.{Database, db_size, nfields}
use cmsc_624_spring.Request.{Request}

abbrev pub txn_sz : ℕ
txn_sz = 50

abbrev pub high_priority_freq : ℕ
high_priority_freq = 1000

pub record Unique : Type 0 where
  pub gen : ℕ
  pub seen : List ℕ
  pub calls : ℕ

-- The loop ends at the first draw that was not seen; `none` means that `fuel` draws were not enough.
unfoldable pub gen_unique : (ℕ → ℕ) → ℕ → ℕ → List ℕ → ℕ → Option Unique
gen_unique rand zero max seen calls = none
gen_unique rand (suc fuel) max seen calls =
    let gen = rand calls % max in
    let rest = gen_unique rand fuel max seen (calls + 1) in
    if has gen seen
    then rest
    else some (record { gen = gen; seen = insert gen seen; calls = calls + 1 })

pub record Keys : Type 0 where
  pub keys : List ℕ
  pub calls : ℕ

-- The loop that fills the writeset, with `n` keys left.
unfoldable pub gen_keys : (ℕ → ℕ) → ℕ → ℕ → ℕ → List ℕ → ℕ → Option Keys
gen_keys rand fuel zero max seen calls = some (record { keys = []; calls = calls })
gen_keys rand fuel (suc n) max seen calls = elim (gen_unique rand fuel max seen calls) [
  | none ↦ none
  | some u ↦ elim (gen_keys rand fuel n max u.seen u.calls) [
    | none ↦ none
    | some r ↦ some (record { keys = u.gen ∷ r.keys; calls = r.calls })
  ]
]

abbrev pub array : List ℕ → ℕ → ℕ
array [] i = 0
array (x ∷ xs) zero = x
array (x ∷ xs) (suc i) = array xs i

pub record Generated {ℓ} (A : Type ℓ) : Type ℓ where
  pub value : A
  pub calls : ℕ

-- The request over a generated writeset; its updates take one call of rand() each.
abbrev pub request_of : (ℕ → ℕ) → ℕ → Bool → Keys → Request
request_of rand db high_priority k = record {
  db = db;
  is_high_priority = high_priority;
  num_writes = txn_sz;
  writeset = array k.keys;
  updates = λ i. rand (k.calls + i);
}

-- `db` is the database's place, of the size `db_sz`.
unfoldable pub generate_single_request : (ℕ → ℕ) → ℕ → ℕ → ℕ → Bool → ℕ → Option (Generated Request)
generate_single_request rand fuel db db_sz high_priority calls =
    elim (gen_keys rand fuel txn_sz db_sz [] calls) [
      | none ↦ none
      | some k ↦
          some (record { value = request_of rand db high_priority k; calls = k.calls + nfields })
    ]

-- The loop of generate_requests, with `n` requests left from request `i`.
unfoldable pub generate_from :
    (ℕ → ℕ) → ℕ → ℕ → ℕ → Bool → ℕ → ℕ → ℕ → Option (Generated (List Request))
generate_from rand fuel db db_sz high_priority zero i calls =
    some (record { value = []; calls = calls })
generate_from rand fuel db db_sz high_priority (suc n) i calls =
    elim (generate_single_request rand fuel db db_sz (high_priority && i % high_priority_freq == 0)
      calls) [
        | none ↦ none
        | some r ↦ elim (generate_from rand fuel db db_sz high_priority n (i + 1) r.calls) [
          | none ↦ none
          | some rs ↦ some (record { value = r.value ∷ rs.value; calls = rs.calls })
        ]
      ]

unfoldable pub generate_requests :
    (ℕ → ℕ) → ℕ → ℕ → ℕ → Bool → ℕ → ℕ → Option (Generated (List Request))
generate_requests rand fuel db db_sz high_priority num_requests calls =
    generate_from rand fuel db db_sz high_priority num_requests 0 calls
