-- ===== src/Examples/Databases.antt =====
-- The database, requests, and the generation of requests, on small inputs.
use mathlib.Core.List.Perm
use mathlib.Core.List.{reverse, reverse_perm}
use cmsc_624_spring.Common.{
  Bool, Option, none, die, Outcome, inl, ◌*◌, ◌||◌, leb, ap, ℕ, zero, suc, ◌+◌, ◌-◌, ◌%◌, ◌^◌, ◌≡◌,
  refl, true, false, some, List, [], ◌∷◌, ok, has, insert, length, arith, ◌==◌, if◌then◌else◌,
}
use cmsc_624_spring.Database.{Database, Addresses, create, destroy}
use cmsc_624_spring.Database.Destroyed.{page_sz, last_page, IsConfined, destroy_leaks}
use cmsc_624_spring.Database.Word.{Bytes}
use cmsc_624_spring.Database.Fields.{field, create_lem}
use cmsc_624_spring.Request.{Request, do_write}
use cmsc_624_spring.Request.Fields.{add_amounts, do_write_lem}
use cmsc_624_spring.Request.Order.{Write, writes_of_all}
use cmsc_624_spring.Driver.{Unique, gen_unique, Generated, generate_requests}
use cmsc_624_spring.Driver.Generate.{AreGenerated, generate_requests-AreGenerated}
use cmsc_624_spring.Driver.Returns.{IsFair, generate_requests_returns}
use cmsc_624_spring.Driver.SelfTest.{run_test, run_test_passes}

abbrev counting : ℕ → ℕ
counting i = i

create_lem_example :
    let db = create counting 3 false in
    (db.num_records ≡ 3) × (db.locks 2 ≡ false) × (field 4 (db.records 2) ≡ 24)
create_lem_example = create_lem counting 3 false 2 4 (omega arith)

abbrev zeros : Bytes
zeros j = 0

abbrev db_of_two : Database
db_of_two = record { num_records = 2; records = λ k. zeros; locks = λ k. false }

-- The same with another first byte in record 1.
abbrev other_of_two : Database
other_of_two = record db_of_two { records = λ k j. if k == 1 then (if j == 0 then 9 else 0) else 0 }

do_write_lem_example : do_write counting zeros ≡ add_amounts counting zeros
do_write_lem_example = do_write_lem counting zeros (λ j. omega arith)

-- Two requests that both write record 1.
abbrev first_request : Request
first_request = record {
  db = 0;
  is_high_priority = false;
  num_writes = 2;
  writeset = λ i. i;
  updates = counting;
}

abbrev second_request : Request
second_request = record first_request { writeset = λ i. 1 - i; updates = λ i. 2 ^ 64 - 1 }

abbrev requests : List Request
requests = first_request ∷ second_request ∷ []

abbrev dbs : ℕ → Database
dbs i = db_of_two

-- Draws 3, 3, 4, ..., of which the key 3 was seen.
abbrev drawing : ℕ → ℕ
drawing zero = 3
drawing (suc i) = i + 3

abbrev drawn : Unique
drawn = record { gen = 4; seen = insert 4 (3 ∷ []); calls = 3 }

draws : gen_unique drawing 3 10 (3 ∷ []) 0 ≡ some drawn
unfolding gen_unique has
draws = refl

-- Counting up gives each key below 500 in any 500 draws in a row.
counting-IsFair : IsFair counting 500 500
counting-IsFair calls key lt =
    (calls + (key + 500 - calls % 500) % 500, omega arith, omega arith, omega arith)

generate_requests_returns_example :
    (g : Generated (List Request)) × (generate_requests counting 500 0 500 true 1200 10000 ≡ some g)
generate_requests_returns_example =
    generate_requests_returns counting 500 500 counting-IsFair 0 true 1200 10000 (omega arith)

abbrev two_requests :
    (g : Generated (List Request)) × (generate_requests counting 500 0 500 true 2 10000 ≡ some g)
two_requests =
    generate_requests_returns counting 500 500 counting-IsFair 0 true 2 10000 (omega arith)

generate_requests-AreGenerated_example :
    (length two_requests.0.value ≡ 2) × AreGenerated 0 500 true 0 two_requests.0.value
generate_requests-AreGenerated_example =
    generate_requests-AreGenerated counting 500 0 500 true 2 10000 two_requests.0 (omega arith)
      two_requests.1

-- The writes arrive in the opposite order.
abbrev backwards : List Request → List Write
backwards reqs = reverse (writes_of_all reqs)

run_test_passes_example : run_test counting 500 true 10000 backwards ≡ some (ok true)
run_test_passes_example =
    run_test_passes counting 500 true 10000 backwards counting-IsFair
      (λ reqs. Perm.symm (reverse_perm (writes_of_all reqs)))

-- Memory by pages: those that have a byte of the range are unmapped.
abbrev unmap : (ℕ → Bool) → ℕ → ℕ → Option (ℕ → Bool)
unmap memory address length = some (λ k.
    if leb (k * page_sz + page_sz) address || leb (address + length) (k * page_sz)
    then memory k
    else false)

abbrev or_mapped : Option (ℕ → Bool) → ℕ → Bool
or_mapped none k = true
or_mapped (some memory) k = memory k

unmap-IsConfined : IsConfined unmap
unmap-IsConfined = record {
  kept = λ memory memory' address length k e outside.
      let same = ap (λ (o : Option (ℕ → Bool)). or_mapped o k) e in ground arith;
}

abbrev big : Database
big = record { num_records = 512; records = λ i j. 0; locks = λ i. false }

abbrev places : Addresses
places = record { db = 1048576; records = 65536; locks = 0 }

abbrev all_mapped : ℕ → Bool
all_mapped k = true

abbrev after_destroy : Outcome (ℕ → Bool) → ℕ → Bool
after_destroy die k = false
after_destroy (ok memory) k = memory k

destroyed :
    destroy unmap places big all_mapped ≡ ok (after_destroy (destroy unmap places big all_mapped))
unfolding destroy
destroyed = refl

destroy_leaks_example :
    after_destroy (destroy unmap places big all_mapped) (last_page places big) ≡ true
destroy_leaks_example =
    destroy_leaks unmap places big all_mapped (after_destroy (destroy unmap places big all_mapped))
      unmap-IsConfined (omega arith) (inl (omega arith)) (inl (omega arith)) destroyed refl
