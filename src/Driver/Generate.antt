-- ===== src/Driver/Generate.antt =====
-- What the generated requests are like.
use cmsc_624_spring.Common.{
  ℕ, zero, suc, ◌+◌, ◌-◌, ◌%◌, ◌<◌, ◌≡◌, ◌≢◌, refl, sym, ap, subst, ◌∙◌, Bool, ◌&&◌, some, List, [],
  ◌∷◌, ◌==◌, arith, length, Option-cases, inl, inr,
}
use cmsc_624_spring.Request.{Request}
use cmsc_624_spring.Request.Order.{IsSeparate}
use cmsc_624_spring.Request.Interleave.{AreReady}
use cmsc_624_spring.Driver.{
  txn_sz, high_priority_freq, Keys, gen_keys, Generated, request_of, generate_single_request,
  generate_from, generate_requests,
}
use cmsc_624_spring.Driver.Draws.{gen_keys_lem, array-AllNew, array_distinct}

-- What holds of a generated request: its database, its size, and its keys, which lie in the database
-- and are pairwise distinct.
pub record IsGenerated (db db_sz : ℕ) (high_priority : Bool) (req : Request) : Type 0 where
  pub on_db : req.db ≡ db
  pub priority : req.is_high_priority ≡ high_priority
  pub size : req.num_writes ≡ txn_sz
  pub in_range : (i : ℕ) → i < txn_sz → req.writeset i < db_sz
  pub distinct : (i j : ℕ) → i < j → j < txn_sz → req.writeset i ≢ req.writeset j

request_of-IsGenerated :
    (rand : ℕ → ℕ) (fuel db db_sz : ℕ) (high_priority : Bool) (calls : ℕ) (k : Keys)
    → 0 < db_sz
    → gen_keys rand fuel txn_sz db_sz [] calls ≡ some k
    → IsGenerated db db_sz high_priority (request_of rand db high_priority k)
request_of-IsGenerated rand fuel db db_sz high_priority calls k pos drawn =
    let (len, new) = gen_keys_lem rand fuel txn_sz db_sz [] calls k pos drawn in
    record {
      on_db = refl;
      priority = refl;
      size = refl;
      in_range = λ i lt. (array-AllNew db_sz [] k.keys i new (omega arith)).0;
      distinct = λ i j lt lt'. array_distinct db_sz [] k.keys i j new lt (omega arith);
    }

-- A generated request is on the given database, and its fifty keys lie in the database and are
-- pairwise distinct, whatever rand() returns.
pub generate_single_request-IsGenerated :
    (rand : ℕ → ℕ) (fuel db db_sz : ℕ) (high_priority : Bool) (calls : ℕ) (g : Generated Request)
    → 0 < db_sz
    → generate_single_request rand fuel db db_sz high_priority calls ≡ some g
    → IsGenerated db db_sz high_priority g.value
unfolding generate_single_request
generate_single_request-IsGenerated rand fuel db db_sz high_priority calls g pos e =
    elim (Option-cases (gen_keys rand fuel txn_sz db_sz [] calls)) [
      | inl failed ↦ absurd (ground arith)
      | inr (k, drawn) ↦
          let built : request_of rand db high_priority k ≡ g.value = ground arith in
          subst (IsGenerated db db_sz high_priority) built
            (request_of-IsGenerated rand fuel db db_sz high_priority calls k pos drawn)
    ]

-- So its assertions hold.
pub IsGenerated-IsSeparate :
    (db db_sz : ℕ) (high_priority : Bool) (req : Request)
    → IsGenerated db db_sz high_priority req
    → IsSeparate req
IsGenerated-IsSeparate db db_sz high_priority req g zero lt = refl
IsGenerated-IsSeparate db db_sz high_priority req g (suc i) lt =
    let apart = g.distinct i (suc i) (omega arith) (omega (arith, g.size)) in
    let before : suc i - 1 ≡ i = omega arith in rw before (ground arith)

-- The requests of a list are generated; the request at place i has the priority of its place.
abbrev pub AreGenerated : ℕ → ℕ → Bool → ℕ → List Request → Type 0
AreGenerated db db_sz high_priority i [] = Unit
AreGenerated db db_sz high_priority i (req ∷ reqs) =
    IsGenerated db db_sz (high_priority && i % high_priority_freq == 0) req
    × AreGenerated db db_sz high_priority (i + 1) reqs

generate_from-AreGenerated :
    (rand : ℕ → ℕ) (fuel db db_sz : ℕ) (high_priority : Bool) (n i calls : ℕ)
    (g : Generated (List Request))
    → 0 < db_sz
    → generate_from rand fuel db db_sz high_priority n i calls ≡ some g
    → (length g.value ≡ n) × AreGenerated db db_sz high_priority i g.value
unfolding generate_from
generate_from-AreGenerated rand fuel db db_sz high_priority zero i calls g pos e =
    let empty : [] ≡ g.value = ground arith in
    (ap length (sym empty), subst (AreGenerated db db_sz high_priority i) empty tt)
generate_from-AreGenerated rand fuel db db_sz high_priority (suc n) i calls g pos e =
    let high = high_priority && i % high_priority_freq == 0 in
    elim (Option-cases (generate_single_request rand fuel db db_sz high calls)) [
      | inl failed ↦ absurd (ground arith)
      | inr (r, single) ↦
          elim (Option-cases (generate_from rand fuel db db_sz high_priority n (i + 1) r.calls)) [
            | inl failed ↦ absurd (ground arith)
            | inr (rs, more) ↦
                let built : r.value ∷ rs.value ≡ g.value = ground arith in
                let (len, rest) =
                  generate_from-AreGenerated rand fuel db db_sz high_priority n (i + 1) r.calls rs
                    pos more in
                (
                  ap length (sym built) ∙ ap suc len,
                  subst (AreGenerated db db_sz high_priority i) built (
                    generate_single_request-IsGenerated rand fuel db db_sz high calls r pos single,
                    rest,
                  ),
                )
          ]
    ]

-- generate_requests, where it returns, gives as many requests as asked for, each on the database with
-- fifty distinct keys inside it, and of high priority exactly at the places divisible by 1000, and
-- there only if the caller wants high priorities at all.
pub generate_requests-AreGenerated :
    (rand : ℕ → ℕ) (fuel db db_sz : ℕ) (high_priority : Bool) (num_requests calls : ℕ)
    (g : Generated (List Request))
    → 0 < db_sz
    → generate_requests rand fuel db db_sz high_priority num_requests calls ≡ some g
    → (length g.value ≡ num_requests) × AreGenerated db db_sz high_priority 0 g.value
unfolding generate_requests
generate_requests-AreGenerated rand fuel db db_sz high_priority num_requests calls g pos e =
    generate_from-AreGenerated rand fuel db db_sz high_priority num_requests 0 calls g pos e

pub AreGenerated-AreReady :
    (db db_sz : ℕ) (high_priority : Bool) (i : ℕ) (reqs : List Request)
    → AreGenerated db db_sz high_priority i reqs
    → AreReady db reqs
AreGenerated-AreReady db db_sz high_priority i [] a = tt
AreGenerated-AreReady db db_sz high_priority i (req ∷ reqs) a = (
  a.0.on_db,
  IsGenerated-IsSeparate db db_sz (high_priority && i % high_priority_freq == 0) req a.0,
  AreGenerated-AreReady db db_sz high_priority (i + 1) reqs a.1,
)
