-- ===== src/Driver/Returns.antt =====
-- The generation of requests comes to an end on a source of numbers that keeps giving every key.
pub use cmsc_624_spring.Common.{IsFair}
use cmsc_624_spring.Common.{
  unseen, ℕ, zero, suc, ◌+◌, ◌%◌, ◌<◌, ◌≤◌, ◌≡◌, refl, sym, subst, Bool, false, ◌&&◌, some, List,
  [], ◌∷◌, ◌==◌, arith, has, length, length-insert_le,
}
use cmsc_624_spring.Database.{nfields}
use cmsc_624_spring.Request.{Request}
use cmsc_624_spring.Driver.{
  txn_sz, high_priority_freq, Unique, gen_unique, Keys, gen_keys, Generated, request_of,
  generate_single_request, generate_from, generate_requests,
}
use cmsc_624_spring.Driver.Draws.{gen_unique_lem, gen_unique_returns}

module _ (rand : ℕ → ℕ) (fuel max : ℕ) (fair : IsFair rand fuel max) where
  draw_returns :
      (seen : List ℕ) (calls : ℕ)
      → length seen < max
      → (u : Unique) × (gen_unique rand fuel max seen calls ≡ some u)
        × (length u.seen ≤ suc (length seen))
  draw_returns seen calls h =
      let (k, lt, new) = unseen max seen h in
      let (c, lo, hi, e) = fair calls k lt in
      let (u, done) =
        gen_unique_returns rand fuel max seen calls c lo hi
          (subst (λ j. has j seen ≡ false) (sym e) new) in
      let (bound, fresh, grown) = gen_unique_lem rand fuel max seen calls u (omega arith) done in
      (u, done, subst (λ s. length s ≤ suc (length seen)) (sym grown) (length-insert_le u.gen seen))

  gen_keys_returns :
      (n : ℕ) (seen : List ℕ) (calls : ℕ)
      → length seen + n ≤ max
      → (r : Keys) × (gen_keys rand fuel n max seen calls ≡ some r)
  unfolding gen_keys
  gen_keys_returns zero seen calls h = (_, refl)
  gen_keys_returns (suc n) seen calls h =
      let (u, done, grown) = draw_returns seen calls (omega arith) in
      let (r, more) = gen_keys_returns n u.seen u.calls (omega arith) in
      (record { keys = u.gen ∷ r.keys; calls = r.calls }, rw (gen_keys, done, more) refl)

  single_returns :
      (db : ℕ) (high_priority : Bool) (calls : ℕ)
      → txn_sz ≤ max
      → (g : Generated Request) × (generate_single_request rand fuel db max high_priority calls
          ≡ some g)
  unfolding generate_single_request
  single_returns db high_priority calls h =
      let (k, done) = gen_keys_returns txn_sz [] calls h in
      (
        record { value = request_of rand db high_priority k; calls = k.calls + nfields },
        rw (generate_single_request, done) refl,
      )

  from_returns :
      (db : ℕ) (high_priority : Bool) (n i calls : ℕ)
      → txn_sz ≤ max
      → (g : Generated (List Request)) × (generate_from rand fuel db max high_priority n i calls
          ≡ some g)
  unfolding generate_from
  from_returns db high_priority zero i calls h = (_, refl)
  from_returns db high_priority (suc n) i calls h =
      let (r, done) = single_returns db (high_priority && i % high_priority_freq == 0) calls h in
      let (rs, more) = from_returns db high_priority n (i + 1) r.calls h in
      (record { value = r.value ∷ rs.value; calls = rs.calls }, rw (generate_from, done, more) refl)

  -- On a database of at least fifty records, generate_requests returns if rand() is fair: if any `fuel`
  -- draws in a row contain each key of the database.
  pub generate_requests_returns :
      (db : ℕ) (high_priority : Bool) (num_requests calls : ℕ)
      → txn_sz ≤ max
      → (g : Generated (List Request)) × (generate_requests rand fuel db max high_priority
            num_requests calls
          ≡ some g)
  unfolding generate_requests
  generate_requests_returns db high_priority num_requests calls h =
      from_returns db high_priority num_requests 0 calls h
