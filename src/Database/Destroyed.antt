-- ===== src/Database/Destroyed.antt =====
-- What Destroy leaves mapped.
use cmsc_624_spring.Common.{
  ℕ, ◌+◌, ◌*◌, ◌-◌, ◌/◌, ◌≤◌, ◌≡◌, ◌⊎◌, inl, inr, ◌∙◌, Bool, true, Option, some, ok, arith,
  Option-cases, subst,
}
use cmsc_624_spring.Database.{Database, Addresses, destroy, sizeof_sem, sizeof_mutex, record_size}

abbrev pub page_sz : ℕ
page_sz = 4096

-- munmap changes the pages only that have a byte of the range. A memory says which pages are mapped.
pub record IsConfined (munmap : (ℕ → Bool) → ℕ → ℕ → Option (ℕ → Bool)) : Type 0 where
  pub kept :
      (memory memory' : ℕ → Bool) (address length k : ℕ)
      → munmap memory address length ≡ some memory'
      → (k * page_sz + page_sz ≤ address) ⊎ (address + length ≤ k * page_sz)
      → memory' k ≡ memory k

-- The page of the last lock.
abbrev pub last_page : Addresses → Database → ℕ
last_page at db = (at.locks + sizeof_mutex * db.num_records - 1) / page_sz

-- A database of 512 records or more is not unmapped as a whole: the page of the last lock, which Create
-- has mapped, is still mapped after Destroy, if munmap changes no pages outside of its range and the
-- page lies outside of the other two ranges.
pub destroy_leaks :
    (munmap : (ℕ → Bool) → ℕ → ℕ → Option (ℕ → Bool)) (at : Addresses) (db : Database)
    (memory memory' : ℕ → Bool)
    → IsConfined munmap
    → 512 ≤ db.num_records
    → (last_page at db * page_sz + page_sz ≤ at.records)
      ⊎ (at.records + record_size * db.num_records ≤ last_page at db * page_sz)
    → (last_page at db * page_sz + page_sz ≤ at.db) ⊎ (at.db + 24 ≤ last_page at db * page_sz)
    → destroy munmap at db memory ≡ ok memory'
    → memory (last_page at db) ≡ true
    → memory' (last_page at db) ≡ true
unfolding destroy
destroy_leaks munmap at db memory memory' confined many records_apart db_apart done mapped =
    elim (Option-cases (munmap memory at.locks (sizeof_sem * db.num_records))) [
      | inl failed ↦ absurd (ground arith)
      | inr (m₁, one) ↦ elim (Option-cases (munmap m₁ at.records (record_size * db.num_records))) [
        | inl failed ↦ absurd (ground arith)
        | inr (m₂, two) ↦ elim (Option-cases (munmap m₂ at.db 24)) [
          | inl failed ↦ absurd (ground arith)
          | inr (m₃, three) ↦
              let k = last_page at db in
              let same : m₃ ≡ memory' = ground arith in
              subst (λ m. m k ≡ true) same
                (confined.kept m₂ m₃ at.db 24 k three db_apart
                  ∙ confined.kept m₁ m₂ at.records (record_size * db.num_records) k two
                      records_apart
                  ∙ confined.kept memory m₁ at.locks (sizeof_sem * db.num_records) k one
                      (inr (omega arith))
                  ∙ mapped)
        ]
      ]
    ]
