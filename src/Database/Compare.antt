-- ===== src/Database/Compare.antt =====
-- Database::Compare and Database::Copy: what a comparison that passes means.
use cmsc_624_spring.Common.{
  ℕ, zero, suc, ◌<◌, ◌≤◌, ◌≡◌, refl, sym, ap, subst, ◌∙◌, ◌↔◌, true, false, ok, ltb, if◌then◌else◌,
  arith, ◌⊎◌, inl, inr, Bool-cases,
}
use native.Mathlib.Decide.{ℕ_discrete}
use cmsc_624_spring.Database.{
  Database, record_size, get_record, put_record, db_size, same_bytes, same_records, compare,
  copy_bytes, copy_records, copy,
}
use cmsc_624_spring.Database.Word.{Bytes}

same_bytes_iff : (n : ℕ) (a b : Bytes) → (same_bytes n a b ≡ true) ↔ ((j : ℕ) → j < n → a j ≡ b j)
unfolding same_bytes
same_bytes_iff zero a b = (λ h j lt. absurd (omega arith), λ h. refl)
same_bytes_iff (suc n) a b = (
  λ h j lt. elim (ℕ_discrete j n) [
    | yes e ↦ subst (λ i. a i ≡ b i) (sym e) (ground arith)
    | no ne ↦ (same_bytes_iff n a b).0 (ground arith) j (omega arith)
  ],
  λ h.
      let earlier = (same_bytes_iff n a b).1 (λ j lt. h j (omega arith)) in
      let last = h n (omega arith) in ground arith,
)

-- The databases agree on every byte of every record below `n`.
abbrev pub Agree : ℕ → Database → Database → Type 0
Agree n a b = (k j : ℕ) → k < n → j < record_size → a.records k j ≡ b.records k j

same_records_iff : (n : ℕ) (a b : Database) → (same_records n a b ≡ true) ↔ Agree n a b
unfolding same_records get_record
same_records_iff zero a b = (λ h k j lt lt'. absurd (omega arith), λ h. refl)
same_records_iff (suc n) a b = (
  λ h k j lt lt'. elim (ℕ_discrete k n) [
    | yes e ↦
        subst (λ i. a.records i j ≡ b.records i j) (sym e)
          ((same_bytes_iff record_size (a.records n) (b.records n)).0 (ground arith) j lt')
    | no ne ↦ (same_records_iff n a b).0 (ground arith) k j (omega arith) lt'
  ],
  λ h.
      let earlier = (same_records_iff n a b).1 (λ k j lt lt'. h k j (omega arith) lt') in
      let last =
        (same_bytes_iff record_size (a.records n) (b.records n)).1
          (λ j lt'. h n j (omega arith) lt') in
      ground arith,
)

pub compare_iff :
    (a b : Database)
    → ((compare a b ≡ ok true) ↔ ((a.num_records ≡ b.num_records) × Agree a.num_records a b))
      × ((a.num_records ≡ b.num_records) → ¬ Agree a.num_records a b → compare a b ≡ ok false)
unfolding compare db_size
compare_iff a b = (
  (
    λ h. (ground arith, (same_records_iff a.num_records a b).0 (ground arith)),
    λ h. let same = (same_records_iff a.num_records a b).1 h.1 in ground arith,
  ),
  λ e differ. elim (Bool-cases (same_records a.num_records a b)) [
    | inl same ↦ absurd (differ ((same_records_iff a.num_records a b).0 same))
    | inr other ↦ ground arith
  ],
)

records-copy_records :
    (n : ℕ) (dst src : Database) (k : ℕ)
    → (copy_records n dst src).records k
      ≡ (if ltb k n then copy_bytes (dst.records k) (src.records k) else dst.records k)
unfolding copy_records put_record get_record
records-copy_records zero dst src k = ground arith
records-copy_records (suc n) dst src k =
    ground (arith, records-copy_records n dst src k, records-copy_records n dst src n, same_key)
  where
    same_key : n ≡ k → (dst.records n ≡ dst.records k) × (src.records n ≡ src.records k)
    same_key e = (ap dst.records e, ap src.records e)

num_records-copy_records :
    (n : ℕ) (dst src : Database) → (copy_records n dst src).num_records ≡ dst.num_records
unfolding copy_records put_record
num_records-copy_records zero dst src = refl
num_records-copy_records (suc n) dst src = num_records-copy_records n dst src

-- Between databases of one size Copy succeeds and makes the destination agree with the source on
-- every byte of every record; its size, and whatever lies beyond the records, is as it was.
pub copy_lem :
    (dst src : Database)
    → dst.num_records ≡ src.num_records
    → (dst' : Database) × (copy dst src ≡ ok dst')
      × (dst'.num_records ≡ dst.num_records)
      × Agree dst.num_records dst' src
      × ((k j : ℕ) → (dst.num_records ≤ k) ⊎ (record_size ≤ j) → dst'.records k j ≡ dst.records k j)
unfolding copy db_size copy_bytes
copy_lem dst src e = (
  copy_records dst.num_records dst src,
  ground arith,
  num_records-copy_records dst.num_records dst src,
  λ k j lt lt'. ap (λ r. r j) (records-copy_records dst.num_records dst src k) ∙ ground arith,
  λ k j le. ap (λ r. r j) (records-copy_records dst.num_records dst src k) ∙ ground arith,
)
