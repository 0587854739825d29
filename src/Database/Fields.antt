-- ===== src/Database/Fields.antt =====
-- a1/src/db/database.cc: the fields of a record, and what Create puts into them.
use cmsc_624_spring.Common.{
  ℕ, zero, suc, ◌+◌, ◌*◌, ◌%◌, ◌^◌, ◌<◌, ◌≤◌, ◌≡◌, refl, sym, ap, subst, ◌∙◌, ◌⊎◌, inl, inr, Bool,
  true, false, ◌&&◌, ltb, leb, ◌==◌, if◌then◌else◌, arith, Bool-cases,
}
use cmsc_624_spring.Database.{
  field_size, nfields, update, init_fields, init_record, init_records, create,
}
use cmsc_624_spring.Database.Word.{
  Bytes, read_word, write_word, read-write_word, read-write_word_ne, write_word-lt,
}

unfoldable pub field : ℕ → Bytes → ℕ
field f bytes = read_word (f * field_size) bytes

abbrev pub IsByte : Bytes → Type 0
IsByte bytes = (j : ℕ) → bytes j < 256

pub field-write :
    (i f value : ℕ) (bytes : Bytes)
    → field f (write_word (i * field_size) value bytes)
      ≡ (if i == f then value % 2 ^ 64 else field f bytes)
unfolding field
field-write i f value bytes = elim (Bool-cases (i == f)) [
  | inl same ↦
      let e : i ≡ f = ground arith in
      rw (← e) (ground (arith, read-write_word (i * field_size) value bytes))
  | inr other ↦
      rw other (read-write_word_ne (f * field_size) (i * field_size) value bytes (apart i f other))
]
  where
    apart : (i f : ℕ) → (i == f) ≡ false → (f * 100 + 8 ≤ i * 100) ⊎ (i * 100 + 8 ≤ f * 100)
    apart i f h = ground arith

-- InitRecord's loop writes at `field_size * i`.
field-write_comm :
    (i f value : ℕ) (bytes : Bytes)
    → field f (write_word (field_size * i) value bytes)
      ≡ (if i == f then value % 2 ^ 64 else field f bytes)
field-write_comm i f value bytes =
    let e : field_size * i ≡ i * field_size = omega arith in
    ap (λ at. field f (write_word at value bytes)) e ∙ field-write i f value bytes

field-init_fields :
    (rand : ℕ → ℕ) (base calls n i f : ℕ) (bytes : Bytes)
    → calls ≡ base + i
    → field f (init_fields rand calls n i bytes)
      ≡ (if leb i f && ltb f (i + n) then rand (base + f) % 2 ^ 64 else field f bytes)
unfolding init_fields
field-init_fields rand base calls zero i f bytes e = ground arith
field-init_fields rand base calls (suc n) i f bytes e = ground (
  arith,
  field-init_fields rand base (calls + 1) n (i + 1) f
      (write_word (field_size * i) (rand calls) bytes) (omega arith),
  field-write_comm i f (rand calls) bytes,
  same_call,
)
  where
    same_call : i ≡ f → rand calls ≡ rand (base + f)
    same_call e' = ap rand (omega arith)

init_fields-IsByte :
    (rand : ℕ → ℕ) (calls n i : ℕ) (bytes : Bytes)
    → IsByte bytes
    → IsByte (init_fields rand calls n i bytes)
unfolding init_fields
init_fields-IsByte rand calls zero i bytes small = small
init_fields-IsByte rand calls (suc n) i bytes small =
    init_fields-IsByte rand (calls + 1) n (i + 1) (write_word (field_size * i) (rand calls) bytes)
      (write_word-lt (field_size * i) (rand calls) bytes small)

records-init_records :
    (rand : ℕ → ℕ) (n i : ℕ) (records : ℕ → Bytes) (k : ℕ)
    → init_records rand n i records k
      ≡ (if leb i k && ltb k (i + n) then init_record rand (nfields * k) (records k) else records k)
unfolding init_records
records-init_records rand zero i records k = ground arith
records-init_records rand (suc n) i records k = ground (
  arith,
  records-init_records rand n (i + 1)
      (update records i (init_record rand (nfields * i) (records i))) k,
  same_record,
)
  where
    same_record :
        i ≡ k
        → init_record rand (nfields * i) (records i) ≡ init_record rand (nfields * k) (records k)
    same_record e = ap (λ m. init_record rand (nfields * m) (records m)) e

zeros : Bytes
zeros j = 0

field-zeros : (f : ℕ) → field f zeros ≡ 0
unfolding field read_word zeros
field-zeros f = refl

-- Every byte of a created database is a byte.
pub create-IsByte :
    (rand : ℕ → ℕ) (n : ℕ) (multi_process : Bool) (k : ℕ)
    → IsByte ((create rand n multi_process).records k)
unfolding create init_record
create-IsByte rand n multi_process k =
    subst IsByte (sym (records-init_records rand n 0 (λ i j. 0) k)) (
      chosen (leb 0 k && ltb k (0 + n))
        (init_fields-IsByte rand (nfields * k) nfields 0 (λ j. 0) (λ j. omega arith))
        (λ j. omega arith))
  where
    chosen : {a b : Bytes} (c : Bool) → IsByte a → IsByte b → IsByte (if c then a else b)
    chosen true h h' = h
    chosen false h h' = h'

-- Create makes the given number of records, all unlocked; field f of record k holds the number that
-- call 10k + f of rand() returned, so no two fields share a draw, and what lies beyond is zero.
pub create_lem :
    (rand : ℕ → ℕ) (n : ℕ) (multi_process : Bool) (k f : ℕ)
    → f < nfields
    → let db = create rand n multi_process in
      (db.num_records ≡ n)
      × (db.locks k ≡ false)
      × (field f (db.records k) ≡ (if ltb k n then rand (nfields * k + f) % 2 ^ 64 else 0))
unfolding create init_record zeros
create_lem rand n multi_process k f lt = (
  refl,
  refl,
  ap (field f) (records-init_records rand n 0 (λ i j. 0) k)
      ∙ ground (
        arith,
        field-init_fields rand (nfields * k) (nfields * k) nfields 0 f zeros (omega arith),
        field-zeros f,
      ),
)
