-- ===== src/Request/Fields.antt =====
-- DoWrite as an addition to the fields of a record, modulo 2^64, that leaves all other bytes alone.
use cmsc_624_spring.Common.{
  ℕ, zero, suc, ◌+◌, ◌*◌, ◌/◌, ◌%◌, ◌^◌, ◌<◌, ◌≤◌, ◌≡◌, refl, sym, ap, ◌∙◌, fun_ext, inl, inr, Bool,
  true, false, ◌&&◌, ltb, leb, if◌then◌else◌, arith, Bool-cases,
}
use cmsc_624_spring.Database.{field_size, nfields, record_size}
use cmsc_624_spring.Database.Word.{
  Bytes, read_word, write_word, byte_of, write_word_outside, byte_of-read_word, write_word-lt,
  read_word-lt,
}
use cmsc_624_spring.Database.Fields.{field, IsByte, field-write}
use cmsc_624_spring.Request.{add_fields, do_write}

-- The bytes that belong to a field: the first eight of each hundred, within the record.
abbrev pub in_field : ℕ → Bool
in_field j = ltb (j % field_size) 8 && ltb (j / field_size) nfields

same_field :
    (i f : ℕ) (updates : ℕ → ℕ) (bytes : Bytes)
    → i ≡ f
    → (read_word (i * field_size) bytes ≡ field f bytes) × (updates i ≡ updates f)
unfolding field
same_field i f updates bytes e = (ap (λ k. read_word (k * field_size) bytes) e, ap updates e)

pub field-add_fields :
    (n i f : ℕ) (updates : ℕ → ℕ) (bytes : Bytes)
    → field f (add_fields n i updates bytes)
      ≡ (if leb i f && ltb f (i + n) then (field f bytes + updates f) % 2 ^ 64 else field f bytes)
unfolding add_fields
field-add_fields zero i f updates bytes = ground arith
field-add_fields (suc n) i f updates bytes =
    let at = i * field_size in
    let value = (read_word at bytes + updates i) % 2 ^ 64 in
    ground (
      arith,
      field-add_fields n (i + 1) f updates (write_word at value bytes),
      field-write i f value bytes,
      same_field i f updates bytes,
    )

add_fields_outside :
    (n i : ℕ) (updates : ℕ → ℕ) (bytes : Bytes) (j : ℕ)
    → i + n ≤ nfields
    → in_field j ≡ false
    → add_fields n i updates bytes j ≡ bytes j
unfolding add_fields
add_fields_outside zero i updates bytes j le h = refl
add_fields_outside (suc n) i updates bytes j le h =
    let at = i * field_size in
    let new = write_word at ((read_word at bytes + updates i) % 2 ^ 64) bytes in
    add_fields_outside n (i + 1) updates new j (omega arith) h
    ∙ write_word_outside at ((read_word at bytes + updates i) % 2 ^ 64) j bytes (ground arith)

pub add_fields-IsByte :
    (n i : ℕ) (updates : ℕ → ℕ) (bytes : Bytes)
    → IsByte bytes
    → IsByte (add_fields n i updates bytes)
unfolding add_fields
add_fields-IsByte zero i updates bytes small = small
add_fields-IsByte (suc n) i updates bytes small =
    let at = i * field_size in
    add_fields-IsByte n (i + 1) updates
      (write_word at ((read_word at bytes + updates i) % 2 ^ 64) bytes)
      (write_word-lt at ((read_word at bytes + updates i) % 2 ^ 64) bytes small)

-- Adding `amounts` to the fields, stated byte by byte.
pub add_amounts : (ℕ → ℕ) → Bytes → Bytes
unfolding field
add_amounts amounts bytes j =
    if in_field j
    then byte_of ((field (j / field_size) bytes + amounts (j / field_size)) % 2 ^ 64)
        (j % field_size)
    else bytes j

byte-eq-field :
    (bytes : Bytes) (j : ℕ)
    → IsByte bytes
    → in_field j ≡ true
    → bytes j ≡ byte_of (field (j / field_size) bytes) (j % field_size)
unfolding field
byte-eq-field bytes j small h =
    let e : j / 100 * 100 + j % 100 ≡ j = omega arith in
    ap bytes (sym e) ∙ sym (byte_of-read_word (j / 100 * 100) (j % 100) bytes small (ground arith))

-- DoWrite adds the updates to the ten fields of the record, each modulo 2^64, and changes no other
-- byte.
pub do_write_lem :
    (updates : ℕ → ℕ) (bytes : Bytes)
    → IsByte bytes
    → do_write updates bytes ≡ add_amounts updates bytes
unfolding do_write add_amounts
do_write_lem updates bytes small = fun_ext λ j. elim (Bool-cases (in_field j)) [
  | inl inside ↦ rw inside (
      byte-eq-field (add_fields nfields 0 updates bytes) j
        (add_fields-IsByte nfields 0 updates bytes small) inside
      ∙ ap (λ v. byte_of v (j % field_size))
          (ground (arith, field-add_fields nfields 0 (j / field_size) updates bytes)))
  | inr outside ↦ rw outside (add_fields_outside nfields 0 updates bytes j (omega arith) outside)
]

pub add_amounts-IsByte :
    (amounts : ℕ → ℕ) (bytes : Bytes) → IsByte bytes → IsByte (add_amounts amounts bytes)
unfolding add_amounts
add_amounts-IsByte amounts bytes small j = ground (arith, small j)

field-do_write :
    (f : ℕ) (updates : ℕ → ℕ) (bytes : Bytes)
    → f < nfields
    → field f (do_write updates bytes) ≡ (field f bytes + updates f) % 2 ^ 64
unfolding do_write
field-do_write f updates bytes h = ground (arith, field-add_fields nfields 0 f updates bytes)

pub field-add_amounts :
    (f : ℕ) (amounts : ℕ → ℕ) (bytes : Bytes)
    → IsByte bytes
    → f < nfields
    → field f (add_amounts amounts bytes) ≡ (field f bytes + amounts f) % 2 ^ 64
field-add_amounts f amounts bytes small h =
    ap (field f) (sym (do_write_lem amounts bytes small)) ∙ field-do_write f amounts bytes h

mod_twice : (x y a b : ℕ) → y ≡ (x + a) % 2 ^ 64 → (y + b) % 2 ^ 64 ≡ (x + (a + b)) % 2 ^ 64
mod_twice x y a b h = omega arith

-- Additions compose to the addition of the sums.
pub add_amounts_twice :
    (a b : ℕ → ℕ) (bytes : Bytes)
    → IsByte bytes
    → add_amounts b (add_amounts a bytes) ≡ add_amounts (λ f. a f + b f) bytes
unfolding add_amounts
add_amounts_twice a b bytes small = fun_ext λ j. elim (Bool-cases (in_field j)) [
  | inl inside ↦ rw inside (
      ap (λ v. byte_of v (j % field_size))
        (mod_twice (field (j / field_size) bytes) (field (j / field_size) (add_amounts a bytes))
          (a (j / field_size)) (b (j / field_size))
          (field-add_amounts (j / field_size) a bytes small (ground arith))))
  | inr outside ↦ rw outside refl
]

full_word : (x : ℕ) → x < 2 ^ 64 → (x + 0) % 2 ^ 64 ≡ x
full_word x h = omega arith

pub add_amounts_zero : (bytes : Bytes) → IsByte bytes → add_amounts (λ f. 0) bytes ≡ bytes
unfolding add_amounts
add_amounts_zero bytes small = fun_ext λ j. elim (Bool-cases (in_field j)) [
  | inl inside ↦ rw inside (
      ap (λ v. byte_of v (j % field_size))
        (full_word (field (j / field_size) bytes)
          (read_word-lt (j / field_size * field_size) bytes small))
      ∙ sym (byte-eq-field bytes j small inside))
  | inr outside ↦ rw outside refl
]

word-local :
    (offset : ℕ) (a b : Bytes)
    → offset + 8 ≤ 1000
    → ((i : ℕ) → i < 1000 → a i ≡ b i)
    → read_word offset a ≡ read_word offset b
unfolding read_word
word-local offset a b le h = omega (
  arith,
  h offset (omega arith),
  h (offset + 1) (omega arith),
  h (offset + 2) (omega arith),
  h (offset + 3) (omega arith),
  h (offset + 4) (omega arith),
  h (offset + 5) (omega arith),
  h (offset + 6) (omega arith),
  h (offset + 7) (omega arith),
)

-- What an addition leaves in a record depends on the bytes of the record only.
pub add_amounts_local :
    (amounts : ℕ → ℕ) (a b : Bytes)
    → ((i : ℕ) → i < record_size → a i ≡ b i)
    → (j : ℕ) → j < record_size
    → add_amounts amounts a j ≡ add_amounts amounts b j
unfolding add_amounts
add_amounts_local amounts a b h j lt = elim (Bool-cases (in_field j)) [
  | inl inside ↦ rw inside (
      ap (λ x. byte_of ((x + amounts (j / field_size)) % 2 ^ 64) (j % field_size))
        (word-local (j / field_size * field_size) a b (ground arith) h))
  | inr outside ↦ rw outside (h j lt)
]
