-- ===== src/Database/Word.antt =====
-- A uint64_t in memory: eight bytes, the lowest first (a1 runs on x86-64: it has inline assembly).
use cmsc_624_spring.Common.{
  ℕ, zero, suc, ◌+◌, ◌-◌, ◌*◌, ◌/◌, ◌%◌, ◌^◌, ◌<◌, ◌≤◌, ◌≡◌, ap, ◌⊎◌, false, ◌&&◌, ltb, leb,
  if◌then◌else◌, arith,
}

abbrev pub Bytes : Type 0
Bytes = ℕ → ℕ

-- `*(uint64_t *)&bytes[offset]`
unfoldable pub read_word : ℕ → Bytes → ℕ
read_word offset bytes =
    bytes offset
    + bytes (offset + 1) * 2 ^ 8
    + bytes (offset + 2) * 2 ^ 16
    + bytes (offset + 3) * 2 ^ 24
    + bytes (offset + 4) * 2 ^ 32
    + bytes (offset + 5) * 2 ^ 40
    + bytes (offset + 6) * 2 ^ 48
    + bytes (offset + 7) * 2 ^ 56

-- Byte `k` of a word.
abbrev pub byte_of : ℕ → ℕ → ℕ
byte_of value k = value / 2 ^ (8 * k) % 256

-- `*(uint64_t *)&bytes[offset] = value;`
unfoldable pub write_word : ℕ → ℕ → Bytes → Bytes
write_word offset value bytes j =
    if leb offset j && ltb j (offset + 8) then byte_of value (j - offset) else bytes j

byte_at :
    (offset value k : ℕ) (bytes : Bytes)
    → k < 8
    → write_word offset value bytes (offset + k) ≡ byte_of value k
unfolding write_word
byte_at offset value k bytes h =
    let e : offset + k - offset ≡ k = omega arith in ground (arith, ap (byte_of value) e)

byte_at_start :
    (offset value : ℕ) (bytes : Bytes) → write_word offset value bytes offset ≡ byte_of value 0
unfolding write_word
byte_at_start offset value bytes =
    let e : offset - offset ≡ 0 = omega arith in ground (arith, ap (byte_of value) e)

-- A word that was written reads back, modulo its width.
pub read-write_word :
    (offset value : ℕ) (bytes : Bytes)
    → read_word offset (write_word offset value bytes) ≡ value % 2 ^ 64
unfolding read_word
read-write_word offset value bytes = omega (
  arith,
  byte_at_start offset value bytes,
  byte_at offset value 1 bytes (omega arith),
  byte_at offset value 2 bytes (omega arith),
  byte_at offset value 3 bytes (omega arith),
  byte_at offset value 4 bytes (omega arith),
  byte_at offset value 5 bytes (omega arith),
  byte_at offset value 6 bytes (omega arith),
  byte_at offset value 7 bytes (omega arith),
)

pub write_word_outside :
    (offset value j : ℕ) (bytes : Bytes)
    → (leb offset j && ltb j (offset + 8)) ≡ false
    → write_word offset value bytes j ≡ bytes j
unfolding write_word
write_word_outside offset value j bytes h = rw h

byte_elsewhere :
    (a b value i : ℕ) (bytes : Bytes)
    → (a + 8 ≤ b) ⊎ (b + 8 ≤ a)
    → i < 8
    → write_word b value bytes (a + i) ≡ bytes (a + i)
unfolding write_word
byte_elsewhere a b value i bytes h lt = ground arith

byte_elsewhere_start :
    (a b value : ℕ) (bytes : Bytes)
    → (a + 8 ≤ b) ⊎ (b + 8 ≤ a)
    → write_word b value bytes a ≡ bytes a
unfolding write_word
byte_elsewhere_start a b value bytes h = ground arith

-- Words eight bytes apart or more do not overlap.
pub read-write_word_ne :
    (a b value : ℕ) (bytes : Bytes)
    → (a + 8 ≤ b) ⊎ (b + 8 ≤ a)
    → read_word a (write_word b value bytes) ≡ read_word a bytes
unfolding read_word
read-write_word_ne a b value bytes h = omega (
  arith,
  byte_elsewhere_start a b value bytes h,
  byte_elsewhere a b value 1 bytes h (omega arith),
  byte_elsewhere a b value 2 bytes h (omega arith),
  byte_elsewhere a b value 3 bytes h (omega arith),
  byte_elsewhere a b value 4 bytes h (omega arith),
  byte_elsewhere a b value 5 bytes h (omega arith),
  byte_elsewhere a b value 6 bytes h (omega arith),
  byte_elsewhere a b value 7 bytes h (omega arith),
)

-- The eight bytes are determined by the word that they hold.
pub byte_of-read_word :
    (offset k : ℕ) (bytes : Bytes)
    → ((j : ℕ) → bytes j < 256)
    → k < 8
    → byte_of (read_word offset bytes) k ≡ bytes (offset + k)
unfolding read_word
byte_of-read_word offset zero bytes small h =
    let e : offset + 0 ≡ offset = omega arith in omega (arith, ap bytes e, small offset)
byte_of-read_word offset (suc zero) bytes small h = omega (arith, small offset, small (offset + 1))
byte_of-read_word offset (suc (suc zero)) bytes small h =
    omega (arith, small offset, small (offset + 1), small (offset + 2))
byte_of-read_word offset (suc (suc (suc zero))) bytes small h =
    omega (arith, small offset, small (offset + 1), small (offset + 2), small (offset + 3))
byte_of-read_word offset (suc (suc (suc (suc zero)))) bytes small h = omega (
  arith,
  small offset,
  small (offset + 1),
  small (offset + 2),
  small (offset + 3),
  small (offset + 4),
)
byte_of-read_word offset (suc (suc (suc (suc (suc zero))))) bytes small h = omega (
  arith,
  small offset,
  small (offset + 1),
  small (offset + 2),
  small (offset + 3),
  small (offset + 4),
  small (offset + 5),
)
byte_of-read_word offset (suc (suc (suc (suc (suc (suc zero)))))) bytes small h = omega (
  arith,
  small offset,
  small (offset + 1),
  small (offset + 2),
  small (offset + 3),
  small (offset + 4),
  small (offset + 5),
  small (offset + 6),
)
byte_of-read_word offset (suc (suc (suc (suc (suc (suc (suc zero))))))) bytes small h = omega (
  arith,
  small offset,
  small (offset + 1),
  small (offset + 2),
  small (offset + 3),
  small (offset + 4),
  small (offset + 5),
  small (offset + 6),
  small (offset + 7),
)
byte_of-read_word offset (suc (suc (suc (suc (suc (suc (suc (suc k)))))))) bytes small h =
    absurd (omega arith)

pub write_word-lt :
    (offset value : ℕ) (bytes : Bytes)
    → ((j : ℕ) → bytes j < 256)
    → (j : ℕ) → write_word offset value bytes j < 256
unfolding write_word
write_word-lt offset value bytes small j = ground (arith, small j)

pub read_word-lt :
    (offset : ℕ) (bytes : Bytes) → ((j : ℕ) → bytes j < 256) → read_word offset bytes < 2 ^ 64
unfolding read_word
read_word-lt offset bytes small = omega (
  arith,
  small offset,
  small (offset + 1),
  small (offset + 2),
  small (offset + 3),
  small (offset + 4),
  small (offset + 5),
  small (offset + 6),
  small (offset + 7),
)
