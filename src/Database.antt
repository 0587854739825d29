-- ===== src/Database.antt =====
-- a1/src/db/database.h, database.cc: the records of the database as bytes, the fields in them, and the
-- lock of each record.
pub mod Word
pub mod Fields
pub mod Compare
pub mod Destroyed
pub use cmsc_624_spring.Common.{update}
use cmsc_624_spring.Common.{
  ℕ, zero, suc, ◌+◌, ◌*◌, ◌<◌, Bool, true, false, ◌&&◌, Option, none, some, Outcome, ok, die, ◌>>=◌,
  ◌>>◌, require, ◌==◌, ltb, if◌then◌else◌,
}
use Word.{Bytes, write_word}

abbrev pub record_size : ℕ
record_size = 1000

abbrev pub field_size : ℕ
field_size = 100

abbrev pub nfields : ℕ
nfields = 10

-- `records` and `locks` are arrays of `num_records` entries; a lock is its state, true while held.
pub record Database : Type 0 where
  pub num_records : ℕ
  pub records : ℕ → Bytes
  pub locks : ℕ → Bool

pub db_size : Database → ℕ
db_size db = db.num_records

unfoldable pub get_record : Database → ℕ → Bytes
get_record db key = db.records key

-- What `GetRecord(key)->bytes_` points at is written in place.
unfoldable pub put_record : Database → ℕ → Bytes → Database
put_record db key bytes = record db { records = update db.records key bytes }

-- InitRecord's loop, with `n` fields left from field `i`; `calls` calls of `rand` came before.
unfoldable pub init_fields : (ℕ → ℕ) → ℕ → ℕ → ℕ → Bytes → Bytes
init_fields rand calls zero i bytes = bytes
init_fields rand calls (suc n) i bytes =
    init_fields rand (calls + 1) n (i + 1) (write_word (field_size * i) (rand calls) bytes)

unfoldable pub init_record : (ℕ → ℕ) → ℕ → Bytes → Bytes
init_record rand calls bytes = init_fields rand calls nfields 0 bytes

-- Create's loop, with `n` records left from record `i`.
unfoldable pub init_records : (ℕ → ℕ) → ℕ → ℕ → (ℕ → Bytes) → ℕ → Bytes
init_records rand zero i records = records
init_records rand (suc n) i records =
    init_records rand n (i + 1) (update records i (init_record rand (nfields * i) (records i)))

-- `mmap` gives memory that is zero. Whether the mutexes are shared between processes changes nothing
-- in this state.
unfoldable pub create : (ℕ → ℕ) → ℕ → Bool → Database
create rand record_num multi_process = record {
  num_records = record_num;
  records = init_records rand record_num 0 (λ i j. 0);
  locks = λ i. false;
}

-- `ok none`: the caller waits until the holder unlocks.
unfoldable pub lock_record : Database → ℕ → Outcome (Option Database)
lock_record db key = do
  require (ltb key db.num_records)
  ok (if db.locks key then none else some (record db { locks = update db.locks key true }))

unfoldable pub unlock_record : Database → ℕ → Outcome Database
unlock_record db key = do
  require (ltb key db.num_records)
  ok (record db { locks = update db.locks key false })

-- `memcmp` of the first `n` bytes: whether they are the same.
unfoldable pub same_bytes : ℕ → Bytes → Bytes → Bool
same_bytes zero a b = true
same_bytes (suc n) a b = same_bytes n a b && a n == b n

-- Compare's loop over the records below `n`.
unfoldable pub same_records : ℕ → Database → Database → Bool
same_records zero a b = true
same_records (suc n) a b =
    same_records n a b && same_bytes record_size (get_record a n) (get_record b n)

-- `false`: a mismatch, at which the program prints a message and exits.
unfoldable pub compare : Database → Database → Outcome Bool
compare db1 db2 = do require (db_size db1 == db_size db2); ok (same_records (db_size db1) db1 db2)

-- `memcpy` of one record.
unfoldable pub copy_bytes : Bytes → Bytes → Bytes
copy_bytes to from j = if ltb j record_size then from j else to j

unfoldable pub copy_records : ℕ → Database → Database → Database
unfolding copy_bytes
copy_records zero dst src = dst
copy_records (suc n) dst src =
    let d = copy_records n dst src in
    put_record d n (copy_bytes (get_record d n) (get_record src n))

unfoldable pub copy : Database → Database → Outcome Database
copy dst src = do require (db_size dst == db_size src); ok (copy_records (db_size dst) dst src)

-- Where `mmap` has put the object and its arrays.
pub record Addresses : Type 0 where
  pub db : ℕ
  pub records : ℕ
  pub locks : ℕ

-- sizeof(sem_t), by which Destroy unmaps, and sizeof(pthread_mutex_t), by which Create maps.
abbrev pub sizeof_sem : ℕ
sizeof_sem = 32

abbrev pub sizeof_mutex : ℕ
sizeof_mutex = 40

-- `assert(err == 0)`
abbrev unmapped {ℓ} : {M : Type ℓ} → Option M → Outcome M
unmapped none = die
unmapped (some memory) = ok memory

-- Destroy, on memory of a type `M` in which `munmap memory address length` unmaps, or fails. That the
-- mutexes are destroyed before shows nowhere in this state.
unfoldable pub destroy {ℓ} :
    {M : Type ℓ} → (M → ℕ → ℕ → Option M) → Addresses → Database → M → Outcome M
destroy munmap at db memory = do
  memory₁ ← unmapped (munmap memory at.locks (sizeof_sem * db.num_records))
  memory₂ ← unmapped (munmap memory₁ at.records (record_size * db.num_records))
  unmapped (munmap memory₂ at.db 24)
