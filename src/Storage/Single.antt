-- ===== src/Storage/Single.antt =====
-- a2/src/txn/storage.h, storage.cc: class Storage, one version of each record.
use cmsc_624_spring.Common.{
  ℕ, zero, suc, ◌+◌, ◌≡◌, Bool, true, false, ◌&&◌, Option, none, some, arith, ltb, leb,
  if◌then◌else◌, ◌==◌, Map, [], find, put, find-put,
}

-- `ticks` counts the calls of GetTime: call number i returns `clock i`, in microseconds, where the
-- code has a double in seconds. The clock is a parameter of what reads it.
pub record Storage : Type 0 where
  pub records : Map ℕ  -- data_
  pub timestamps : Map ℕ
  pub ticks : ℕ

abbrev pub empty : Storage
empty = record { records = []; timestamps = []; ticks = 0 }

abbrev pub found : Option ℕ → ℕ → Bool × ℕ
found none result = (false, result)
found (some value) result = (true, value)

-- The result of the call, and `*result` after it.
unfoldable pub read : Storage → ℕ → ℕ → ℕ → Bool × ℕ
read s key result txn_unique_id = found (find key s.records) result

unfoldable pub write : (ℕ → ℕ) → Storage → ℕ → ℕ → ℕ → Storage
write clock s key value txn_unique_id = record {
  records = put key value s.records;
  timestamps = put key (clock s.ticks) s.timestamps;
  ticks = s.ticks + 1;
}

abbrev time_of : Option ℕ → ℕ
time_of none = 0
time_of (some t) = t

unfoldable pub timestamp : Storage → ℕ → ℕ
timestamp s key = time_of (find key s.timestamps)

-- The loop of InitStorage, with `n` rounds left from `i`.
pub init_from : (ℕ → ℕ) → ℕ → ℕ → Storage → Storage
init_from clock zero i s = s
init_from clock (suc n) i s = init_from clock n (i + 1) (write clock s i 0 0)

abbrev pub record_count : ℕ
record_count = 1000000

pub init_storage : (ℕ → ℕ) → Storage → Storage
init_storage clock s = init_from clock record_count 0 s

-- No-ops of the base class, overridden by MVCCStorage.
pub lock : Storage → ℕ → Storage
lock s key = s

pub unlock : Storage → ℕ → Storage
unlock s key = s

pub check_write : Storage → ℕ → ℕ → Bool
check_write s key txn_unique_id = true

-- The last write to a key decides what a read of it returns and when it was last updated; reads and
-- times of the other keys do not change, nor does the id matter.
pub read-write :
    (clock : ℕ → ℕ) (s : Storage) (key j value result id id' : ℕ)
    → (read (write clock s key value id) j result id'
        ≡ (if key == j then (true, value) else read s j result id'))
      × (timestamp (write clock s key value id) j
          ≡ (if key == j then clock s.ticks else timestamp s j))
unfolding read write timestamp
read-write clock s key j value result id id' = (
  ground (arith, find-put key j value s.records),
  ground (arith, find-put key j (clock s.ticks) s.timestamps),
)

find-init_from :
    (clock : ℕ → ℕ) (n i : ℕ) (s : Storage) (j : ℕ)
    → find j (init_from clock n i s).records
      ≡ (if leb i j && ltb j (i + n) then some 0 else find j s.records)
unfolding init_from write
find-init_from clock zero i s j = ground arith
find-init_from clock (suc n) i s j =
    ground (arith, find-init_from clock n (i + 1) (write clock s i 0 0) j, find-put i j 0 s.records)

pub find-init_storage :
    (clock : ℕ → ℕ) (j : ℕ)
    → find j (init_storage clock empty).records ≡ (if ltb j record_count then some 0 else none)
unfolding init_storage find
find-init_storage clock j = ground (arith, find-init_from clock record_count 0 empty j)

-- After InitStorage exactly the keys below the record count exist in an empty storage, each with the
-- value 0.
pub read-init_storage :
    (clock : ℕ → ℕ) (j result id : ℕ)
    → read (init_storage clock empty) j result id
      ≡ (if ltb j record_count then (true, 0) else (false, result))
unfolding read init_storage find
read-init_storage clock j result id = ground (arith, find-init_from clock record_count 0 empty j)
