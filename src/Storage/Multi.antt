-- ===== src/Storage/Multi.antt =====
-- a2/src/txn/mvcc_storage.h, mvcc_storage.cc: class MVCCStorage as the repository has it. Read,
-- CheckKey and Write are the handed-out stubs: they return true or do nothing.
use cmsc_624_spring.Common.{
  ℕ, zero, suc, ◌+◌, ◌≡◌, ◌≢◌, Bool, true, false, ◌&&◌, Option, none, some, arith, ltb, leb,
  if◌then◌else◌, List, Map, [], find, put, find-put, Outcome, ok, die,
}

pub record Version : Type 0 where
  pub value : ℕ
  pub max_read_id : ℕ
  pub version_id : ℕ

-- A mutex is its state: true while it is held.
pub record MvccStorage : Type 0 where
  pub mvcc_data : Map (List Version)
  pub mutexs : Map Bool

abbrev pub empty : MvccStorage
empty = record { mvcc_data = []; mutexs = [] }

-- Returns true and leaves `*result` as the caller had it.
unfoldable pub read : MvccStorage → ℕ → ℕ → ℕ → Bool × ℕ
read s key result txn_unique_id = (true, result)

unfoldable pub check_key : MvccStorage → ℕ → ℕ → Bool
check_key s key txn_unique_id = true

unfoldable pub write : MvccStorage → ℕ → ℕ → ℕ → MvccStorage
write s key value txn_unique_id = s

-- What a caller of `Lock` meets: a null pointer where the key has no mutex, a wait while the mutex is
-- held, or the mutex.
unfoldable pub acquire : Option Bool → MvccStorage → ℕ → Outcome (Option MvccStorage)
acquire none s key = die
acquire (some true) s key = ok none
acquire (some false) s key = ok (some (record s { mutexs = put key true s.mutexs }))

-- `none`: the caller waits.
unfoldable pub lock : MvccStorage → ℕ → Outcome (Option MvccStorage)
unfolding acquire
lock s key = acquire (find key s.mutexs) s key

unlock_found : Option Bool → MvccStorage → ℕ → Outcome MvccStorage
unlock_found none s key = die
unlock_found (some held) s key = ok (record s { mutexs = put key false s.mutexs })

pub unlock : MvccStorage → ℕ → Outcome MvccStorage
unfolding unlock_found
unlock s key = unlock_found (find key s.mutexs) s key

pub init_from : ℕ → ℕ → MvccStorage → MvccStorage
init_from zero i s = s
init_from (suc n) i s =
    let s' = write s i 0 0 in init_from n (i + 1) (record s' { mutexs = put i false s'.mutexs })

abbrev pub record_count : ℕ
record_count = 1000000

unfoldable pub init_storage : MvccStorage → MvccStorage
init_storage s = init_from record_count 0 s

-- The destructor deletes the lists and the mutexes.
pub destroy : MvccStorage → MvccStorage
destroy s = empty

find-init_from :
    (n i : ℕ) (s : MvccStorage) (j : ℕ)
    → find j (init_from n i s).mutexs
      ≡ (if leb i j && ltb j (i + n) then some false else find j s.mutexs)
unfolding init_from write
find-init_from zero i s j = ground arith
find-init_from (suc n) i s j = ground (
  arith,
  find-init_from n (i + 1) (record s { mutexs = put i false s.mutexs }) j,
  find-put i j false s.mutexs,
)

-- The per-key mutexes exclude: once a caller has locked a key, every further `Lock` of it waits, the
-- mutexes of the other keys are as they were, and an `Unlock` succeeds and lets the next caller in.
pub lock_excludes :
    (s s' : MvccStorage) (key : ℕ)
    → lock s key ≡ ok (some s')
    → (lock s' key ≡ ok none)
      × ((j : ℕ) → key ≢ j → find j s'.mutexs ≡ find j s.mutexs)
      × (s'' : MvccStorage) × (unlock s' key ≡ ok s'')
      × (lock s'' key ≡ ok (some (record s'' { mutexs = put key true s''.mutexs })))
unfolding lock unlock
lock_excludes s s' key h = (
  ground (arith, find-put key key true s.mutexs),
  λ j ne. ground (arith, find-put key j true s.mutexs),
  record s' { mutexs = put key false s'.mutexs },
  ground (arith, find-put key key true s.mutexs),
  ground (arith, find-put key key false s'.mutexs),
)

-- After InitStorage the mutexes exist, unlocked, for exactly the keys below the record count.
pub mutexs-init_storage :
    (j : ℕ) → find j (init_storage empty).mutexs ≡ (if ltb j record_count then some false else none)
unfolding init_storage find
mutexs-init_storage j = ground (arith, find-init_from record_count 0 empty j)
