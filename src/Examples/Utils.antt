-- ===== src/Examples/Utils.antt =====
-- a2/src/utils/atomic.h and the storages, on small inputs.
use cmsc_624_spring.Common.{ℕ, ◌+◌, ◌≡◌, refl, true, false, some, List, [], ◌∷◌, ok, find, put}
use cmsc_624_spring.Atomic.Queue
use cmsc_624_spring.Atomic.Queue.{
  AtomicQueue, Call, pushes, pops, tries_push, tries_pop, History, performs, IsFifo,
  performs-IsFifo,
}
use cmsc_624_spring.Atomic.Map.{AtomicMap}
use cmsc_624_spring.Atomic.Set.{AtomicSet, get_first}
use cmsc_624_spring.Atomic.Cell.{Atomic}
use cmsc_624_spring.Atomic.Vector.{AtomicVector}
use cmsc_624_spring.Storage.Single
use cmsc_624_spring.Storage.Single.{Storage, read-write, read-init_storage}
use cmsc_624_spring.Storage.Multi
use cmsc_624_spring.Storage.Multi.{MvccStorage, lock_excludes, mutexs-init_storage}

abbrev calls : List (Call ℕ)
calls =
    pushes 4 ∷ tries_push false 5 ∷ tries_push true 6 ∷ pops ∷ tries_pop true ∷ pops ∷ pushes 7 ∷ []

abbrev no_calls : History ℕ
no_calls = record { queue = Queue.empty; pushed = []; popped = [] }

calls_popped : (performs calls no_calls).popped ≡ 4 ∷ 6 ∷ []
unfolding performs Queue.perform Queue.push Queue.pop Queue.push_non_blocking Queue.pop_non_blocking
calls_popped = refl

performs-IsFifo_example : IsFifo (performs calls no_calls)
performs-IsFifo_example = performs-IsFifo calls no_calls refl

abbrev map_of_two : AtomicMap ℕ
map_of_two = record { entries = (1, 10) ∷ (3, 30) ∷ [] }

abbrev set_of_two : AtomicSet
set_of_two = record { elements = 2 ∷ 5 ∷ [] }

first_of_two : get_first set_of_two ≡ some 2
unfolding get_first
first_of_two = refl

abbrev seven : Atomic
seven = record { value = 7 }

abbrev vector_of_two : AtomicVector ℕ
vector_of_two = record { elements = 8 ∷ 9 ∷ [] }

abbrev stored : Storage
stored = record { records = (1, 10) ∷ []; timestamps = (1, 99) ∷ []; ticks = 1 }

abbrev clock : ℕ → ℕ
clock i = 1000 + i

read-write_example :
    (Single.read (Single.write clock stored 1 11 5) 1 0 6 ≡ (true, 11))
    × (Single.timestamp (Single.write clock stored 1 11 5) 1 ≡ 1001)
read-write_example = read-write clock stored 1 1 11 0 5 6

read-init_storage_example : Single.read (Single.init_storage clock Single.empty) 0 8 1 ≡ (true, 0)
read-init_storage_example = read-init_storage clock 0 8 1

abbrev unlocked : MvccStorage
unlocked = record { mvcc_data = []; mutexs = (3, false) ∷ [] }

abbrev locked : MvccStorage
locked = record { mvcc_data = []; mutexs = put 3 true ((3, false) ∷ []) }

lock-unlocked : Multi.lock unlocked 3 ≡ ok (some locked)
unfolding Multi.lock find
lock-unlocked = refl
