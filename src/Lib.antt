-- ===== src/Lib.antt =====
-- The two programs of the repository: a1, which runs requests against an in-memory database under
-- several process models, and a2, a transaction processor with several concurrency controls.
--
-- Common         shared tests on numbers, lists, sets and maps in ascending order, and Outcome, the
--                result of a call that may end the process (`DIE`, a failed `assert`).
-- Atomic         a2/src/utils/atomic.h. A method runs under its lock, so a call is one step.
-- Txn            a2/src/txn/txn.h, txn.cc and txn_types.h. A class of transactions is a constructor of
--                TxnType with the fields of the class; Txn/Spec says what a transaction means on a
--                database seen as a function of its keys.
-- Storage        a2/src/txn/storage.h, storage.cc, mvcc_storage.h, mvcc_storage.cc. Storage* is a sum of
--                the two classes; GetTime is a parameter.
-- LockManager    a2/src/txn/lock_manager.h, lock_manager.cc, the two classes as records of methods.
-- Processor      a2/src/txn/txn_processor.h, txn_processor.cc: the object's state, with transactions in
--                a heap by address as the queues share pointers to them. Serial has the serial scheduler,
--                which the OCC and MVCC schedulers of the repository call too; Locking the locking
--                scheduler and the threads that execute, in any interleaving, over the interface of
--                the lock managers, with the contract that it relies on in Locking/Contract; Client the
--                switch over the modes and a client's calls; Lifetime the object from its constructor
--                to its destructor, with its owner's, the scheduler's and the pool's threads.
-- ThreadPool     a2/src/utils/static_thread_pool.h, its threads in any interleaving.
-- Database       a1/src/db/database.h, database.cc. A record is a function from places to bytes.
-- Request        a1/src/txn/request.h, request.cc: what a request does to a database. Order has the
--                writes of records as a list, Interleave the requests one after another, and Copy the
--                copy of a request into a buffer, on memory as bytes.
-- Driver         a1/src/db_start.cc: the requests that it generates, its self-test, the choices of
--                main, and the line of results. rand() is a parameter, a function of the number of the call.
-- Launcher       a1/src/launcher: launcher.h and launcher.cc, and in the children the four launchers. In
--                Thread and Process a step is a critical section, or what a thread or process does
--                between two, and a state is reached by any interleaving of steps. ThreadPool and
--                ProcessPool have what the repository has of the pools. munmap is a parameter.
-- Monitor        a1/src/monitor/perf_monitor.h, perf_monitor.cc. The samples that the monitor takes are a
--                parameter, and so is the quotient of a count and a time.
-- Config         a1/src/db/config.h: from the results of getopt_long_only to a configuration.
-- Examples       the definitions and the theorems on small inputs.
--
-- The transactions use Storage, and are driven by Processor; the requests change a Database, and are
-- made by Driver and run by Launcher. The locking scheduler's steps may come in any order, which
-- includes the order of its loops; a task of ThreadPool stands for the execution of a transaction.
--
-- Integers are natural numbers, and ℤ where the code has signed ones that can be negative. The wrap of
-- unsigned ones is written out where the code computes with them; the `int` counters of a2 (sizes, the
-- ids of transactions) are taken not to overflow. The loop of the serial scheduler runs a given number
-- of rounds, as another thread decides when it stops, and any number that is at least the number of
-- requests serves them all. The loop of gen_unique runs on fuel; fuel within which every key is drawn is
-- enough.
--
-- Not modelled: the bodies that are handed out empty are modelled as they stand, and do nothing, return
-- true or end in their `assert(false)`. The wrappers of pthread, input, sleeping and the messages on
-- stderr are left out; doubles are a parameter. Of threads, their creation and their steps are modelled,
-- not their affinity.
pub mod Common
pub mod Atomic
pub mod Txn
pub mod Storage
pub mod LockManager
pub mod Processor
pub mod Database
pub mod Request
pub mod Driver
pub mod Launcher
pub mod ThreadPool
pub mod Config
pub mod Monitor
pub mod Examples
