-- ===== src/Atomic.antt =====
-- a2/src/utils/atomic.h: the containers shared between threads. Each method body runs under the
-- container's own lock from its first line to its return, so a method is one step on the contents;
-- `TryLock` may fail, and whether it found the lock free is an argument.
pub mod Map
pub mod Set
pub mod Queue
pub mod Cell
pub mod Vector
