-- ===== src/Launcher/ProcessPool/Buffers.antt =====
-- The request buffers of the processes, and what CopyRequest may write into one.
use cmsc_624_spring.Common.{ℕ, ◌+◌, ◌^◌, ◌<◌, ◌≤◌, ◌≢◌, inl, inr, arith}
use native.Mathlib.Decide.{dec_lt}
use cmsc_624_spring.Database.Word.{Bytes}
use cmsc_624_spring.Request.Copy.{num_writes, copy_size}
use cmsc_624_spring.Request.Copy.Bytes.{Apart}
use cmsc_624_spring.Launcher.ProcessPool.{req_bufs_size, request_buf, rqst_buf_sz}

-- With fewer than 2^22 processes, for which the uint32 products do not wrap, a request of at most 114
-- writes that is copied into the buffer of a process stays within the memory that was mapped for
-- the buffers and clear of the buffers of the other processes.
pub buffers_hold :
    (req_bufs nprocs i req : ℕ) (b : Bytes)
    → nprocs < 2 ^ 22
    → i < nprocs
    → num_writes req b ≤ 114
    → (request_buf req_bufs i + copy_size req b ≤ req_bufs + req_bufs_size nprocs)
      × ((j : ℕ)
          → j < nprocs
          → j ≢ i
          → Apart (request_buf req_bufs i) (copy_size req b) (request_buf req_bufs j) rqst_buf_sz)
unfolding copy_size
buffers_hold req_bufs nprocs i req b few lt small = (
  omega arith,
  λ j lt' ne. elim (dec_lt i j) [
    | yes before ↦ inl (omega arith)
    | no after ↦ inr (omega (arith, ne))
  ],
)
