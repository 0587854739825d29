-- ===== src/Request/Copy.antt =====
-- a1/src/txn/request.cc: CopySize and CopyRequest, on memory as bytes. A Request takes 32 bytes, as
-- x86-64 lays it out: db_ in the first eight, is_high_priority_ in byte 8, num_writes_ in bytes 12 to
-- 15, and the pointers writeset_ at 16 and updates_ at 24.
pub mod Bytes
pub mod Layout
pub mod Runs
use cmsc_624_spring.Common.{
  ℕ, ◌+◌, ◌-◌, ◌*◌, ◌/◌, ◌%◌, ◌^◌, not, ◌&&◌, Outcome, ok, ◌>>◌, require, ◌==◌, leb, ltb,
  if◌then◌else◌,
}
use cmsc_624_spring.Database.{nfields}
use cmsc_624_spring.Database.Word
use cmsc_624_spring.Database.Word.{read_word, write_word}
use cmsc_624_spring.Request.{Request}

abbrev pub sizeof_request : ℕ
sizeof_request = 32

abbrev pub writeset_at : ℕ
writeset_at = 16

abbrev pub updates_at : ℕ
updates_at = 24

-- `((n)-1 + (v) - ((n)-1) % (v))`
abbrev pub round_up : ℕ → ℕ → ℕ
round_up n v = n - 1 + v - (n - 1) % v

-- `*(uint32_t *)&bytes[offset]`
unfoldable pub read_half : ℕ → Word.Bytes → ℕ
read_half offset bytes =
    bytes offset
    + bytes (offset + 1) * 2 ^ 8
    + bytes (offset + 2) * 2 ^ 16
    + bytes (offset + 3) * 2 ^ 24

abbrev pub num_writes : ℕ → Word.Bytes → ℕ
num_writes req bytes = read_half (req + 12) bytes

-- The request that lies at an address.
unfoldable pub request_at : ℕ → Word.Bytes → Request
request_at req bytes = record {
  db = read_word req bytes;
  is_high_priority = not (bytes (req + 8) == 0);
  num_writes = num_writes req bytes;
  writeset = λ i. read_word (read_word (req + writeset_at) bytes + 8 * i) bytes;
  updates = λ i. read_word (read_word (req + updates_at) bytes + 8 * i) bytes;
}

-- `nfields + req->num_writes_` is a uint32.
unfoldable pub copy_size : ℕ → Word.Bytes → ℕ
copy_size req bytes = round_up sizeof_request 8 + 8 * ((nfields + num_writes req bytes) % 2 ^ 32)

unfoldable pub memcpy : ℕ → ℕ → ℕ → Word.Bytes → Word.Bytes
memcpy dst src n bytes j = if leb dst j && ltb j (dst + n) then bytes (src + (j - dst)) else bytes j

-- The lines for the writeset, and for the updates behind it: the array is copied, and the pointer in
-- the copy set to where it lies now.
abbrev pub copy_writeset : ℕ → ℕ → ℕ → Word.Bytes → Word.Bytes
copy_writeset buf req array bytes =
    write_word (buf + writeset_at) array
      (memcpy array (read_word (req + writeset_at) bytes) (8 * num_writes req bytes) bytes)

abbrev pub copy_updates : ℕ → ℕ → ℕ → Word.Bytes → Word.Bytes
copy_updates buf req array bytes =
    write_word (buf + updates_at) array
      (memcpy array (read_word (req + updates_at) bytes) (8 * nfields) bytes)

unfoldable pub copy_request : ℕ → ℕ → Word.Bytes → Outcome Word.Bytes
copy_request buf req bytes =
    let offset = round_up sizeof_request 8 in
    let copied = memcpy buf req sizeof_request bytes in
    let with_writeset = copy_writeset buf req (buf + offset) copied in
    let array = buf + offset + 8 * num_writes req with_writeset in
    require (offset % 8 == 0) >> ok (copy_updates buf req array with_writeset)
