-- ===== src/Request/Copy/Runs.antt =====
-- A copied request does what the request does, for as long as its buffer is not written.
use cmsc_624_spring.Common.{
  ℕ, zero, suc, ◌+◌, ◌-◌, ◌*◌, ◌%◌, ◌^◌, ◌⊎◌, subst, ◌<◌, ◌≤◌, ◌≡◌, refl, ap, inl, inr, Bool-cases,
  ◌∙◌, not, Outcome, ok, ◌>>=◌, ◌==◌, arith, update,
}
use cmsc_624_spring.Database.{Database, nfields, field_size, get_record, put_record}
use cmsc_624_spring.Database.Word.{Bytes, read_word, write_word}
use cmsc_624_spring.Request.{
  Request, add_fields, do_write, may_write, write_records, txn, execute, lock, unlock,
}
use cmsc_624_spring.Request.Copy.{
  request_at, num_writes, copy_request, copy_size, sizeof_request, writeset_at, updates_at,
}
use cmsc_624_spring.Request.Copy.Bytes.{
  Same, Same-trans, Same-part, Same-less, Same-first, Same-read_word,
}
use cmsc_624_spring.Request.Copy.Layout.{
  extent, HasRoom, IsCopied, Same-num_writes, copy_request-IsCopied,
}

-- Requests that are the same in all that their methods read.
record Agrees (r r' : Request) : Type 0 where
  db : r.db ≡ r'.db
  is_high_priority : r.is_high_priority ≡ r'.is_high_priority
  num_writes : r.num_writes ≡ r'.num_writes
  writeset : (i : ℕ) → i < r'.num_writes → r.writeset i ≡ r'.writeset i
  updates : (i : ℕ) → i < nfields → r.updates i ≡ r'.updates i

add_fields-Agrees :
    (n i : ℕ) (f g : ℕ → ℕ) (bytes : Bytes)
    → i + n ≤ nfields
    → ((j : ℕ) → j < nfields → f j ≡ g j)
    → add_fields n i f bytes ≡ add_fields n i g bytes
unfolding add_fields
add_fields-Agrees zero i f g bytes le h = refl
add_fields-Agrees (suc n) i f g bytes le h = rw (h i (omega arith)) (
    add_fields-Agrees n (i + 1) f g
      (write_word (i * field_size) ((read_word (i * field_size) bytes + g i) % 2 ^ 64) bytes)
      (omega arith) h)

may_write-Agrees :
    {r r' : Request} (i : ℕ) → i < r'.num_writes → Agrees r r' → may_write r i ≡ may_write r' i
may_write-Agrees i lt a = rw (a.writeset i lt, a.writeset (i - 1) (omega arith)) refl

write_records-Agrees :
    {r r' : Request} (n i : ℕ) (db : Database)
    → i + n ≤ r'.num_writes
    → Agrees r r'
    → write_records r n i db ≡ write_records r' n i db
unfolding write_records do_write
write_records-Agrees zero i db le a = refl
write_records-Agrees {r} {r'} (suc n) i db le a =
    let here =
      add_fields-Agrees nfields 0 r.updates r'.updates (get_record db (r'.writeset i)) (omega arith)
        a.updates in
    let next =
      put_record db (r'.writeset i)
        (add_fields nfields 0 r'.updates (get_record db (r'.writeset i))) in
    let rest = write_records-Agrees n (i + 1) next (omega arith) a in
    elim (Bool-cases (may_write r' i)) [
      | inl h ↦
          rw (may_write-Agrees i (omega arith) a ∙ h, h, write_records)
            (rw (a.writeset i (omega arith), here) rest)
      | inr h ↦ rw (may_write-Agrees i (omega arith) a ∙ h, h, write_records) refl
    ]

execute-Agrees :
    {r r' : Request} → Agrees r r' → (dbs : ℕ → Database) → execute r dbs ≡ execute r' dbs
unfolding execute txn lock unlock
execute-Agrees {r} {r'} a dbs =
    let db = dbs r'.db in
    ap (λ d. txn r (dbs d) >>= λ db. ok (update dbs d db)) a.db
    ∙ ap (λ (o : Outcome Database). o >>= λ db. ok (update dbs r'.db db))
        (ap (λ n. write_records r n 0 db) a.num_writes
          ∙ write_records-Agrees r'.num_writes 0 db (omega arith) a)

-- The copy, in a memory that is the same in the buffer.
module _ {buf req : ℕ} {b b' b'' : Bytes} (c : IsCopied buf req b b')
    (still : Same b'' buf b' buf (extent req b)) where
  object : Same b'' buf b req 16
  object = Same-trans (Same-less (omega arith) still) c.object

  writeset_ptr : read_word (buf + writeset_at) b'' ≡ buf + sizeof_request
  writeset_ptr =
      Same-read_word (omega arith) (Same-part writeset_at 8 (omega arith) still) ∙ c.writeset_ptr

  updates_ptr : read_word (buf + updates_at) b'' ≡ buf + sizeof_request + 8 * num_writes req b
  updates_ptr =
      Same-read_word (omega arith) (Same-part updates_at 8 (omega arith) still) ∙ c.updates_ptr

  updates_still :
      Same b''
        (buf + sizeof_request + 8 * num_writes req b)
        b'
        (buf + sizeof_request + 8 * num_writes req b)
        (8 * nfields)
  updates_still =
      Same-part (8 * num_writes req b) (8 * nfields) (omega arith)
        (Same-part sizeof_request (8 * num_writes req b + 8 * nfields) (omega arith) still)

  copy-Agrees : Agrees (request_at buf b'') (request_at req b)
  unfolding request_at
  copy-Agrees = record {
    db = Same-read_word (omega arith) object;
    is_high_priority =
        ap (λ v. not (v == 0)) (Same-first (omega arith) (Same-part 8 1 (omega arith) object));
    num_writes = Same-num_writes object;
    writeset = λ i lt.
        ap (λ p. read_word (p + 8 * i) b'') writeset_ptr
        ∙ Same-read_word (omega arith) (
            Same-part (8 * i) 8 (omega arith) (
              Same-trans (Same-part sizeof_request (8 * num_writes req b) (omega arith) still)
                c.writeset));
    updates = λ i lt.
        ap (λ p. read_word (p + 8 * i) b'') updates_ptr
        ∙ Same-read_word (omega arith)
            (Same-part (8 * i) 8 (omega arith) (Same-trans updates_still c.updates));
  }

-- `copy_size`, for as many writes as fit in a uint32.
pub copy_size_lem :
    (req : ℕ) (b : Bytes) → num_writes req b + nfields < 2 ^ 32 → copy_size req b ≡ extent req b
unfolding copy_size
copy_size_lem req b few = omega arith

-- Let a request with its arrays lie outside of the CopySize bytes at `buf`, which end below 2^64, and
-- have few enough writes for the uint32 arithmetic. Then CopyRequest meets no failing assertion and
-- changes no byte outside of the buffer; and in every later memory in which these CopySize bytes are
-- still what CopyRequest left, whatever has become of the original and its arrays, executing the
-- request in the buffer has the effect on the databases, or the failing assertion, that executing
-- the original had at the time of the copy.
pub copy_request-execute :
    (buf req : ℕ) (b : Bytes)
    → HasRoom buf req b
    → num_writes req b + nfields < 2 ^ 32
    → (b' : Bytes) × (copy_request buf req b ≡ ok b')
      × ((j : ℕ) → (j < buf) ⊎ (buf + copy_size req b ≤ j) → b' j ≡ b j)
      × ((b'' : Bytes)
          → Same b'' buf b' buf (copy_size req b)
          → (dbs : ℕ → Database)
          → execute (request_at buf b'') dbs ≡ execute (request_at req b) dbs)
copy_request-execute buf req b room few =
    let (b', done, c) = copy_request-IsCopied buf req b room in
    let size = copy_size_lem req b few in
    (
      b',
      done,
      λ j out. c.kept.outside j (subst (λ n. (j < buf) ⊎ (buf + n ≤ j)) size out),
      λ b'' still dbs. execute-Agrees (copy-Agrees c (subst (Same b'' buf b' buf) size still)) dbs,
    )
