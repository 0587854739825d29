-- ===== src/Request/Copy/Layout.antt =====
-- What CopyRequest leaves in the buffer.
use cmsc_624_spring.Common.{ℕ, ◌+◌, ◌*◌, ◌^◌, ◌<◌, ◌≤◌, ◌≡◌, inl, inr, refl, ◌∙◌, ok, arith}
use cmsc_624_spring.Database.{nfields}
use cmsc_624_spring.Database.Word.{Bytes, read_word, write_word, read-write_word}
use cmsc_624_spring.Request.Copy.{
  num_writes, memcpy, copy_request, sizeof_request, writeset_at, updates_at,
}
use cmsc_624_spring.Request.Copy.Bytes.{
  Same, Apart, Kept, Same-trans, Same-part, Same-less, Same-read_word, Same-read_half, Kept-trans,
  Kept-Same, memcpy-Kept, memcpy-Same, write_word-Kept,
}

-- The bytes of a copy: the object and its two arrays.
abbrev pub extent : ℕ → Bytes → ℕ
extent req b = sizeof_request + 8 * num_writes req b + 8 * nfields

-- The buffer ends below 2^64, and the request and its arrays lie outside of it.
pub record HasRoom (buf req : ℕ) (b : Bytes) : Type 0 where
  pub below : buf + extent req b < 2 ^ 64
  pub object : Apart req sizeof_request buf (extent req b)
  pub writeset : Apart (read_word (req + writeset_at) b) (8 * num_writes req b) buf (extent req b)
  pub updates : Apart (read_word (req + updates_at) b) (8 * nfields) buf (extent req b)

-- Memory after the copy, in which the object lies at `buf` and the arrays behind it.
pub record IsCopied (buf req : ℕ) (b b' : Bytes) : Type 0 where
  pub kept : Kept buf (extent req b) b b'
  pub object : Same b' buf b req 16
  pub writeset_ptr : read_word (buf + writeset_at) b' ≡ buf + sizeof_request
  pub updates_ptr : read_word (buf + updates_at) b' ≡ buf + sizeof_request + 8 * num_writes req b
  pub writeset :
      Same b' (buf + sizeof_request) b (read_word (req + writeset_at) b) (8 * num_writes req b)
  pub updates :
      Same b'
        (buf + sizeof_request + 8 * num_writes req b)
        b
        (read_word (req + updates_at) b)
        (8 * nfields)

pub Same-num_writes :
    {a a' : ℕ} {b b' : Bytes} → Same b a b' a' 16 → num_writes a b ≡ num_writes a' b'
Same-num_writes h = Same-read_half (omega arith) (Same-part 12 4 (omega arith) h)

module _ (buf req : ℕ) (b : Bytes) (room : HasRoom buf req b) where
  abbrev n : ℕ
  n = num_writes req b

  abbrev array : ℕ
  array = buf + sizeof_request

  abbrev array_after : ℕ
  array_after = array + 8 * n

  -- Memory after each of the calls.
  abbrev b₁ : Bytes
  b₁ = memcpy buf req sizeof_request b

  abbrev b₂ : Bytes
  b₂ = memcpy array (read_word (req + writeset_at) b) (8 * n) b₁

  abbrev b₃ : Bytes
  b₃ = write_word (buf + writeset_at) array b₂

  abbrev b₄ : Bytes
  b₄ = memcpy array_after (read_word (req + updates_at) b) (8 * nfields) b₃

  abbrev b₅ : Bytes
  b₅ = write_word (buf + updates_at) array_after b₄

  kept₁ : Kept buf (extent req b) b b₁
  kept₁ = memcpy-Kept buf (extent req b) buf req sizeof_request b (omega arith) (omega arith)

  kept₃ : Kept buf (extent req b) b b₃
  kept₃ = Kept-trans kept₁ (
      Kept-trans
        (memcpy-Kept buf (extent req b) array (read_word (req + writeset_at) b) (8 * n) b₁
          (omega arith) (omega arith))
        (write_word-Kept buf (extent req b) (buf + writeset_at) array b₂ (omega arith)
          (omega arith)))

  -- The request stands in each of them.
  object-Same : (b' : Bytes) → Kept buf (extent req b) b b' → Same b' req b req sizeof_request
  object-Same b' k = Kept-Same k room.object

  at_object :
      (b' : Bytes) (offset : ℕ)
      → offset + 8 ≤ sizeof_request
      → Kept buf (extent req b) b b'
      → read_word (req + offset) b' ≡ read_word (req + offset) b
  at_object b' offset le k = Same-read_word (omega arith) (Same-part offset 8 le (object-Same b' k))

  num_at : (b' : Bytes) → Kept buf (extent req b) b b' → num_writes req b' ≡ n
  num_at b' k = Same-num_writes (Same-less (omega arith) (object-Same b' k))

  copy_request_ok : copy_request buf req b ≡ ok b₅
  unfolding copy_request
  copy_request_ok =
      rw
        (
          at_object b₁ writeset_at (omega arith) kept₁,
          num_at b₁ kept₁,
          at_object b₃ updates_at (omega arith) kept₃,
          num_at b₃ kept₃,
        )
        refl

  -- The lines for the updates.
  later₄ : Kept array_after (8 * nfields) b₃ b₄
  later₄ =
      memcpy-Kept array_after (8 * nfields) array_after (read_word (req + updates_at) b)
        (8 * nfields) b₃ (omega arith) (omega arith)

  later₅ : Kept (buf + updates_at) 8 b₄ b₅
  later₅ =
      write_word-Kept (buf + updates_at) 8 (buf + updates_at) array_after b₄ (omega arith)
        (omega arith)

  pointer₃ : Kept (buf + writeset_at) 8 b₂ b₃
  pointer₃ =
      write_word-Kept (buf + writeset_at) 8 (buf + writeset_at) array b₂ (omega arith) (omega arith)

  b₅-IsCopied : IsCopied buf req b b₅
  b₅-IsCopied = record {
    kept = Kept-trans kept₃ (
        Kept-trans
          (memcpy-Kept buf (extent req b) array_after (read_word (req + updates_at) b) (8 * nfields)
            b₃ (omega arith) (omega arith))
          (write_word-Kept buf (extent req b) (buf + updates_at) array_after b₄ (omega arith)
            (omega arith)));
    object = Same-trans (Kept-Same later₅ (inl (omega arith))) (
        Same-trans (Kept-Same later₄ (inl (omega arith))) (
          Same-trans (Kept-Same pointer₃ (inl (omega arith))) (
            Same-trans
              (Kept-Same
                (memcpy-Kept array (8 * n) array (read_word (req + writeset_at) b) (8 * n) b₁
                  (omega arith) (omega arith))
                (inl (omega arith)))
              (Same-less (omega arith) (memcpy-Same buf req sizeof_request b)))));
    writeset_ptr =
        Same-read_word (omega arith) (
          Same-trans (Kept-Same later₅ (inl (omega arith)))
            (Kept-Same {m = 8} later₄ (inl (omega arith))))
        ∙ read-write_word (buf + writeset_at) array b₂
        ∙ omega (arith, room.below);
    updates_ptr = read-write_word (buf + updates_at) array_after b₄ ∙ omega (arith, room.below);
    writeset = Same-trans (Kept-Same later₅ (inr (omega arith))) (
        Same-trans (Kept-Same later₄ (inl (omega arith))) (
          Same-trans (Kept-Same pointer₃ (inr (omega arith))) (
            Same-trans (memcpy-Same array (read_word (req + writeset_at) b) (8 * n) b₁)
              (Kept-Same kept₁ room.writeset))));
    updates = Same-trans (Kept-Same later₅ (inr (omega arith))) (
        Same-trans (memcpy-Same array_after (read_word (req + updates_at) b) (8 * nfields) b₃)
          (Kept-Same kept₃ room.updates));
  }

  -- CopyRequest meets no failing assertion, and leaves a copy.
  pub copy_request-IsCopied :
      (b' : Bytes) × (copy_request buf req b ≡ ok b') × IsCopied buf req b b'
  copy_request-IsCopied = (b₅, copy_request_ok, b₅-IsCopied)
