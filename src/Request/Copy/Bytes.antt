-- ===== src/Request/Copy/Bytes.antt =====
-- Stretches of memory that are the same, and what memcpy and the writes of words leave alone.
use cmsc_624_spring.Common.{ℕ, ◌+◌, ◌-◌, ◌<◌, ◌≤◌, ◌≡◌, ◌⊎◌, inl, inr, ap, ◌∙◌, arith}
use cmsc_624_spring.Database.Word.{Bytes, read_word, write_word, write_word_outside}
use cmsc_624_spring.Request.Copy.{read_half, memcpy}

-- The `n` bytes at `a` in one memory, and at `a'` in another.
pub record Same (b : Bytes) (a : ℕ) (b' : Bytes) (a' n : ℕ) : Type 0 where
  pub at : (k : ℕ) → k < n → b (a + k) ≡ b' (a' + k)

-- A stretch that shares no byte with another.
abbrev pub Apart : ℕ → ℕ → ℕ → ℕ → Type 0
Apart a n c m = (a + n ≤ c) ⊎ (c + m ≤ a)

-- Nothing changes outside of a stretch.
pub record Kept (a n : ℕ) (b b' : Bytes) : Type 0 where
  pub outside : (j : ℕ) → (j < a) ⊎ (a + n ≤ j) → b' j ≡ b j

pub Same-trans :
    {n a₁ a₂ a₃ : ℕ} {b₁ b₂ b₃ : Bytes}
    → Same b₁ a₁ b₂ a₂ n
    → Same b₂ a₂ b₃ a₃ n
    → Same b₁ a₁ b₃ a₃ n
Same-trans h g = record { at = λ k lt. h.at k lt ∙ g.at k lt }

-- A part of a stretch.
pub Same-part :
    {n a a' : ℕ} {b b' : Bytes} (i m : ℕ)
    → i + m ≤ n
    → Same b a b' a' n
    → Same b (a + i) b' (a' + i) m
Same-part {a = a} {a'} {b} {b'} i m le h = record {
  at = λ k lt.
      let here : a + i + k ≡ a + (i + k) = omega arith in
      let there : a' + (i + k) ≡ a' + i + k = omega arith in
      ap b here ∙ h.at (i + k) (omega arith) ∙ ap b' there;
}

pub Same-less : {n a a' : ℕ} {b b' : Bytes} {m : ℕ} → m ≤ n → Same b a b' a' n → Same b a b' a' m
Same-less le h = record { at = λ k lt. h.at k (omega arith) }

pub Same-first : {n a a' : ℕ} {b b' : Bytes} → 0 < n → Same b a b' a' n → b a ≡ b' a'
Same-first {a = a} {a'} {b} {b'} pos h =
    let here : a ≡ a + 0 = omega arith in
    let there : a' + 0 ≡ a' = omega arith in ap b here ∙ h.at 0 pos ∙ ap b' there

pub Same-read_word :
    {n a a' : ℕ} {b b' : Bytes} → 8 ≤ n → Same b a b' a' n → read_word a b ≡ read_word a' b'
unfolding read_word
Same-read_word le h = omega (
  arith,
  Same-first (omega arith) h,
  h.at 1 (omega arith),
  h.at 2 (omega arith),
  h.at 3 (omega arith),
  h.at 4 (omega arith),
  h.at 5 (omega arith),
  h.at 6 (omega arith),
  h.at 7 (omega arith),
)

pub Same-read_half :
    {n a a' : ℕ} {b b' : Bytes} → 4 ≤ n → Same b a b' a' n → read_half a b ≡ read_half a' b'
unfolding read_half
Same-read_half le h = omega (
  arith,
  Same-first (omega arith) h,
  h.at 1 (omega arith),
  h.at 2 (omega arith),
  h.at 3 (omega arith),
)

pub Kept-trans : {a n : ℕ} {b₁ b₂ b₃ : Bytes} → Kept a n b₁ b₂ → Kept a n b₂ b₃ → Kept a n b₁ b₃
Kept-trans h g = record { outside = λ j out. g.outside j out ∙ h.outside j out }

pub Kept-Same : {a n c m : ℕ} {b b' : Bytes} → Kept a n b b' → Apart c m a n → Same b' c b c m
Kept-Same kept (inl before) = record { at = λ k lt. kept.outside _ (inl (omega arith)) }
Kept-Same kept (inr after) = record { at = λ k lt. kept.outside _ (inr (omega arith)) }

-- `memcpy` to a place inside of the stretch.
pub memcpy-Kept :
    (a n dst src m : ℕ) (b : Bytes) → a ≤ dst → dst + m ≤ a + n → Kept a n b (memcpy dst src m b)
unfolding memcpy
memcpy-Kept a n dst src m b lo hi = record { outside = λ j out. ground arith }

pub memcpy-Same : (dst src m : ℕ) (b : Bytes) → Same (memcpy dst src m b) dst b src m
unfolding memcpy
memcpy-Same dst src m b = record {
  at = λ k lt. let e : dst + k - dst ≡ k = omega arith in ground (arith, ap (λ i. b (src + i)) e);
}

pub write_word-Kept :
    (a n at value : ℕ) (b : Bytes) → a ≤ at → at + 8 ≤ a + n → Kept a n b (write_word at value b)
write_word-Kept a n at value b lo hi = record {
  outside = λ j out. write_word_outside at value j b (ground arith);
}
