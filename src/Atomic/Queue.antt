-- ===== src/Atomic/Queue.antt =====
-- a2/src/utils/atomic.h, class AtomicQueue. The head of the list is the front of the queue.
use mathlib.Core.List.{append_assoc, append-nil}
use cmsc_624_spring.Common.{
  ℕ, ◌≡◌, refl, ap, Bool, true, false, Option, none, some, List, [], ◌∷◌, ◌++◌, length,
}

pub record AtomicQueue {ℓ} (A : Type ℓ) : Type ℓ where
  pub items : List A

module _ {ℓ} {A : Type ℓ} where
  abbrev pub empty : AtomicQueue A
  empty = record { items = [] }

  pub size : AtomicQueue A → ℕ
  size q = length q.items

  unfoldable pub push : AtomicQueue A → A → AtomicQueue A
  push q item = record { items = q.items ++ item ∷ [] }

  unfoldable pub take_front : List A → Option A × AtomicQueue A
  take_front [] = (none, empty)
  take_front (front ∷ rest) = (some front, record { items = rest })

  -- `none` is a return of false, which leaves `*result` alone.
  unfoldable pub pop : AtomicQueue A → Option A × AtomicQueue A
  unfolding take_front
  pop q = take_front q.items

  pub pop_front :
      (q : AtomicQueue A) (a : A) (rest : List A)
      → q.items ≡ a ∷ rest
      → pop q ≡ (some a, record { items = rest })
  unfolding pop
  pop_front q a rest e = ap take_front e

  pub pop_empty : (q : AtomicQueue A) → q.items ≡ [] → pop q ≡ (none, empty)
  unfolding pop
  pop_empty q e = ap take_front e

  pub pop_inv : (q rest : AtomicQueue A) (a : A) → pop q ≡ (some a, rest) → q.items ≡ a ∷ rest.items
  unfolding pop take_front
  pop_inv q rest a e = front q.items e
    where
      front : (l : List A) → take_front l ≡ (some a, rest) → l ≡ a ∷ rest.items
      front [] h = absurd cc
      front (x ∷ l) h = cc

  -- `free`: whether `TryLock` succeeds
  unfoldable pub push_non_blocking : Bool → AtomicQueue A → A → Bool × AtomicQueue A
  push_non_blocking true q item = (true, push q item)
  push_non_blocking false q item = (false, q)

  unfoldable pub pop_non_blocking : Bool → AtomicQueue A → Option A × AtomicQueue A
  pop_non_blocking true q = pop q
  pop_non_blocking false q = (none, q)

-- The calls that threads make, in the order in which they hold the lock.
pub data Call {ℓ} (A : Type ℓ) : Type ℓ where
  pushes : A → Call A
  pops : Call A
  tries_push : Bool → A → Call A
  tries_pop : Bool → Call A

pub record History {ℓ} (A : Type ℓ) : Type ℓ where
  pub queue : AtomicQueue A
  pub pushed : List A  -- items of the pushes that returned
  pub popped : List A  -- results of the pops that returned true

module _ {ℓ} {A : Type ℓ} where
  abbrev note : Option A → List A
  note none = []
  note (some a) = a ∷ []

  abbrev note_push : Bool → A → List A
  note_push true a = a ∷ []
  note_push false a = []

  unfoldable pub perform : Call A → History A → History A
  perform (pushes a) h = record h { queue = push h.queue a; pushed = h.pushed ++ a ∷ [] }
  perform pops h = let r = pop h.queue in record h { queue = r.1; popped = h.popped ++ note r.0 }
  perform (tries_push free a) h =
      let r = push_non_blocking free h.queue a in
      record h { queue = r.1; pushed = h.pushed ++ note_push r.0 a }
  perform (tries_pop free) h =
      let r = pop_non_blocking free h.queue in
      record h { queue = r.1; popped = h.popped ++ note r.0 }

  unfoldable pub performs : List (Call A) → History A → History A
  performs [] h = h
  performs (c ∷ cs) h = performs cs (perform c h)

  -- What was pushed is what was popped, then what is still inside, in that order.
  abbrev pub IsFifo : History A → Type ℓ
  IsFifo h = h.popped ++ h.queue.items ≡ h.pushed

  push_Fifo :
      (q popped pushed : List A) (a : A)
      → popped ++ q ≡ pushed
      → popped ++ (q ++ a ∷ []) ≡ pushed ++ a ∷ []
  push_Fifo q popped pushed a e = rw (← e) (rw append_assoc refl)

  pop_Fifo :
      (q popped pushed : List A)
      → popped ++ q ≡ pushed
      → (popped ++ note (take_front q).0) ++ (take_front q).1.items ≡ pushed
  unfolding take_front
  pop_Fifo [] popped pushed e = rw append_assoc e
  pop_Fifo (x ∷ q) popped pushed e = rw append_assoc e

  perform-IsFifo : (c : Call A) (h : History A) → IsFifo h → IsFifo (perform c h)
  unfolding perform push pop push_non_blocking pop_non_blocking
  perform-IsFifo (pushes a) h e = push_Fifo h.queue.items h.popped h.pushed a e
  perform-IsFifo pops h e = pop_Fifo h.queue.items h.popped h.pushed e
  perform-IsFifo (tries_push true a) h e = push_Fifo h.queue.items h.popped h.pushed a e
  perform-IsFifo (tries_push false a) h e = rw append-nil e
  perform-IsFifo (tries_pop true) h e = pop_Fifo h.queue.items h.popped h.pushed e
  perform-IsFifo (tries_pop false) h e = rw append-nil e

  -- First in, first out: whatever calls threads make, in whatever order they get the lock and
  -- whichever tries find it taken, the items popped and then the items left are exactly the items
  -- of the successful pushes, in the order of the pushes. None is lost, repeated or overtaken.
  pub performs-IsFifo : (cs : List (Call A)) (h : History A) → IsFifo h → IsFifo (performs cs h)
  unfolding performs
  performs-IsFifo [] h e = e
  performs-IsFifo (c ∷ cs) h e = performs-IsFifo cs (perform c h) (perform-IsFifo c h e)
