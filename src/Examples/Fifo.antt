-- ===== src/Examples/Fifo.antt =====
-- A lock manager with a single queue for the whole database, the simplest one that keeps the contract of
-- a2/src/txn/lock_manager.h: the transaction at the front owns all of its locks, and the others wait.
use cmsc_624_spring.Common.{
  ℕ, ◌+◌, ◌-◌, ◌<◌, ◌≤◌, ◌≡◌, refl, sym, ap, subst, ◌∙◌, Bool, true, false, ◌&&◌, List, [], ◌∷◌,
  ◌++◌, ◌==◌, if◌then◌else◌, arith, times, times-append, times_cons, times_one, times_nil, length,
  has, has-append,
}
use native.Mathlib.Decide.{dec_lt}
use cmsc_624_spring.Txn.{Txn}
use cmsc_624_spring.LockManager.{
  LockManager, LockManagerClass, LockRequest, exclusive, unlocked, Granted, Released,
}
use cmsc_624_spring.Processor.Locking.{
  read_locks, write_locks, request_locks, release_keys, release_all,
}
use cmsc_624_spring.Processor.Locking.Ledger.{same_txn, times_self}
use cmsc_624_spring.Processor.Locking.Contract.{Contract}

abbrev entries : List ℕ → List LockRequest
entries [] = []
entries (txn ∷ q) = record { txn = txn; mode = exclusive } ∷ entries q

abbrev txns : List LockRequest → List ℕ
txns [] = []
txns (r ∷ rs) = r.txn ∷ txns rs

abbrev pub lm_of : List ℕ → LockManager
lm_of q = record { lock_table = (0, entries q) ∷ []; txn_waits = [] }

abbrev queue : LockManager → List ℕ
queue lm = elim lm.lock_table [ [] ↦ [] | e ∷ es ↦ txns e.1 ]

abbrev first : List ℕ → List ℕ
first [] = []
first (x ∷ q) = x ∷ []

abbrev behind : List ℕ → List ℕ
behind [] = []
behind (x ∷ q) = q

abbrev is_empty : List ℕ → Bool
is_empty [] = true
is_empty (x ∷ q) = false

abbrev is_first : ℕ → List ℕ → Bool
is_first txn [] = false
is_first txn (x ∷ q) = x == txn

abbrev take_place : List ℕ → List ℕ → ℕ → Granted
take_place q ready txn =
    if has txn q
    then record { granted = is_first txn q; lm = lm_of q; ready_txns = ready }
    else record { granted = is_empty q; lm = lm_of (q ++ txn ∷ []); ready_txns = ready }

abbrev leave_place : List ℕ → List ℕ → ℕ → Released
leave_place [] ready txn = record { lm = lm_of []; ready_txns = ready }
leave_place (x ∷ q) ready txn =
    if x == txn
    then record { lm = lm_of q; ready_txns = ready ++ first q }
    else record { lm = lm_of (x ∷ q); ready_txns = ready }

abbrev pub fifo : LockManagerClass
fifo = record {
  read_lock = λ lm ready txn key. take_place (queue lm) ready txn;
  write_lock = λ lm ready txn key. take_place (queue lm) ready txn;
  release = λ lm ready txn key. leave_place (queue lm) ready txn;
  status = λ lm key owners. (unlocked, owners);
}

txns-entries : (q : List ℕ) → txns (entries q) ≡ q
txns-entries [] = refl
txns-entries (x ∷ q) = ap (λ l. x ∷ l) (txns-entries q)

has-times : (txn : ℕ) (q : List ℕ) → times txn q ≡ 0 → has txn q ≡ false
unfolding has times
has-times txn [] h = refl
has-times txn (x ∷ q) h = ground (arith, has-times txn q)

has_self : (txn : ℕ) → has txn (txn ∷ []) ≡ true
unfolding has
has_self txn = ground arith

module _ (txn : ℕ) (q ready : List ℕ) (new : times txn q ≡ 0) where
  -- A transaction that has its place.
  abbrev placed : Granted
  placed = record { granted = is_empty q; lm = lm_of (q ++ txn ∷ []); ready_txns = ready }

  abbrev unplaced : Granted
  unplaced = record { granted = true; lm = lm_of q; ready_txns = ready }

  enters : take_place (queue unplaced.lm) ready txn ≡ placed
  enters = ap (λ l. take_place l ready txn) (txns-entries q) ∙ rw (has-times txn q new) refl

  stays : take_place (queue placed.lm) ready txn ≡ placed
  stays =
      ap (λ l. take_place l ready txn) (txns-entries (q ++ txn ∷ []))
      ∙ rw (has_new, first_new q new) refl
    where
      has_new : has txn (q ++ txn ∷ []) ≡ true
      has_new = has-append txn q (txn ∷ []) ∙ ground (arith, has_self txn)

      first_new : (l : List ℕ) → times txn l ≡ 0 → is_first txn (l ++ txn ∷ []) ≡ is_empty l
      first_new [] h = ground arith
      first_new (x ∷ l) h = ground (arith, times_cons txn x l, times_one txn x)

  both : (g : Bool) → record placed { granted = g && g } ≡ record placed { granted = g }
  both true = refl
  both false = refl

  and_true : (g : Bool) → record placed { granted = g && true } ≡ record placed { granted = g }
  and_true true = refl
  and_true false = refl

  read_stays : (keys : List ℕ) → read_locks fifo txn keys placed ≡ placed
  unfolding read_locks
  read_stays [] = refl
  read_stays (key ∷ keys) =
      ap (λ r. read_locks fifo txn keys (record r { granted = r.granted && is_empty q })) stays
      ∙ ap (read_locks fifo txn keys) (both (is_empty q))
      ∙ read_stays keys

  write_stays : (keys : List ℕ) → write_locks fifo txn keys placed ≡ placed
  unfolding write_locks
  write_stays [] = refl
  write_stays (key ∷ keys) =
      ap (λ r. write_locks fifo txn keys (record r { granted = r.granted && is_empty q })) stays
      ∙ ap (write_locks fifo txn keys) (both (is_empty q))
      ∙ write_stays keys

  read_enters : (key : ℕ) (keys : List ℕ) → read_locks fifo txn (key ∷ keys) unplaced ≡ placed
  unfolding read_locks
  read_enters key keys =
      ap (λ r. read_locks fifo txn keys (record r { granted = r.granted && true })) enters
      ∙ ap (read_locks fifo txn keys) (and_true (is_empty q))
      ∙ read_stays keys

  write_enters : (key : ℕ) (keys : List ℕ) → write_locks fifo txn (key ∷ keys) unplaced ≡ placed
  unfolding write_locks
  write_enters key keys =
      ap (λ r. write_locks fifo txn keys (record r { granted = r.granted && true })) enters
      ∙ ap (write_locks fifo txn keys) (and_true (is_empty q))
      ∙ write_stays keys

  request_placed :
      (t : Txn)
      → 0 < length t.readset + length t.writeset
      → request_locks fifo txn t (lm_of q) ready ≡ placed
  unfolding request_locks read_locks
  request_placed t some_key = at t.readset t.writeset some_key
    where
      at :
          (rs ws : List ℕ)
          → 0 < length rs + length ws
          → write_locks fifo txn ws (read_locks fifo txn rs unplaced) ≡ placed
      at [] [] h = absurd (omega arith)
      at [] (key ∷ keys) h = write_enters key keys
      at (key ∷ keys) ws h = ap (write_locks fifo txn ws) (read_enters key keys) ∙ write_stays ws

-- The release of the one at the front, `q` being behind it.
module _ (txn : ℕ) (q ready : List ℕ) (gone : times txn q ≡ 0) where
  abbrev left : Released
  left = record { lm = lm_of q; ready_txns = ready ++ first q }

  abbrev owned : Released
  owned = record { lm = lm_of (txn ∷ q); ready_txns = ready }

  leaves_place : leave_place (queue owned.lm) ready txn ≡ left
  leaves_place = rw (same_key txn, txns-entries q) refl
    where
      same_key : (k : ℕ) → (k == k) ≡ true
      same_key k = ground arith

  absent_place : leave_place (queue left.lm) left.ready_txns txn ≡ left
  absent_place = ap (λ l. leave_place l left.ready_txns txn) (txns-entries q) ∙ at q gone
    where
      at :
          (l : List ℕ)
          → times txn l ≡ 0
          → leave_place l (ready ++ first q) txn
            ≡ record { lm = lm_of l; ready_txns = ready ++ first q }
      at [] h = refl
      at (x ∷ l) h =
          let other : (x == txn) ≡ false = ground (arith, times_cons txn x l, times_one txn x) in
          rw other refl

  release_stays : (keys : List ℕ) → release_keys fifo txn keys left ≡ left
  unfolding release_keys
  release_stays [] = refl
  release_stays (key ∷ keys) = ap (release_keys fifo txn keys) absent_place ∙ release_stays keys

  release_leaves : (key : ℕ) (keys : List ℕ) → release_keys fifo txn (key ∷ keys) owned ≡ left
  unfolding release_keys
  release_leaves key keys = ap (release_keys fifo txn keys) leaves_place ∙ release_stays keys

  release_left :
      (t : Txn)
      → 0 < length t.readset + length t.writeset
      → release_all fifo txn t (lm_of (txn ∷ q)) ready ≡ left
  unfolding release_all release_keys
  release_left t some_key = at t.readset t.writeset some_key
    where
      at :
          (rs ws : List ℕ)
          → 0 < length rs + length ws
          → release_keys fifo txn ws (release_keys fifo txn rs owned) ≡ left
      at [] [] h = absurd (omega arith)
      at [] (key ∷ keys) h = release_leaves key keys
      at (key ∷ keys) ws h =
          ap (release_keys fifo txn ws) (release_leaves key keys) ∙ release_stays ws

-- The queue, with each transaction at most once: its front is the owner, and the rest wait.
pub record Holds (lm : LockManager) (act blk : ℕ → ℕ) : Type 0 where
  pub q : List ℕ
  pub is_queue : lm ≡ lm_of q
  pub once : (i : ℕ) → times i q ≤ 1
  pub owner : (i : ℕ) → act i ≡ times i (first q)
  pub waiting : (i : ℕ) → blk i ≡ times i (behind q)

first-behind : (i : ℕ) (q : List ℕ) → times i (first q) + times i (behind q) ≡ times i q
first-behind i [] = omega (arith, times_nil i)
first-behind i (x ∷ q) = omega (arith, times_cons i x q)

single : (i txn : ℕ) → times i (txn ∷ []) ≤ 1
single i txn = ground (arith, times_one i txn)

grown_once :
    (txn : ℕ) (q : List ℕ)
    → times txn q ≡ 0
    → ((i : ℕ) → times i q ≤ 1)
    → (i : ℕ) → times i (q ++ txn ∷ []) ≤ 1
grown_once txn q new once i = elim (dec_lt 0 (times i (txn ∷ []))) [
  | yes this ↦
      let e : times txn q ≡ times i q = ap (λ k. times k q) (same_txn txn i this) in
      omega (arith, e, times-append i q (txn ∷ []), single i txn)
  | no other ↦ omega (arith, times-append i q (txn ∷ []), once i)
]

new_place :
    (txn : ℕ) (q : List ℕ) (act blk : ℕ → ℕ)
    → times txn q ≡ 0
    → ((i : ℕ) → times i q ≤ 1)
    → ((i : ℕ) → act i ≡ times i (first q))
    → ((i : ℕ) → blk i ≡ times i (behind q))
    → Holds
        (lm_of (q ++ txn ∷ []))
        (λ i. act i + (if is_empty q then times i (txn ∷ []) else 0))
        (λ i. blk i + (if is_empty q then 0 else times i (txn ∷ [])))
new_place txn [] act blk new once owner waiting = record {
  q = txn ∷ [];
  is_queue = refl;
  once = grown_once txn [] new once;
  owner = λ i. omega (arith, owner i, times_nil i);
  waiting = λ i. omega (arith, waiting i, times_nil i);
}
new_place txn (x ∷ l) act blk new once owner waiting = record {
  q = x ∷ (l ++ txn ∷ []);
  is_queue = refl;
  once = grown_once txn (x ∷ l) new once;
  owner = λ i. omega (arith, owner i);
  waiting = λ i. omega (arith, waiting i, times-append i l (txn ∷ []));
}

module _ (heap : ℕ → Txn)
    (some_key : (i : ℕ) → 0 < length (heap i).readset + length (heap i).writeset) where
  requested_lem :
      (txn : ℕ) (lm : LockManager) (ready : List ℕ) (act blk : ℕ → ℕ)
      → Holds lm act blk
      → act txn ≡ 0
      → blk txn ≡ 0
      → let g = request_locks fifo txn (heap txn) lm ready in
        (g.ready_txns ≡ ready)
        × Holds g.lm
            (λ i. act i + (if g.granted then times i (txn ∷ []) else 0))
            (λ i. blk i + (if g.granted then 0 else times i (txn ∷ [])))
  requested_lem txn lm ready act blk h not_owner not_waiting =
      let new : times txn h.q ≡ 0 =
        omega (arith, first-behind txn h.q, h.owner txn, h.waiting txn, not_owner, not_waiting) in
      let e : request_locks fifo txn (heap txn) lm ready ≡ placed txn h.q ready new =
        ap (λ l. request_locks fifo txn (heap txn) l ready) h.is_queue
        ∙ request_placed txn h.q ready new (heap txn) (some_key txn) in
      subst
        (λ (g : Granted).
          (g.ready_txns ≡ ready)
          × Holds g.lm (λ i. act i + (if g.granted then times i (txn ∷ []) else 0))
              (λ i. blk i + (if g.granted then 0 else times i (txn ∷ []))))
        (sym e) (refl, new_place txn h.q act blk new h.once h.owner h.waiting)

  released_lem :
      (txn : ℕ) (lm : LockManager) (ready : List ℕ) (act blk : ℕ → ℕ) (q : List ℕ)
      → lm ≡ lm_of q
      → ((i : ℕ) → times i q ≤ 1)
      → ((i : ℕ) → act i ≡ times i (first q))
      → ((i : ℕ) → blk i ≡ times i (behind q))
      → act txn ≡ 1
      → let r = release_all fifo txn (heap txn) lm ready in
        (woken : List ℕ) × (r.ready_txns ≡ ready ++ woken)
        × ((i : ℕ) → times i woken ≤ blk i)
        × Holds r.lm (λ i. act i + times i woken - times i (txn ∷ [])) (λ i. blk i - times i woken)
  released_lem txn lm ready act blk [] is_queue once owner waiting one =
      absurd (omega (arith, one, owner txn, times_nil txn))
  released_lem txn lm ready act blk (x ∷ l) is_queue once owner waiting one =
      let this : x ≡ txn = same_txn x txn (omega (arith, one, owner txn)) in
      let gone : times txn l ≡ 0 = omega (arith, once txn, times_cons txn x l, one, owner txn) in
      let e : release_all fifo txn (heap txn) lm ready ≡ left txn l ready gone =
        ap (λ m. release_all fifo txn (heap txn) m ready) (is_queue ∙ ap (λ k. lm_of (k ∷ l)) this)
        ∙ release_left txn l ready gone (heap txn) (some_key txn) in
      let same : (i : ℕ) → times i (x ∷ []) ≡ times i (txn ∷ []) =
        λ i. ap (λ k. times i (k ∷ [])) this in
      (
        first l,
        ap (λ r. r.ready_txns) e,
        λ i. omega (arith, first-behind i l, waiting i),
        subst
            (λ m.
              Holds m (λ i. act i + times i (first l) - times i (txn ∷ []))
                (λ i. blk i - times i (first l)))
            (sym (ap (λ r. r.lm) e))
            (record {
              q = l;
              is_queue = refl;
              once = λ i. omega (arith, once i, times_cons i x l);
              owner = λ i. omega (arith, owner i, same i);
              waiting = λ i. omega (arith, waiting i, first-behind i l);
            }),
      )

  one_owner : (q : List ℕ) (a b : ℕ) → 0 < times a (first q) → 0 < times b (first q) → a ≡ b
  one_owner [] a b ha hb = absurd (omega (arith, times_nil a))
  one_owner (x ∷ q) a b ha hb = sym (same_txn x a ha) ∙ same_txn x b hb

  none_waits : (q : List ℕ) → ((i : ℕ) → times i (first q) ≡ 0) → (i : ℕ) → times i (behind q) ≡ 0
  none_waits [] idle i = times_nil i
  none_waits (x ∷ q) idle i = absurd (omega (arith, idle x, times_self x))

  pub fifo-Contract : Contract fifo heap Holds
  fifo-Contract = record {
    requested = requested_lem;
    released = λ txn lm ready act blk h one.
        released_lem txn lm ready act blk h.q h.is_queue h.once h.owner h.waiting one;
    compatible = λ lm act blk h a b ne ha hb.
        absurd
          (ne (one_owner h.q a b (omega (arith, ha, h.owner a)) (omega (arith, hb, h.owner b))));
    awake = λ lm act blk h idle i.
        h.waiting i ∙ none_waits h.q (λ j. omega (arith, h.owner j, idle j)) i;
  }
