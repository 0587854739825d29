-- ===== src/Processor/Locking/Stages.antt =====
-- What a transaction object holds while its executor reads the records, and once it has voted.
use cmsc_624_spring.Common.{
  ℕ, ◌≡◌, ◌⊎◌, inl, inr, refl, sym, ap, subst, ◌∙◌, true, false, ◌||◌, Option, none, some, List, [],
  ◌∷◌, ◌++◌, ok, ◌==◌, if◌then◌else◌, arith, find, find_nil, has, has-append, or_else, or_else-none,
  IsSorted, Bool-cases,
}
use cmsc_624_spring.Txn.{Txn, incomplete, completed_c, completed_a}
use cmsc_624_spring.Txn.Types
use cmsc_624_spring.Txn.Spec.{Db, decide_logic, decide, written, HasSets, IsFresh}
use cmsc_624_spring.Txn.Runs.{run_lem}
use cmsc_624_spring.Storage.Single
use cmsc_624_spring.Processor.{keep_found}
use cmsc_624_spring.Processor.Execute.{find-keep_found}
use cmsc_624_spring.Processor.Locking.Local.{in_sets, SameFor, decide-same, written-same}

-- `t` is the object now, `t₀` as it was requested; `unread` are the keys that are still to be read.
pub record Reading (db : Db) (t t₀ : Txn) (unread : List ℕ) : Type 0 where
  pub logic : t.logic ≡ t₀.logic
  pub readset : t.readset ≡ t₀.readset
  pub writeset : t.writeset ≡ t₀.writeset
  pub status : t.status ≡ incomplete
  pub writes : t.writes ≡ []
  pub done : (j : ℕ) → in_sets t₀ j ≡ true → has j unread ≡ false → find j t.reads ≡ db j
  pub before : (j : ℕ) → in_sets t₀ j ≡ true → (find j t.reads ≡ none) ⊎ (find j t.reads ≡ db j)

pub record Voted (db : Db) (t t₀ : Txn) : Type 0 where
  pub logic : t.logic ≡ t₀.logic
  pub readset : t.readset ≡ t₀.readset
  pub writeset : t.writeset ≡ t₀.writeset
  pub status : t.status ≡ (if decide t₀ db then completed_c else completed_a)
  pub writes : (j : ℕ) → find j t.writes ≡ written t₀.logic t₀.writeset db j
  pub sorted : IsSorted t.writes

-- Both outlive a change of the database elsewhere.
pub Reading-same :
    {db db' : Db} {t t₀ : Txn} {unread : List ℕ}
    → SameFor t₀ db db'
    → Reading db t t₀ unread
    → Reading db' t t₀ unread
Reading-same h r = record {
  logic = r.logic;
  readset = r.readset;
  writeset = r.writeset;
  status = r.status;
  writes = r.writes;
  done = λ j e read. r.done j e read ∙ h j e;
  before = λ j e. elim (r.before j e) [ inl out ↦ inl out | inr read ↦ inr (read ∙ h j e) ];
}

pub Voted-same :
    {db db' : Db} {t t₀ : Txn}
    → HasSets t₀.logic t₀.readset t₀.writeset
    → SameFor t₀ db db'
    → Voted db t t₀
    → Voted db' t t₀
Voted-same {db} {db'} {t} {t₀} sets h v = record {
  logic = v.logic;
  readset = v.readset;
  writeset = v.writeset;
  status =
      v.status ∙ ap (λ b. if b then completed_c else completed_a) (decide-same t₀ db db' sets h);
  writes = λ j. v.writes j ∙ written-same t₀ db db' j h;
  sorted = v.sorted;
}

-- When ExecuteTxn begins, with the start index set.
pub Reading-begin :
    (db : Db) (t₀ : Txn) (start : ℕ)
    → IsFresh t₀
    → Reading db (record t₀ { occ_start_idx = start }) t₀ (t₀.readset ++ t₀.writeset)
Reading-begin db t₀ start fresh = record {
  logic = refl;
  readset = refl;
  writeset = refl;
  status = fresh.status;
  writes = fresh.writes;
  done = λ j e unread. absurd (ground (arith, has-append j t₀.readset t₀.writeset));
  before = λ j e. inl (ap (find j) fresh.reads ∙ find_nil {V = ℕ} j);
}

has_nil : (j : ℕ) → has j [] ≡ false
unfolding has
has_nil j = refl

or_else_self : (o : Option ℕ) → or_else o o ≡ o
or_else_self none = refl
or_else_self (some v) = refl

-- One more key is read.
pub Reading-read :
    (db : Db) (t t₀ : Txn) (key : ℕ) (keys : List ℕ) (uninit : ℕ)
    → Reading db t t₀ (key ∷ keys)
    → Reading db
        (record t { reads = keep_found (Single.found (db key) uninit) key t.reads })
        t₀
        keys
unfolding has
Reading-read db t t₀ key keys uninit r = record {
  logic = r.logic;
  readset = r.readset;
  writeset = r.writeset;
  status = r.status;
  writes = r.writes;
  done = λ j e read. elim (Bool-cases (key == j)) [
    | inl here ↦ here_now j here (r.before j e)
    | inr other ↦ elsewhere j other ∙ r.done j e (ground arith)
  ];
  before = λ j e. elim (Bool-cases (key == j)) [
    | inl here ↦ inr (here_now j here (r.before j e))
    | inr other ↦ elim (r.before j e) [
      | inl out ↦ inl (elsewhere j other ∙ out)
      | inr read ↦ inr (elsewhere j other ∙ read)
    ]
  ];
}
  where
    elsewhere :
        (j : ℕ)
        → (key == j) ≡ false
        → find j (keep_found (Single.found (db key) uninit) key t.reads) ≡ find j t.reads
    elsewhere j other = find-keep_found (db key) uninit key t.reads j ∙ rw other refl

    here_now :
        (j : ℕ)
        → (key == j) ≡ true
        → (find j t.reads ≡ none) ⊎ (find j t.reads ≡ db j)
        → find j (keep_found (Single.found (db key) uninit) key t.reads) ≡ db j
    here_now j here old =
        let same : db key ≡ db j = ap db (ground arith) in
        find-keep_found (db key) uninit key t.reads j
        ∙ rw here (elim old [
          | inl out ↦ ap (or_else (db key)) out ∙ or_else-none (db key) ∙ same
          | inr read ↦
              ap (λ o. or_else o (find j t.reads)) same
              ∙ ap (or_else (db j)) read
              ∙ or_else_self (db j)
        ])

-- With all keys read, the logic runs without `DIE` and leaves a vote.
pub Reading-run :
    (db : Db) (t t₀ : Txn)
    → HasSets t₀.logic t₀.readset t₀.writeset
    → Reading db t t₀ []
    → (t' : Txn) × (Types.run t ≡ ok t') × Voted db t' t₀
Reading-run db t t₀ sets r =
    let own : HasSets t.logic t.readset t.writeset =
      subst (λ l. HasSets l t.readset t.writeset) (sym r.logic)
        (subst (λ s. HasSets t₀.logic s t.writeset) (sym r.readset)
          (subst (HasSets t₀.logic t₀.readset) (sym r.writeset) sets)) in
    let (t', ran, ends) = run_lem t db r.status (subst IsSorted (sym r.writes) tt) own (λ j e.
      r.done j
        (ap (λ s. has j s || has j t₀.writeset) (sym r.readset)
          ∙ ap (λ s. has j t.readset || has j s) (sym r.writeset)
          ∙ e)
        (has_nil j)) in
    (
      t',
      ran,
      record {
        logic = ends.logic ∙ r.logic;
        readset = ends.readset ∙ r.readset;
        writeset = ends.writeset ∙ r.writeset;
        status =
            ends.status ∙ ap (λ l. if decide_logic l db then completed_c else completed_a) r.logic;
        writes = λ j.
            ends.writes j
            ∙ ap (λ w. or_else (written t.logic t.writeset db j) (find j w)) r.writes
            ∙ ap (or_else (written t.logic t.writeset db j)) (find_nil {V = ℕ} j)
            ∙ or_else-none (written t.logic t.writeset db j)
            ∙ ap (λ l. written l t.writeset db j) r.logic
            ∙ ap (λ s. written t₀.logic s db j) r.writeset;
        sorted = ends.sorted;
      },
    )
