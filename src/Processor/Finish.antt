-- ===== src/Processor/Finish.antt =====
-- The commit-or-abort lines of the schedulers, on a transaction that has voted.
use cmsc_624_spring.Common.{
  ℕ, ◌≡◌, refl, sym, ap, subst, Bool, true, false, [], ◌∷◌, ◌++◌, ok, ◌==◌, if◌then◌else◌, arith,
  find, or_else, IsSorted,
}
use cmsc_624_spring.Txn.{TxnStatus, incomplete, completed_c, completed_a, committed, aborted}
use cmsc_624_spring.Txn.Spec.{Db}
use cmsc_624_spring.Storage.{single}
use cmsc_624_spring.Storage.Single.{Storage}
use cmsc_624_spring.Processor.{Processor, update, write_all, commit_txn, abort_txn, finish}
use cmsc_624_spring.Processor.Execute.{records, write_all_lem}
use cmsc_624_spring.Atomic.Vector

pub update_self {ℓ} : {A : Type ℓ} (f : ℕ → A) (a : ℕ) (x : A) → update f a x a ≡ x
update_self f a x = ground arith

pub update_other {ℓ} :
    {A : Type ℓ} (f : ℕ → A) (a b : ℕ) (x : A) → (a == b) ≡ false → update f a x b ≡ f b
update_other f a b x h = rw h

-- What the lines leave: the new database, the final status, the commit log, and the rest as it was.
pub record Finished (p : Processor) (txn : ℕ) (commits : Bool) (db : Db) (p' : Processor)
    : Type 0 where
  pub storage : (s' : Storage) × (p'.storage ≡ single s') × ((j : ℕ) → records s' j ≡ db j)
  pub status : (p'.heap txn).status ≡ (if commits then committed else aborted)
  pub sets :
      ((p'.heap txn).readset ≡ (p.heap txn).readset)
      × ((p'.heap txn).writeset ≡ (p.heap txn).writeset)
  pub others : (b : ℕ) → (txn == b) ≡ false → p'.heap b ≡ p.heap b
  pub log :
      p'.committed_txns.elements
      ≡ (if commits then p.committed_txns.elements ++ txn ∷ [] else p.committed_txns.elements)
  pub requests : p'.txn_requests ≡ p.txn_requests
  pub results : p'.txn_results ≡ p.txn_results
  pub completed : p'.completed_txns ≡ p.completed_txns

module _ (clock : ℕ → ℕ) (txn : ℕ) (p : Processor) (s : Storage) (e : p.storage ≡ single s) where
  pub finish_commit :
      (p.heap txn).status ≡ completed_c
      → IsSorted (p.heap txn).writes
      → (p' : Processor) × (finish clock txn p ≡ ok p')
        × Finished p txn true (λ j. or_else (find j (p.heap txn).writes) (records s j)) p'
  unfolding finish commit_txn Vector.push
  finish_commit voted sorted =
      let (s', stored, r) =
        write_all_lem clock (p.heap txn).writes (p.heap txn).unique_id s sorted in
      (
        commit_txn clock txn p,
        rw voted refl,
        record {
          storage = (
            s',
            subst (λ st. write_all clock (p.heap txn).writes (p.heap txn).unique_id st ≡ single s')
                (sym e) stored,
            r,
          );
          status =
              ap (λ t. t.status)
                (update_self p.heap txn (record (p.heap txn) { status = committed }));
          sets = (
            ap (λ t. t.readset)
                (update_self p.heap txn (record (p.heap txn) { status = committed })),
            ap (λ t. t.writeset)
                (update_self p.heap txn (record (p.heap txn) { status = committed })),
          );
          others = λ b h. update_other p.heap txn b (record (p.heap txn) { status = committed }) h;
          log = refl;
          requests = refl;
          results = refl;
          completed = refl;
        },
      )

  pub finish_abort :
      (p.heap txn).status ≡ completed_a
      → (p' : Processor) × (finish clock txn p ≡ ok p') × Finished p txn false (records s) p'
  unfolding finish abort_txn
  finish_abort voted = (
    abort_txn txn p,
    rw voted refl,
    record {
      storage = (s, e, λ j. refl);
      status =
          ap (λ t. t.status) (update_self p.heap txn (record (p.heap txn) { status = aborted }));
      sets = (
        ap (λ t. t.readset) (update_self p.heap txn (record (p.heap txn) { status = aborted })),
        ap (λ t. t.writeset) (update_self p.heap txn (record (p.heap txn) { status = aborted })),
      );
      others = λ b h. update_other p.heap txn b (record (p.heap txn) { status = aborted }) h;
      log = refl;
      requests = refl;
      results = refl;
      completed = refl;
    },
  )

-- The lines leave the queues and the lock manager alone, whatever the storage.
pub finish_inv :
    (clock : ℕ → ℕ) (txn : ℕ) (p q : Processor)
    → finish clock txn p ≡ ok q
    → (q.txn_requests ≡ p.txn_requests)
      × (q.ready_txns ≡ p.ready_txns)
      × (q.completed_txns ≡ p.completed_txns)
      × (q.txn_results ≡ p.txn_results)
      × (q.lm ≡ p.lm)
unfolding finish commit_txn abort_txn
finish_inv clock txn p q e = by_status (p.heap txn).status refl
  where
    Same : Type 0
    Same =
        (q.txn_requests ≡ p.txn_requests)
        × (q.ready_txns ≡ p.ready_txns)
        × (q.completed_txns ≡ p.completed_txns)
        × (q.txn_results ≡ p.txn_results)
        × (q.lm ≡ p.lm)

    by_status : (st : TxnStatus) → (p.heap txn).status ≡ st → Same
    by_status completed_c h = ground arith
    by_status completed_a h = ground arith
    by_status incomplete h = ground arith
    by_status committed h = ground arith
    by_status aborted h = ground arith
