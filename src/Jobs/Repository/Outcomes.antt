-- ===== src/Jobs/Repository/Outcomes.antt =====
-- What each method of internal/jobs/repository.go returns and leaves in the database, by what the
-- table holds and whichever calls of the database fail.

use qtest.Prelude.{
  ◌≡◌, ◌⊎◌, String, Bool, true, false, Option, none, some, List, ◌∷◌, ◌&&◌, ◌==◌, arith,
}
use qtest.Prelude.Int.{◌+ℤ◌}
use qtest.Jobs.Types.{
  Uuid, Time, Duration, Json, Job, pending, running, completed, retrying, cancelled,
}
use qtest.Jobs.Store.{
  Db, HistoryRow, World, Result, err, ok, touch, update_where, first_match, has_id, find,
  count_where,
}
use qtest.Jobs.Repository.{
  claim, complete, fail, retry, cancel, claimable, claimed_row, completed_row, status_after_failure,
  failed_row, retryable, requeued_row, cancellable, cancelled_row, changed_by_or_system,
}

abbrev pub is_ok {ℓ} : {A : Type ℓ} → Result A → Bool
is_ok (ok _) = true
is_ok (err _) = false

-- A transaction on the table: it is refused and leaves no trace, or its rows are stored, with or
-- without the row of history.
abbrev pub Transacts {ℓ} :
    {A : Type ℓ} → Result A × World → Result A → Db → List Job → HistoryRow → Type ℓ
Transacts r answer db rows row =
    ((is_ok r.0 ≡ false) × (r.1.committed ≡ db))
    ⊎ ((r.0 ≡ answer) × (r.1.committed ≡ record db { jobs = rows }))
    ⊎ ((r.0 ≡ answer) × (r.1.committed ≡ record db { jobs = rows; history = row ∷ db.history }))

module _ (hid k : Uuid) (now : Time) (w : World) where
  module _ (worker : String) (lock : Duration) where
    pub claim_found :
        (job : Job)
        → first_match (λ r. has_id k r && claimable now r) w.committed.jobs ≡ some job
        → Transacts
            (claim hid k worker lock now w)
            (ok (some (touch w.clock (claimed_row worker (now +ℤ lock) now job))))
            w.committed
            (update_where w.clock
              (λ r. has_id k r && claimable now r)
              (claimed_row worker (now +ℤ lock) now)
              w.committed.jobs)
            (record {
              id = hid;
              job_id = job.id;
              previous_status = pending;
              new_status = running;
              changed_by = worker;
            })
    unfolding claim
    claim_found job e = ground arith

    pub claim_missed :
        first_match (λ r. has_id k r && claimable now r) w.committed.jobs ≡ none
        → ((is_ok (claim hid k worker lock now w).0 ≡ false)
            ⊎ ((claim hid k worker lock now w).0 ≡ ok none))
          × ((claim hid k worker lock now w).1.committed ≡ w.committed)
    unfolding claim
    claim_missed e = ground arith

  pub complete_found :
      (bytes : Json) (job : Job)
      → find k w.committed.jobs ≡ some job
      → Transacts
          (complete hid k (some bytes) now w)
          (ok tt)
          w.committed
          (update_where w.clock (has_id k) (completed_row bytes now) w.committed.jobs)
          (record {
            id = hid;
            job_id = k;
            previous_status = running;
            new_status = completed;
            changed_by = changed_by_or_system job.worker_id;
          })
  unfolding complete find
  complete_found bytes job e = ground arith

  pub complete_missed :
      (bytes : Option Json)
      → find k w.committed.jobs ≡ none
      → (is_ok (complete hid k bytes now w).0 ≡ false)
        × ((complete hid k bytes now w).1.committed ≡ w.committed)
  unfolding complete find
  complete_missed none e = ground arith
  complete_missed (some bytes) e = ground arith

  module _ (message : String) (details : Option Json) where
    pub fail_found :
        (job : Job)
        → find k w.committed.jobs ≡ some job
        → Transacts
            (fail hid k message details now w)
            (ok tt)
            w.committed
            (update_where w.clock
              (has_id k)
              (failed_row (status_after_failure job) message details now)
              w.committed.jobs)
            (record {
              id = hid;
              job_id = k;
              previous_status = running;
              new_status = status_after_failure job;
              changed_by = changed_by_or_system job.worker_id;
            })
    unfolding fail
    fail_found job e = ground arith

    pub fail_missed :
        find k w.committed.jobs ≡ none
        → (is_ok (fail hid k message details now w).0 ≡ false)
          × ((fail hid k message details now w).1.committed ≡ w.committed)
    unfolding fail
    fail_missed e = ground arith

  pub retry_found :
      (count_where (λ r. has_id k r && retryable r) w.committed.jobs == 0) ≡ false
      → Transacts
          (retry hid k now w)
          (ok tt)
          w.committed
          (update_where w.clock
            (λ r. has_id k r && retryable r)
            (requeued_row now)
            w.committed.jobs)
          (record {
            id = hid;
            job_id = k;
            previous_status = retrying;
            new_status = pending;
            changed_by = "system";
          })
  unfolding retry
  retry_found e = ground arith

  pub retry_missed :
      (count_where (λ r. has_id k r && retryable r) w.committed.jobs == 0) ≡ true
      → (is_ok (retry hid k now w).0 ≡ false) × ((retry hid k now w).1.committed ≡ w.committed)
  unfolding retry
  retry_missed e = ground arith

  pub cancel_found :
      (job : Job)
      → find k w.committed.jobs ≡ some job
      → cancellable job ≡ true
      → Transacts
          (cancel hid k now w)
          (ok tt)
          w.committed
          (update_where w.clock (has_id k) (cancelled_row now) w.committed.jobs)
          (record {
            id = hid;
            job_id = k;
            previous_status = job.status;
            new_status = cancelled;
            changed_by = "api";
          })
  unfolding cancel
  cancel_found job e c = ground arith

  pub cancel_refused :
      (job : Job)
      → find k w.committed.jobs ≡ some job
      → cancellable job ≡ false
      → (is_ok (cancel hid k now w).0 ≡ false) × ((cancel hid k now w).1.committed ≡ w.committed)
  unfolding cancel
  cancel_refused job e c = ground arith

  pub cancel_missed :
      find k w.committed.jobs ≡ none
      → (is_ok (cancel hid k now w).0 ≡ false) × ((cancel hid k now w).1.committed ≡ w.committed)
  unfolding cancel
  cancel_missed e = ground arith
