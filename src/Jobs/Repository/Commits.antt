-- ===== src/Jobs/Repository/Commits.antt =====
-- What each method of internal/jobs/repository.go returns and leaves in the database when no call of
-- the database fails: the new row is written out in each statement.
pub mod Replaced
use mathlib.Core.Option
use qtest.Prelude.{
  ◌==◌, ==_iff, ℕ, ◌+◌, ◌<◌, ◌≤◌, ◌≡◌, ◌≢◌, refl, ◌⊎◌, inl, inr, String, true, false, Option, none,
  some, List, ◌∷◌, ◌&&◌, arith, Bool-cases,
}
use qtest.Prelude.Int.{◌+ℤ◌, ltb_ℤ}
use qtest.Jobs.Types.{
  Uuid, Time, Duration, Json, Job, JobStatus, pending, running, completed, retrying, failed,
  cancelled,
}
use qtest.Jobs.Store.{
  Db, HistoryRow, World, err, ok, touch, update_where, has_id, find, count_where, not_cancellable,
  not_retrying,
}
use qtest.Jobs.Repository.{
  claim, complete, fail, retry, cancel, claimable, claimed_row, completed_row, failed_row,
  status_after_failure, retryable, requeued_row, cancellable, cancelled_row,
}
use qtest.Jobs.Repository.Steps.{Distinct}
use qtest.Jobs.Repository.Commits.Replaced.{
  replaced, update_where-replaced, first_match-found, count_where-found, found-id,
}

-- The tables with another row at the id, and one more row of history.
abbrev pub Stores : Db → Db → Uuid → Job → HistoryRow → Type 0
Stores db db' k row entry =
    db' ≡ record db { jobs = replaced k row db.jobs; history = entry ∷ db.history }

-- The job waits, or it runs under a lock that ended before now.
abbrev pub IsFree : Time → Job → Type 0
IsFree now job =
    (job.status ≡ pending)
    ⊎ ((job.status ≡ running)
        × (until : Time) × (job.locked_until ≡ some until)
        × (ltb_ℤ until now ≡ true))

module _ (hid k : Uuid) (now : Time) (w : World) (calm : (n : ℕ) → w.fault n ≡ false) (job : Job)
    (distinct : Distinct w.committed.jobs) (stored : find k w.committed.jobs ≡ some job) where
  -- When no call of the database fails, a claim of the one job with an id, if the job waits or runs
  -- under a lock that has expired, returns the job as it is stored then: running, with the worker,
  -- started now and locked for the duration from now on, and otherwise as it was. The history has
  -- one row more, which says that the job was pending.
  pub claim_commits :
      (worker : String) (lock : Duration)
      → IsFree now job
      → let (answer, w') = claim hid k worker lock now w in
        let held : Job = record job {
          status = running;
          worker_id = some worker;
          locked_until = some (now +ℤ lock);
          started_at = some now;
          updated_at = w.clock;
        } in
        (answer ≡ ok (some held))
        × Stores w.committed w'.committed k held (record {
          id = hid;
          job_id = k;
          previous_status = pending;
          new_status = running;
          changed_by = worker;
        })
  unfolding claim
  claim_commits worker lock free =
      let able : claimable now job ≡ true = ground (arith, free) in
      let own : (r : Job) → has_id k r ≡ false → (has_id k r && claimable now r) ≡ false =
        λ r h. rw h refl in
      let here : has_id k job ≡ true =
        (==_iff job.id k).1 (found-id k w.committed.jobs job stored) in
      let both : (has_id k job && claimable now job) ≡ true = rw (here, able) refl in
      ground (
        arith,
        found-id k w.committed.jobs job stored,
        first_match-found k (λ r. has_id k r && claimable now r) own w.committed.jobs job stored
            both,
        update_where-replaced k (λ r. has_id k r && claimable now r) own w.clock
            (claimed_row worker (now +ℤ lock) now) w.committed.jobs job distinct stored both,
        calm w.calls,
        calm (w.calls + 1),
        calm (w.calls + 1 + 1),
        calm (w.calls + 1 + 1 + 1),
      )

  own_row :
      (f : Job → Job)
      → update_where w.clock (has_id k) f w.committed.jobs
        ≡ replaced k (touch w.clock (f job)) w.committed.jobs
  own_row f =
      update_where-replaced k (has_id k) (λ r h. h) w.clock f w.committed.jobs job distinct stored
        ((==_iff job.id k).1 (found-id k w.committed.jobs job stored))

  -- When no call of the database fails, `Complete` marks the one job with an id completed, whatever
  -- its status is, with the result, the time and no lock, and otherwise leaves it as it was; the
  -- history has one row more, which says that the job was running, and names its worker.
  pub complete_commits :
      (bytes : Json)
      → let (answer, w') = complete hid k (some bytes) now w in
        (answer ≡ ok tt)
        × Stores w.committed w'.committed k
            (record job {
              status = completed;
              result = some bytes;
              completed_at = some now;
              locked_until = none;
              updated_at = w.clock;
            })
            (record {
              id = hid;
              job_id = k;
              previous_status = running;
              new_status = completed;
              changed_by = Option.get_or job.worker_id "system";
            })
  unfolding complete find
  complete_commits bytes = ground (
    arith,
    own_row (completed_row bytes now),
    calm w.calls,
    calm (w.calls + 1),
    calm (w.calls + 1 + 1),
    calm (w.calls + 1 + 1 + 1),
  )

  fail-Stores :
      (message : String) (details : Option Json)
      → let (answer, w') = fail hid k message details now w in
        (answer ≡ ok tt)
        × Stores w.committed w'.committed k
            (touch w.clock (failed_row (status_after_failure job) message details now job))
            (record {
              id = hid;
              job_id = k;
              previous_status = running;
              new_status = status_after_failure job;
              changed_by = Option.get_or job.worker_id "system";
            })
  unfolding fail
  fail-Stores message details = ground (
    arith,
    own_row (failed_row (status_after_failure job) message details now),
    calm w.calls,
    calm (w.calls + 1),
    calm (w.calls + 1 + 1),
    calm (w.calls + 1 + 1 + 1),
    calm (w.calls + 1 + 1 + 1 + 1),
  )

  -- When no call of the database fails, `Fail` counts the failure of the one job with an id, whatever
  -- its status is: the job waits for a retry if it had failed fewer times than it may, and is failed
  -- for good if not; the lock is dropped, the message and the details are kept, and the rest of the
  -- job is as it was. The history has one row more, which says that the job was running, and names
  -- its worker.
  pub fail_commits :
      (message : String) (details : Option Json)
      → let (answer, w') = fail hid k message details now w in
        (answer ≡ ok tt)
        × (new : JobStatus) × (((job.retry_count < job.max_retries) × (new ≡ retrying))
            ⊎ ((job.max_retries ≤ job.retry_count) × (new ≡ failed)))
        × Stores w.committed w'.committed k
            (record job {
              status = new;
              error_message = some message;
              error_details = details;
              retry_count = job.retry_count + 1;
              locked_until = none;
              updated_at = w.clock;
            })
            (record {
              id = hid;
              job_id = k;
              previous_status = running;
              new_status = new;
              changed_by = Option.get_or job.worker_id "system";
            })
  fail_commits message details =
      let (answer, stores) = fail-Stores message details in
      (answer, status_after_failure job, ground arith, stores)

  -- When no call of the database fails, `Cancel` cancels the one job with an id if it is pending or
  -- waits for a retry, changes nothing else of it, and the history says from which status; a job with
  -- another status is left as it is, with an error.
  pub cancel_commits :
      let (answer, w') = cancel hid k now w in
      (((job.status ≡ pending) ⊎ (job.status ≡ retrying))
        × (answer ≡ ok tt)
        × Stores w.committed w'.committed k
            (record job { status = cancelled; updated_at = w.clock })
            (record {
              id = hid;
              job_id = k;
              previous_status = job.status;
              new_status = cancelled;
              changed_by = "api";
            }))
      ⊎ ((job.status ≢ pending)
          × (job.status ≢ retrying)
          × (answer ≡ err not_cancellable)
          × (w'.committed ≡ w.committed))
  unfolding cancel
  cancel_commits = ground (
    arith,
    own_row (cancelled_row now),
    calm w.calls,
    calm (w.calls + 1),
    calm (w.calls + 1 + 1),
    calm (w.calls + 1 + 1 + 1),
    calm (w.calls + 1 + 1 + 1 + 1),
  )

  -- When no call of the database fails, `Retry` puts the one job with an id back if it waits for a
  -- retry: it is pending, with no worker, start or lock, and otherwise as it was, its count of
  -- failures included; the history has one row more. A job with another status is left as it is, with
  -- an error.
  pub retry_commits :
      let (answer, w') = retry hid k now w in
      ((job.status ≡ retrying)
        × (answer ≡ ok tt)
        × Stores w.committed w'.committed k
            (record job {
              status = pending;
              worker_id = none;
              started_at = none;
              locked_until = none;
              updated_at = w.clock;
            })
            (record {
              id = hid;
              job_id = k;
              previous_status = retrying;
              new_status = pending;
              changed_by = "system";
            }))
      ⊎ ((job.status ≢ retrying) × (answer ≡ err not_retrying) × (w'.committed ≡ w.committed))
  unfolding retry
  retry_commits =
      let own : (r : Job) → has_id k r ≡ false → (has_id k r && retryable r) ≡ false =
        λ r h. rw h refl in
      let here : has_id k job ≡ true =
        (==_iff job.id k).1 (found-id k w.committed.jobs job stored) in
      let rows =
        count_where-found k (λ r. has_id k r && retryable r) own w.committed.jobs job distinct
          stored in
      elim (Bool-cases (retryable job)) [
        | inl waits ↦
            let both : (has_id k job && retryable job) ≡ true = rw (here, waits) refl in
            ground (
              arith,
              rows,
              update_where-replaced k (λ r. has_id k r && retryable r) own w.clock
                  (requeued_row now) w.committed.jobs job distinct stored both,
              calm w.calls,
              calm (w.calls + 1),
              calm (w.calls + 1 + 1),
              calm (w.calls + 1 + 1 + 1),
            )
        | inr idle ↦ ground (
          arith,
          rows,
          calm w.calls,
          calm (w.calls + 1),
          calm (w.calls + 1 + 1),
          calm (w.calls + 1 + 1 + 1),
        )
      ]
