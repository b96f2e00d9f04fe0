-- ===== src/Jobs/Repository/Rows.antt =====
-- The changes that the methods of internal/jobs/repository.go make to one row of `jobs`, and what
-- holds of a row between them.
use qtest.Prelude.{◌≡◌, ◌⊎◌, ◌<◌, ◌≤◌, String, true, Option, none, arith}
use qtest.Jobs.Types.{
  Time, Json, Job, JobStatus, pending, running, completed, failed, retrying, cancelled,
}
use qtest.Jobs.Store.{touch}
use qtest.Jobs.Repository.{
  claimable, claimed_row, completed_row, status_after_failure, failed_row, retryable, requeued_row,
  cancellable, cancelled_row, owned_by, extended_row, stale, inserted_row, is_some,
}

pub data RowStep (r r' : Job) : Type 0 where
  claim :
      (worker : String) (until now clock : Time)
      → claimable now r ≡ true
      → r' ≡ touch clock (claimed_row worker until now r)
      → RowStep r r'
  complete :
      (bytes : Json) (now clock : Time)
      → r' ≡ touch clock (completed_row bytes now r)
      → RowStep r r'
  fail :
      (message : String) (details : Option Json) (now clock : Time)
      → r' ≡ touch clock (failed_row (status_after_failure r) message details now r)
      → RowStep r r'
  retry :
      (now clock : Time) → retryable r ≡ true → r' ≡ touch clock (requeued_row now r) → RowStep r r'
  cancel :
      (now clock : Time)
      → cancellable r ≡ true
      → r' ≡ touch clock (cancelled_row now r)
      → RowStep r r'
  extend :
      (worker : String) (until now clock : Time)
      → owned_by worker r ≡ true
      → r' ≡ touch clock (extended_row until now r)
      → RowStep r r'
  reset :
      (now clock : Time) → stale now r ≡ true → r' ≡ touch clock (requeued_row now r) → RowStep r r'

-- The state diagram of a job. The code draws `finish` and the two failures from every status.
pub data Edge : JobStatus → JobStatus → Type 0 where
  start : Edge pending running
  takeover : Edge running running
  release : Edge running pending
  finish : {s : JobStatus} → Edge s completed
  again : {s : JobStatus} → Edge s retrying
  give_up : {s : JobStatus} → Edge s failed
  requeue : Edge retrying pending
  drop_pending : Edge pending cancelled
  drop_retrying : Edge retrying cancelled

-- What holds of a row between two methods.
pub record IsSound (r : Job) : Type 0 where
  pub running_locked : r.status ≡ running → is_some r.locked_until ≡ true
  pub locked_running : is_some r.locked_until ≡ true → r.status ≡ running
  pub running_owned :
      r.status ≡ running → (is_some r.worker_id ≡ true) × (is_some r.started_at ≡ true)
  pub pending_free : r.status ≡ pending → (r.worker_id ≡ none) × (r.started_at ≡ none)
  pub completed_result :
      r.status ≡ completed → (is_some r.result ≡ true) × (is_some r.completed_at ≡ true)
  pub live_budget :
      (r.status ≡ pending) ⊎ (r.status ≡ running) ⊎ (r.status ≡ retrying)
      → r.retry_count ≤ r.max_retries
  pub retrying_counted : r.status ≡ retrying → 0 < r.retry_count
  pub failed_exhausted : r.status ≡ failed → r.max_retries < r.retry_count

pub RowStep-IsSound : {r r' : Job} → RowStep r r' → IsSound r → IsSound r'
RowStep-IsSound (claim worker until now clock g e) s = ground arith
RowStep-IsSound (complete bytes now clock e) s = ground arith
RowStep-IsSound (fail message details now clock e) s = ground arith
RowStep-IsSound (retry now clock g e) s = ground arith
RowStep-IsSound (cancel now clock g e) s = ground arith
RowStep-IsSound (extend worker until now clock g e) s = ground arith
RowStep-IsSound (reset now clock g e) s = ground arith

pub inserted_row-IsSound : (j : Job) → j.status ≡ pending → IsSound (inserted_row j)
inserted_row-IsSound j h = ground arith

ruleset edges =
    (start, takeover, release, finish, again, give_up, requeue, drop_pending, drop_retrying)

pub RowStep-Edge : {r r' : Job} → RowStep r r' → Edge r.status r'.status
RowStep-Edge (claim worker until now clock g e) = grind (arith, edges)
RowStep-Edge (complete bytes now clock e) = grind (arith, edges)
RowStep-Edge (fail message details now clock e) = grind (arith, edges)
RowStep-Edge (retry now clock g e) = grind (arith, edges)
RowStep-Edge (cancel now clock g e) = grind (arith, edges)
RowStep-Edge (extend worker until now clock g e) = grind (arith, edges)
RowStep-Edge (reset now clock g e) = grind (arith, edges)

-- The columns that no method changes.
pub record SameJob (r r' : Job) : Type 0 where
  pub id : r'.id ≡ r.id
  pub job_type : r'.job_type ≡ r.job_type
  pub priority : r'.priority ≡ r.priority
  pub repository_id : r'.repository_id ≡ r.repository_id
  pub generation_run_id : r'.generation_run_id ≡ r.generation_run_id
  pub parent_job_id : r'.parent_job_id ≡ r.parent_job_id
  pub payload : r'.payload ≡ r.payload
  pub max_retries : r'.max_retries ≡ r.max_retries
  pub created_at : r'.created_at ≡ r.created_at
  pub retry_count : r.retry_count ≤ r'.retry_count

pub RowStep-SameJob : {r r' : Job} → RowStep r r' → SameJob r r'
RowStep-SameJob (claim worker until now clock g e) = ground arith
RowStep-SameJob (complete bytes now clock e) = ground arith
RowStep-SameJob (fail message details now clock e) = ground arith
RowStep-SameJob (retry now clock g e) = ground arith
RowStep-SameJob (cancel now clock g e) = ground arith
RowStep-SameJob (extend worker until now clock g e) = ground arith
RowStep-SameJob (reset now clock g e) = ground arith
