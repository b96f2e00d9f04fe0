-- ===== src/Jobs/Repository.antt =====
-- internal/jobs/repository.go: the statements on the table `jobs`, and the methods that run them.
-- An argument `now` is the value of `time.Now`, and `hid` the `uuid.New` of a history row.
-- A method's transaction runs with no other in between.
pub mod Rows
pub mod Steps
pub mod Refines
pub mod Invariant
pub mod Claims
pub mod Held
pub mod Outcomes
pub mod Commits
pub mod Lists
mod Tests
use mathlib.Core.Option
use qtest.Prelude.{
  ℕ, ◌+◌, ◌==◌, String, Bool, true, false, not, ◌&&◌, ◌||◌, Option, none, some, List, [], ◌∷◌, ltb,
  if◌then◌else◌, select, take, str_eq,
}
use qtest.Prelude.Int.{ℤ, ◌+ℤ◌, ltb_ℤ, eqb_ℤ, leb_ℤ}
use qtest.Jobs.Types.{
  Uuid, Time, Duration, Json, Job, JobType, JobStatus, ingestion, modeling, planning, generation,
  mutation, integration, pending, running, completed, failed, retrying, cancelled, status_eq,
  type_eq,
}
use qtest.Jobs.Store.{
  Db, HistoryRow, World, Error, Result, ok, err, M, ◌>>=◌, ◌>>◌, pure, raise, begin, commit, in_tx,
  auto_commit, attempt, touch, update_where, first_match, count_where, has_id, find, member,
  create_failed, get_failed, begin_failed, claim_failed, commit_failed, marshal_failed,
  complete_failed, retry_info_failed, fail_failed, retry_failed, not_retrying, status_failed,
  not_cancellable, cancel_failed, query_failed, lock_failed, not_owner, cleanup_failed,
  history_failed,
}

-- The constraint `valid_job_type` of migrations/002_jobs.sql.
abbrev pub type_allowed : JobType → Bool
type_allowed ingestion = true
type_allowed modeling = true
type_allowed planning = true
type_allowed generation = true
type_allowed mutation = true
type_allowed integration = true
type_allowed _ = false

abbrev pub is_some {ℓ} : {A : Type ℓ} → Option A → Bool
is_some none = false
is_some (some _) = true

-- A foreign key: NULL, or an id that the table has.
abbrev pub refers : Option Uuid → (Uuid → Bool) → Bool
refers none known = true
refers (some k) known = known k

abbrev pub insertable : Job → Db → Bool
insertable j db =
    type_allowed j.job_type
    && (not (is_some (find j.id db.jobs))
        && (refers j.repository_id (λ k. member k db.repositories)
            && (refers j.generation_run_id (λ k. member k db.generation_runs)
                && refers j.parent_job_id (λ k. k == j.id || is_some (find k db.jobs)))))

-- The row that `INSERT` stores: eleven columns are given, the others take their defaults.
abbrev pub inserted_row : Job → Job
inserted_row j = record j {
  result = none;
  error_message = none;
  error_details = none;
  retry_count = 0;
  started_at = none;
  completed_at = none;
  locked_until = none;
  worker_id = none;
}

unfoldable pub insert_job : Job → Time → Db → Bool × Db
insert_job j clock db =
    if insertable j db then (true, record db { jobs = inserted_row j ∷ db.jobs }) else (false, db)

unfoldable pub create : Job → M (Unit {0})
unfolding auto_commit insert_job
create j = do
  inserted ← auto_commit create_failed (insert_job j)
  if inserted then pure tt else raise create_failed

unfoldable pub get_by_id : Uuid → M (Option Job)
unfolding auto_commit find
get_by_id k = auto_commit get_failed (λ clock db. (find k db.jobs, db))

unfoldable pub record_history : Uuid → Uuid → JobStatus → JobStatus → String → M (Unit {0})
unfolding in_tx
record_history hid k previous new changed_by = in_tx history_failed (λ clock db. (
  tt,
  record db {
    history =
        record {
          id = hid;
          job_id = k;
          previous_status = previous;
          new_status = new;
          changed_by = changed_by;
        }
        ∷ db.history;
  },
))

abbrev pub changed_by_or_system : Option String → String
changed_by_or_system none = "system"
changed_by_or_system (some w) = w

-- `locked_until < now`, which a NULL does not satisfy.
abbrev pub lock_expired : Time → Option Time → Bool
lock_expired now none = false
lock_expired now (some t) = ltb_ℤ t now

abbrev pub claimable : Time → Job → Bool
claimable now r =
    status_eq r.status pending || (status_eq r.status running && lock_expired now r.locked_until)

abbrev pub claimed_row : String → Time → Time → Job → Job
claimed_row worker until now r = record r {
  status = running;
  worker_id = some worker;
  locked_until = some until;
  started_at = some now;
  updated_at = now;
}

-- `UPDATE … RETURNING`: the first row that it changed, as it is then.
abbrev pub update_returning : (Job → Bool) → (Job → Job) → Time → Db → Option Job × Db
update_returning p f clock db = (
  Option.map (λ r. touch clock (f r)) (first_match p db.jobs),
  record db { jobs = update_where clock p f db.jobs },
)

claim_rest : Uuid → String → Option Job → M (Option Job)
unfolding commit record_history
claim_rest hid worker none = pure none
claim_rest hid worker (some job) = do
  attempt (record_history hid job.id pending running worker)
  commit commit_failed
  pure (some job)

unfoldable pub claim : Uuid → Uuid → String → Duration → Time → M (Option Job)
unfolding begin in_tx claim_rest
claim hid k worker lock now = do
  begin begin_failed
  job ←
      in_tx claim_failed (
        update_returning (λ r. has_id k r && claimable now r)
          (claimed_row worker (now +ℤ lock) now))
  claim_rest hid worker job

abbrev pub completed_row : Json → Time → Job → Job
completed_row bytes now r = record r {
  status = completed;
  result = some bytes;
  completed_at = some now;
  updated_at = now;
  locked_until = none;
}

complete_rest : Uuid → Uuid → Option Job → M (Unit {0})
unfolding commit record_history
complete_rest hid k none = raise complete_failed
complete_rest hid k (some job) = do
  attempt (record_history hid k running completed (changed_by_or_system job.worker_id))
  commit commit_failed

-- `bytes` is what the encoder makes of the result, or `none`. There is no test of the status.
unfoldable pub complete : Uuid → Uuid → Option Json → Time → M (Unit {0})
unfolding begin in_tx complete_rest
complete hid k none now = raise marshal_failed
complete hid k (some bytes) now = do
  begin begin_failed
  job ← in_tx complete_failed (update_returning (has_id k) (completed_row bytes now))
  complete_rest hid k job

-- The bytes stored for the error's details: those of the encoder, or `raw` if it fails.
unfoldable pub detail_bytes {ℓ} :
    {A : Type ℓ} → (A → Option Json) → (A → Json) → Option A → Option Json
detail_bytes marshal raw none = none
detail_bytes marshal raw (some a) = some (Option.get_or (marshal a) (raw a))

abbrev pub status_after_failure : Job → JobStatus
status_after_failure r = if ltb r.retry_count r.max_retries then retrying else failed

abbrev pub failed_row : JobStatus → String → Option Json → Time → Job → Job
failed_row new message details now r = record r {
  status = new;
  error_message = some message;
  error_details = details;
  retry_count = r.retry_count + 1;
  updated_at = now;
  locked_until = none;
}

fail_rest : Uuid → Uuid → String → Option Json → Time → Option Job → M (Unit {0})
unfolding in_tx commit record_history
fail_rest hid k message details now none = raise retry_info_failed
fail_rest hid k message details now (some job) = do
  let new = status_after_failure job
  in_tx fail_failed (λ clock db. (
    tt,
    record db { jobs = update_where clock (has_id k) (failed_row new message details now) db.jobs },
  ))
  attempt (record_history hid k running new (changed_by_or_system job.worker_id))
  commit commit_failed

-- There is no test of the status here either.
unfoldable pub fail : Uuid → Uuid → String → Option Json → Time → M (Unit {0})
unfolding begin in_tx fail_rest
fail hid k message details now = do
  begin begin_failed
  job ← in_tx retry_info_failed (λ clock db. (find k db.jobs, db))
  fail_rest hid k message details now job

abbrev pub retryable : Job → Bool
retryable r = status_eq r.status retrying

abbrev pub requeued_row : Time → Job → Job
requeued_row now r = record r {
  status = pending;
  updated_at = now;
  worker_id = none;
  started_at = none;
  locked_until = none;
}

-- `UPDATE … WHERE …` with the number of the rows that it changed.
abbrev pub update_counting : (Job → Bool) → (Job → Job) → Time → Db → ℕ × Db
update_counting p f clock db =
    (count_where p db.jobs, record db { jobs = update_where clock p f db.jobs })

retry_rest : Uuid → Uuid → ℕ → M (Unit {0})
unfolding commit record_history
retry_rest hid k rows =
    if rows == 0
    then raise not_retrying
    else do attempt (record_history hid k retrying pending "system"); commit commit_failed

unfoldable pub retry : Uuid → Uuid → Time → M (Unit {0})
unfolding begin in_tx retry_rest
retry hid k now = do
  begin begin_failed
  rows ← in_tx retry_failed (update_counting (λ r. has_id k r && retryable r) (requeued_row now))
  retry_rest hid k rows

abbrev pub cancellable : Job → Bool
cancellable r = status_eq r.status pending || status_eq r.status retrying

abbrev pub cancelled_row : Time → Job → Job
cancelled_row now r = record r { status = cancelled; updated_at = now }

cancel_rest : Uuid → Uuid → Time → Option Job → M (Unit {0})
unfolding in_tx commit record_history
cancel_rest hid k now none = raise status_failed
cancel_rest hid k now (some job) = if not (cancellable job) then raise not_cancellable else do
  in_tx cancel_failed (λ clock db.
      (tt, record db { jobs = update_where clock (has_id k) (cancelled_row now) db.jobs }))
  attempt (record_history hid k job.status cancelled "api")
  commit commit_failed

unfoldable pub cancel : Uuid → Uuid → Time → M (Unit {0})
unfolding begin in_tx cancel_rest
cancel hid k now = do
  begin begin_failed
  job ← in_tx status_failed (λ clock db. (find k db.jobs, db))
  cancel_rest hid k now job

abbrev pub owned_by : String → Job → Bool
owned_by worker r =
    Option.get_or (Option.map (λ w. str_eq w worker) r.worker_id) false
    && status_eq r.status running

abbrev pub extended_row : Time → Time → Job → Job
extended_row until now r = record r { locked_until = some until; updated_at = now }

unfoldable pub extend_lock : Uuid → String → Duration → Time → Time → M (Unit {0})
unfolding auto_commit
extend_lock k worker duration now later = do
  rows ← auto_commit lock_failed (
      update_counting (λ r. has_id k r && owned_by worker r) (extended_row (now +ℤ duration) later))
  if rows == 0 then raise not_owner else pure tt

abbrev pub stale : Time → Job → Bool
stale now r = status_eq r.status running && lock_expired now r.locked_until

unfoldable pub cleanup_stale : Time → M ℕ
unfolding auto_commit
cleanup_stale now = auto_commit cleanup_failed (update_counting (stale now) (requeued_row now))
