-- ===== src/Jobs/Queries.antt =====
-- internal/jobs/repository.go: the methods that list jobs.
use mathlib.Core.Option
use qtest.Prelude.{ℕ, ◌==◌, Bool, false, ◌&&◌, ◌||◌, List, select, take}
use qtest.Prelude.Sort.{order_by}
use qtest.Prelude.Int.{ltb_ℤ, eqb_ℤ}
use qtest.Jobs.Types.{Uuid, Job, JobType, JobStatus, pending, status_eq, type_eq}
use qtest.Jobs.Store.{Db, M, auto_commit, query_failed}

-- The rows that an order does not separate may come in any order; here they keep that of the table.

-- `ORDER BY created_at DESC`, and `ORDER BY priority DESC, created_at`.
abbrev pub newest_first : Job → Job → Bool
newest_first a b = ltb_ℤ b.created_at a.created_at

abbrev pub by_urgency : Job → Job → Bool
by_urgency a b =
    ltb_ℤ b.priority a.priority || (eqb_ℤ a.priority b.priority && ltb_ℤ a.created_at b.created_at)

abbrev pub oldest_first : Job → Job → Bool
oldest_first a b = ltb_ℤ a.created_at b.created_at

unfoldable pub query_jobs : (Db → List Job) → M (List Job)
unfolding auto_commit
query_jobs q = auto_commit query_failed (λ clock db. (q db, db))

abbrev pub in_repository : Uuid → Job → Bool
in_repository k r = Option.get_or (Option.map (λ j. j == k) r.repository_id) false

abbrev pub child_of : Uuid → Job → Bool
child_of k r = Option.get_or (Option.map (λ j. j == k) r.parent_job_id) false

unfoldable pub list_by_repository : Uuid → ℕ → M (List Job)
unfolding query_jobs order_by
list_by_repository k limit =
    query_jobs (λ db. take limit (order_by newest_first (select (in_repository k) db.jobs)))

unfoldable pub list_by_status : JobStatus → ℕ → M (List Job)
unfolding query_jobs order_by
list_by_status status limit =
    query_jobs
      (λ db. take limit (order_by by_urgency (select (λ r. status_eq r.status status) db.jobs)))

abbrev pub pending_of : JobType → Job → Bool
pending_of job_type r = type_eq r.job_type job_type && status_eq r.status pending

unfoldable pub list_pending_by_type : JobType → ℕ → M (List Job)
unfolding query_jobs order_by
list_pending_by_type job_type limit =
    query_jobs (λ db. take limit (order_by by_urgency (select (pending_of job_type) db.jobs)))

unfoldable pub list_recent : ℕ → M (List Job)
unfolding query_jobs order_by
list_recent limit = query_jobs (λ db. take limit (order_by newest_first db.jobs))

unfoldable pub get_child_jobs : Uuid → M (List Job)
unfolding query_jobs order_by
get_child_jobs k = query_jobs (λ db. order_by oldest_first (select (child_of k) db.jobs))
