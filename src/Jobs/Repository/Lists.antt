-- ===== src/Jobs/Repository/Lists.antt =====
-- The lists that internal/jobs/repository.go returns: the rows that a query selects, in its order,
-- as many as its limit allows.
use mathlib.Core.List.{Perm}
use qtest.Prelude.{ℕ, ◌≡◌, Bool, List, arith, select, take, All, All-map, [], ◌∷◌, ap}
use qtest.Prelude.Int.{◌≤ℤ◌, pos_part, neg_part}
use qtest.Jobs.Types.{Uuid, Job, JobStatus, JobType, status_eq}
use qtest.Jobs.Store.{World, ok}
use qtest.Prelude.Sort.{order_by, Ordered, IsOrder, order_by-perm, order_by-Ordered}
use qtest.Jobs.Queries.{
  by_urgency, newest_first, oldest_first, list_by_status, list_pending_by_type, list_by_repository,
  list_recent, get_child_jobs, pending_of, in_repository, child_of,
}

by_urgency-IsOrder : IsOrder by_urgency
by_urgency-IsOrder = record { asymmetric = λ a b h. ground arith; weak = λ a b c h k. ground arith }

newest_first-IsOrder : IsOrder newest_first
newest_first-IsOrder = record {
  asymmetric = λ a b h. ground arith;
  weak = λ a b c h k. ground arith;
}

oldest_first-IsOrder : IsOrder oldest_first
oldest_first-IsOrder = record {
  asymmetric = λ a b h. ground arith;
  weak = λ a b c h k. ground arith;
}

-- The first `limit` rows of the selected ones, put in order.
abbrev pub Lists : (Job → Job → Bool) → List Job → ℕ → List Job → Type 0
Lists before selected limit js =
    (sorted : List Job) × Perm sorted selected × Ordered before sorted × (js ≡ take limit sorted)

listed :
    (before : Job → Job → Bool)
    → IsOrder before
    → (selected : List Job) (limit : ℕ) (js : List Job) → js ≡ take limit (order_by before selected)
    → Lists before selected limit js
listed before o selected limit js e =
    (order_by before selected, order_by-perm before selected, order_by-Ordered before o selected, e)

pub list_by_status-Lists :
    (status : JobStatus) (limit : ℕ) (w : World) {js : List Job}
    → (list_by_status status limit w).0 ≡ ok js
    → Lists by_urgency (select (λ r. status_eq r.status status) w.committed.jobs) limit js
unfolding list_by_status
list_by_status-Lists status limit w h =
    listed by_urgency by_urgency-IsOrder (select (λ r. status_eq r.status status) w.committed.jobs)
      limit _ (ground arith)

-- No later job has a higher priority, or the same one and an earlier creation.
abbrev pub UrgentFirst : List Job → Type 0
UrgentFirst [] = Unit
UrgentFirst (r ∷ rs) =
    All (λ x. (x.priority ≤ℤ r.priority) × (x.priority ≡ r.priority → r.created_at ≤ℤ x.created_at))
      rs
    × UrgentFirst rs

Ordered-UrgentFirst : (js : List Job) → Ordered by_urgency js → UrgentFirst js
Ordered-UrgentFirst [] o = tt
Ordered-UrgentFirst (r ∷ rs) o = (
  All-map _ (λ x h. (ground arith, (λ e. ground (arith, ap pos_part e, ap neg_part e)))) rs o.0,
  Ordered-UrgentFirst rs o.1,
)

-- A successful `ListByStatus` returns the first rows, as many as the limit allows, of exactly the
-- jobs with that status, put in order: those of a higher priority first, and of one priority those
-- that were created earlier.
pub list_by_status-UrgentFirst :
    (status : JobStatus) (limit : ℕ) (w : World) {js : List Job}
    → (list_by_status status limit w).0 ≡ ok js
    → (sorted : List Job) × Perm sorted (select (λ r. status_eq r.status status) w.committed.jobs)
      × UrgentFirst sorted
      × (js ≡ take limit sorted)
list_by_status-UrgentFirst status limit w h =
    let (sorted, same, o, e) = list_by_status-Lists status limit w h in
    (sorted, same, Ordered-UrgentFirst sorted o, e)

pub list_pending_by_type-Lists :
    (job_type : JobType) (limit : ℕ) (w : World) {js : List Job}
    → (list_pending_by_type job_type limit w).0 ≡ ok js
    → Lists by_urgency (select (pending_of job_type) w.committed.jobs) limit js
unfolding list_pending_by_type
list_pending_by_type-Lists job_type limit w h =
    listed by_urgency by_urgency-IsOrder (select (pending_of job_type) w.committed.jobs) limit _
      (ground arith)

pub list_by_repository-Lists :
    (k : Uuid) (limit : ℕ) (w : World) {js : List Job}
    → (list_by_repository k limit w).0 ≡ ok js
    → Lists newest_first (select (in_repository k) w.committed.jobs) limit js
unfolding list_by_repository
list_by_repository-Lists k limit w h =
    listed newest_first newest_first-IsOrder (select (in_repository k) w.committed.jobs) limit _
      (ground arith)

pub list_recent-Lists :
    (limit : ℕ) (w : World) {js : List Job}
    → (list_recent limit w).0 ≡ ok js
    → Lists newest_first w.committed.jobs limit js
unfolding list_recent
list_recent-Lists limit w h =
    listed newest_first newest_first-IsOrder w.committed.jobs limit _ (ground arith)

pub get_child_jobs-Lists :
    (k : Uuid) (w : World) {js : List Job}
    → (get_child_jobs k w).0 ≡ ok js
    → Perm js (select (child_of k) w.committed.jobs) × Ordered oldest_first js
unfolding get_child_jobs
get_child_jobs-Lists k w {js} h =
    let e : js ≡ order_by oldest_first (select (child_of k) w.committed.jobs) = ground arith in
    rw e (
      order_by-perm oldest_first _,
      order_by-Ordered oldest_first oldest_first-IsOrder (select (child_of k) w.committed.jobs),
    )
