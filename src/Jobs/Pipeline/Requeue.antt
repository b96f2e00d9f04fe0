-- ===== src/Jobs/Pipeline/Requeue.antt =====
-- `RetryFailedJobs` of internal/jobs/pipeline.go: how many jobs wait for a retry before and after.
use mathlib.Core.Path.{subst}
use qtest.Prelude.{
  ℕ, ◌+◌, ◌≤◌, ◌≡◌, refl, ap, sym, ◌∙◌, inl, inr, ◌==◌, ==_iff, Bool, true, false, Option, none,
  List, [], ◌∷◌, ◌&&◌, arith, Bool-cases, length, length-take, if◌then◌else◌,
}
use qtest.Jobs.Types.{Uuid, Time, Json, Job, JobMessage, JobStatus, retrying, pending, status_eq}
use qtest.Jobs.Payloads.{Payload}
use qtest.Jobs.Store.{
  >>=-eq-ok, World, Db, Result, ok, err, find, first_match, has_id, update_where, count_where,
}
use qtest.Jobs.Repository.{retry, retryable, requeued_row}
use qtest.Jobs.Queries.{list_by_status}
use qtest.Jobs.Repository.Outcomes.{is_ok, retry_found, retry_missed}
use qtest.Jobs.Repository.Lists.{list_by_status-Lists}
use qtest.Jobs.Repository.Steps.{Distinct}
use qtest.Jobs.Repository.Refines.{retry-OpStep}
use qtest.Jobs.Repository.Invariant.{TableStep-Distinct}
use qtest.Jobs.Pipeline.{publish_job, requeue, caught, retry_failed_jobs}
use qtest.Jobs.Pipeline.Chain.{publish_job-committed}

count_none :
    (k : Uuid) (clock now : Time) (rs : List Job)
    → find k rs ≡ none
    → count_where retryable
        (update_where clock (λ r. has_id k r && retryable r) (requeued_row now) rs)
      ≡ count_where retryable rs
unfolding count_where update_where find first_match
count_none k clock now [] e = refl
count_none k clock now (x ∷ rs) e = ground (arith, count_none k clock now rs)

count_absent :
    (k : Uuid) (rs : List Job)
    → find k rs ≡ none
    → count_where (λ r. has_id k r && retryable r) rs ≡ 0
unfolding count_where find first_match
count_absent k [] e = refl
count_absent k (x ∷ rs) e = ground (arith, count_absent k rs)

-- Requeueing one job takes one from those that wait.
count_requeued :
    (k : Uuid) (clock now : Time) (rs : List Job)
    → Distinct rs
    → (count_where (λ r. has_id k r && retryable r) rs == 0) ≡ false
    → count_where retryable
          (update_where clock (λ r. has_id k r && retryable r) (requeued_row now) rs)
        + 1
      ≡ count_where retryable rs
unfolding count_where update_where
count_requeued k clock now [] d e = cc
count_requeued k clock now (x ∷ rs) d e = elim (Bool-cases (x.id == k)) [
  | inl here ↦
      let gone : find k rs ≡ none = subst (λ n. find n rs ≡ none) ((==_iff x.id k).0 here) d.0 in
      ground (arith, count_none k clock now rs gone, count_absent k rs gone)
  | inr there ↦ ground (arith, count_requeued k clock now rs d.1)
]

abbrev pub waiting : World → ℕ
waiting w = count_where (λ r. status_eq r.status retrying) w.committed.jobs

retry-waiting :
    (hid k : Uuid) (now : Time) (w : World)
    → Distinct w.committed.jobs
    → waiting (retry hid k now w).1 + (if is_ok (retry hid k now w).0 then 1 else 0) ≡ waiting w
retry-waiting hid k now w d =
    go (count_where (λ r. has_id k r && retryable r) w.committed.jobs == 0) refl
  where
    go :
        (idle : Bool)
        → (count_where (λ r. has_id k r && retryable r) w.committed.jobs == 0) ≡ idle
        → waiting (retry hid k now w).1 + (if is_ok (retry hid k now w).0 then 1 else 0) ≡ waiting w
    go true e = ground (arith, retry_missed hid k now w e)
    go false e =
        ground (arith, retry_found hid k now w e, count_requeued k w.clock now w.committed.jobs d e)

caught_ok : (x : Result (Unit {0}) × World) → is_ok x.0 ≡ true → caught x ≡ (ok true, x.1)
caught_ok (ok a, w) h = refl
caught_ok (err e, w) h = cc

caught_err : (x : Result (Unit {0}) × World) → is_ok x.0 ≡ false → caught x ≡ (ok false, x.1)
caught_err (ok a, w) h = cc
caught_err (err e, w) h = refl

ok-injective : {m n : ℕ} → ok m ≡ ok n → m ≡ n
ok-injective h = cc

list_by_status-reads :
    (status : JobStatus) (limit : ℕ) (w : World) (js : List Job)
    → (list_by_status status limit w).0 ≡ ok js
    → ((list_by_status status limit w).1.committed ≡ w.committed) × (length js ≤ limit)
unfolding list_by_status
list_by_status-reads status limit w js h =
    let (sorted, _, _, e) = list_by_status-Lists status limit w h in
    (ground arith, rw e (omega (arith, length-take limit sorted)))

module _ (marshal : Payload → Option Json) (encode : JobMessage → Option Json) (nats : Bool)
    (hids : ℕ → Uuid) (nows : ℕ → Time) where
  requeue_done :
      (job : Job) (jobs : List Job) (i c : ℕ) (w : World)
      → is_ok (retry (hids i) job.id (nows i) w).0 ≡ true
      → requeue marshal encode nats hids nows i c (job ∷ jobs) w
        ≡ requeue marshal encode nats hids nows
            (i + 1)
            (c + 1)
            jobs
            (publish_job marshal encode nats
              (record job { status = pending })
              (retry (hids i) job.id (nows i) w).1).1
  unfolding requeue
  requeue_done job jobs i c w h = rw (caught_ok (retry (hids i) job.id (nows i) w) h)

  requeue_refused :
      (job : Job) (jobs : List Job) (i c : ℕ) (w : World)
      → is_ok (retry (hids i) job.id (nows i) w).0 ≡ false
      → requeue marshal encode nats hids nows i c (job ∷ jobs) w
        ≡ requeue marshal encode nats hids nows (i + 1) c jobs (retry (hids i) job.id (nows i) w).1
  unfolding requeue
  requeue_refused job jobs i c w h = rw (caught_err (retry (hids i) job.id (nows i) w) h)

  requeue_counts :
      (jobs : List Job) (i c : ℕ) (w : World)
      → Distinct w.committed.jobs
      → (n : ℕ) × ((requeue marshal encode nats hids nows i c jobs w).0 ≡ ok n)
        × (waiting (requeue marshal encode nats hids nows i c jobs w).1 + n ≡ waiting w + c)
        × (n ≤ c + length jobs)
  requeue_counts [] i c w d = unfold requeue in (c, refl, refl, omega arith)
  requeue_counts (job ∷ jobs) i c w d =
      let r = retry (hids i) job.id (nows i) w in
      let d' =
        TableStep-Distinct w.committed r.1.committed (retry-OpStep (hids i) job.id (nows i) w d)
          d in
      let told = publish_job marshal encode nats (record job { status = pending }) r.1 in
      let kept : told.1.committed ≡ r.1.committed =
        publish_job-committed marshal encode nats (record job { status = pending }) r.1 in
      let moved = retry-waiting (hids i) job.id (nows i) w d in
      elim (Bool-cases (is_ok r.0)) [
        | inl done ↦
            let (n, e, counted, small) =
              requeue_counts jobs (i + 1) (c + 1) told.1
                (subst (λ (db : Db). Distinct db.jobs) (sym kept) d') in
            let step = requeue_done job jobs i c w done in
            (
              n,
              rw step e,
              rw step (
                  omega (
                    arith,
                    counted,
                    ap (λ (db : Db). count_where retryable db.jobs) kept,
                    subst (λ b. waiting r.1 + (if b then 1 else 0) ≡ waiting w) done moved,
                  )),
              omega arith,
            )
        | inr refused ↦
            let (n, e, counted, small) = requeue_counts jobs (i + 1) c r.1 d' in
            let step = requeue_refused job jobs i c w refused in
            (
              n,
              rw step e,
              rw step (
                  omega (
                    arith,
                    counted,
                    subst (λ b. waiting r.1 + (if b then 1 else 0) ≡ waiting w) refused moved,
                  )),
              omega arith,
            )
      ]

  -- If no id stands twice in the table, `RetryFailedJobs` that succeeds tells how many jobs it took
  -- from those that wait for a retry, and that is at most 100, whichever calls of the database
  -- failed on the way.
  pub retry_failed_jobs-count :
      (w : World) (n : ℕ)
      → Distinct w.committed.jobs
      → (retry_failed_jobs marshal encode nats hids nows w).0 ≡ ok n
      → (waiting (retry_failed_jobs marshal encode nats hids nows w).1 + n ≡ waiting w) × (n ≤ 100)
  unfolding retry_failed_jobs
  retry_failed_jobs-count w n d h =
      let (jobs, got, step) =
        >>=-eq-ok (list_by_status retrying 100) (requeue marshal encode nats hids nows 0 0) w n h in
      let (same, few) = list_by_status-reads retrying 100 w jobs got in
      let (n', e, counted, small) =
        requeue_counts jobs 0 0 (list_by_status retrying 100 w).1
          (subst (λ (db : Db). Distinct db.jobs) (sym same) d) in
      let as_told : n ≡ n' = ok-injective (sym h ∙ ap (λ (x : Result ℕ × World). x.0) step ∙ e) in
      let kept : waiting (list_by_status retrying 100 w).1 ≡ waiting w =
        ap (λ (db : Db). count_where retryable db.jobs) same in
      (rw step (omega (arith, as_told, kept, counted)), omega (arith, as_told, small, few))
