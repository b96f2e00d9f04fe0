-- ===== src/Jobs/Pipeline/Stored.antt =====
-- The rows that the creators of internal/jobs/pipeline.go store, against the jobs that they return.
use qtest.Prelude.{
  ◌≡◌, ◌≢◌, refl, ap, ◌∙◌, String, Bool, true, Option, none, some, List, arith, ==_refl,
}
use qtest.Jobs.Types.{
  Uuid, Time, Json, Job, JobType, JobMessage, pending, validation, modeling, generation, new_job,
}
use qtest.Jobs.Payloads.{Payload, PipelineJobOptions, ValidationJobOptions}
use qtest.Jobs.Store.{>>=-eq-ok, ◌>>=◌, World, Db, ok, find, first_match, M, pure}
use qtest.Jobs.Repository.{insertable, inserted_row}
use qtest.Jobs.Pipeline.{
  Stamp, inherit, chain_job, create_modeling_job, create_generation_job, create_validation_job,
}
use qtest.Jobs.Pipeline.Chain.{Adds, chain_job-Adds}

abbrev pub run_of : Option Job → Option Uuid
run_of none = none
run_of (some parent) = parent.generation_run_id

abbrev pub repository_of : Option Job → Option Uuid
repository_of none = none
repository_of (some parent) = parent.repository_id

-- A new job is pending and has neither a repository, a run nor a failure.
pub new_job_lem {ℓ} :
    {A : Type ℓ} (marshal : A → Option Json) (id : Uuid) (created updated : Time) (t : JobType)
    (payload : A) (job : Job)
    → new_job marshal id created updated t payload ≡ some job
    → (job.id ≡ id)
      × (job.job_type ≡ t)
      × (job.status ≡ pending)
      × (job.repository_id ≡ none)
      × (job.generation_run_id ≡ none)
      × (job.retry_count ≡ 0)
      × (job.max_retries ≡ 3)
unfolding new_job
new_job_lem marshal id created updated t payload job h = ground arith

find-Adds : (db db' : Db) (j : Job) → Adds db db' j → find j.id db'.jobs ≡ some (inserted_row j)
unfolding find first_match
find-Adds db db' j a = ground (arith, ==_refl j.id)

inherit-run :
    (parent : Option Job) (new : Job)
    → new.generation_run_id ≡ none
    → (inherit parent new).generation_run_id ≡ run_of parent
inherit-run none new h = h
inherit-run (some parent) new h = ground arith

inherit-repository :
    (parent : Option Job) (new : Job)
    → new.repository_id ≡ none
    → (inherit parent new).repository_id ≡ repository_of parent
inherit-repository none new h = h
inherit-repository (some parent) new h = ground arith

inherit-type : (parent : Option Job) (new : Job) → (inherit parent new).job_type ≡ new.job_type
inherit-type none new = refl
inherit-type (some parent) new = refl

module _ (marshal : Payload → Option Json) (encode : JobMessage → Option Json) (nats : Bool)
    (s : Stamp) (parent_id : Uuid) (w : World) where
  -- The row that `ChainJob` stores.
  pub chain_job-row :
      (t : JobType) (payload : Payload) (job : Job)
      → (chain_job marshal encode nats s parent_id t payload w).0 ≡ ok job
      → (find job.id (chain_job marshal encode nats s parent_id t payload w).1.committed.jobs
          ≡ some (inserted_row job))
        × (job.generation_run_id ≡ run_of (find parent_id w.committed.jobs))
        × (job.repository_id ≡ repository_of (find parent_id w.committed.jobs))
        × (job.job_type ≡ t)
        × (insertable job w.committed ≡ true)
  chain_job-row t payload job h =
      let (new, made, as_given, adds) =
        chain_job-Adds marshal encode nats s parent_id w t payload job h in
      let facts = new_job_lem marshal s.id s.created s.updated t payload new made in
      let parent = find parent_id w.committed.jobs in
      let child : Job = record new { parent_job_id = some parent_id } in
      (
        find-Adds w.committed _ job adds,
        ap (λ (j : Job). j.generation_run_id) as_given ∙ inherit-run parent child facts.4,
        ap (λ (j : Job). j.repository_id) as_given ∙ inherit-repository parent child facts.3,
        ap (λ (j : Job). j.job_type) as_given ∙ inherit-type parent child ∙ facts.1,
        adds.0,
      )

  -- A job that is edited after it is stored.
  edited : JobType → Payload → (Job → Job) → M Job
  edited t payload f = do job ← chain_job marshal encode nats s parent_id t payload; pure (f job)

  edited-row :
      (t : JobType) (payload : Payload) (f : Job → Job) (job : Job)
      → ((j : Job) → (f j).id ≡ j.id)
      → (edited t payload f w).0 ≡ ok job
      → (made : Job) × (job ≡ f made)
        × (find job.id (edited t payload f w).1.committed.jobs ≡ some (inserted_row made))
        × (made.generation_run_id ≡ run_of (find parent_id w.committed.jobs))
        × (made.repository_id ≡ repository_of (find parent_id w.committed.jobs))
        × (made.job_type ≡ t)
        × (insertable made w.committed ≡ true)
  unfolding edited
  edited-row t payload f job same h =
      let (made, got, step) =
        >>=-eq-ok (chain_job marshal encode nats s parent_id t payload) (λ (j : Job). pure (f j)) w
          job h in
      let (found, run, repository, kind, able) = chain_job-row t payload made got in
      let result : job ≡ f made = ground arith in
      (made, result, rw (step, result, same made) found, run, repository, kind, able)

  -- `CreateGenerationJob` returns a job that bears the run it was given, and stores a row that has
  -- the parent's run in its place, or none if the parent has none.
  create_generation_job-row :
      (repo_id run_id plan_id : Uuid) (opts : PipelineJobOptions) (job : Job)
      → (create_generation_job marshal encode nats s parent_id repo_id run_id plan_id opts w).0
        ≡ ok job
      → (row : Job) × (find job.id
            (create_generation_job marshal encode nats s parent_id repo_id run_id plan_id opts
              w).1.committed.jobs
          ≡ some row)
        × (row.generation_run_id ≡ run_of (find parent_id w.committed.jobs))
        × (job.generation_run_id ≡ some run_id)
  unfolding create_generation_job edited
  create_generation_job-row repo_id run_id plan_id opts job h =
      let (made, result, found, run, _, _, _) =
        edited-row generation _ (λ j. record j { generation_run_id = some run_id }) job (λ j. refl)
          h in
      (inserted_row made, found, run, ap (λ (j : Job). j.generation_run_id) result)

  -- `CreateModelingJob` returns a job that bears the repository it was given, and stores a row that
  -- has the parent's repository in its place, or none if the parent has none.
  create_modeling_job-row :
      (repo_id : Uuid) (path : String) (opts : PipelineJobOptions) (job : Job)
      → (create_modeling_job marshal encode nats s parent_id repo_id path opts w).0 ≡ ok job
      → (row : Job) × (find job.id
            (create_modeling_job marshal encode nats s parent_id repo_id path opts
              w).1.committed.jobs
          ≡ some row)
        × (row.repository_id ≡ repository_of (find parent_id w.committed.jobs))
        × (job.repository_id ≡ some repo_id)
  unfolding create_modeling_job edited
  create_modeling_job-row repo_id path opts job h =
      let (made, result, found, _, repository, _, _) =
        edited-row modeling _ (λ j. record j { repository_id = some repo_id }) job (λ j. refl) h in
      (inserted_row made, found, repository, ap (λ (j : Job). j.repository_id) result)

  -- The table takes no job of the type that `CreateValidationJob` makes: it never succeeds.
  pub create_validation_job-fails :
      (repo_id run_id : Uuid) (ids paths : List String) (path language : String)
      (opts : ValidationJobOptions) (job : Job)
      → (create_validation_job marshal encode nats s parent_id repo_id run_id ids paths path
          language opts w).0
        ≢ ok job
  unfolding create_validation_job edited
  create_validation_job-fails repo_id run_id ids paths path language opts job h =
      let (made, _, _, _, _, kind, able) =
        edited-row validation _ (λ j. record j { generation_run_id = some run_id }) job (λ j. refl)
          h in
      ground arith
