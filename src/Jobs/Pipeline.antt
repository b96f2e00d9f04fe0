-- ===== src/Jobs/Pipeline.antt =====
-- internal/jobs/pipeline.go: jobs are stored, then announced; a worker stores the job that follows
-- its own. The JSON encoders and whether a message stream is configured are parameters; each
-- `uuid.New` and `time.Now` is an argument.
pub mod Chain
pub mod Stored
pub mod Requeue
pub mod Keeps
mod Tests
use qtest.Prelude.{
  ℕ, suc, ◌+◌, ◌==◌, String, Bool, true, false, not, Option, none, some, List, [], ◌∷◌,
  if◌then◌else◌, str_eq,
}
use qtest.Prelude.Int.{ℤ, eqb_ℤ}
use qtest.Jobs.Types.{
  Uuid, Time, Json, Job, JobType, JobMessage, ingestion, modeling, planning, generation, validation,
  mutation, integration, pending, retrying, new_job,
}
use qtest.Jobs.Payloads.{
  Payload, IngestionPayload, PipelineOptions, PipelineJobOptions, ValidationJobOptions,
  ingestion_payload, modeling_payload, planning_payload, generation_payload, mutation_payload,
  validation_payload, integration_payload,
}
use qtest.Jobs.Subjects.{job_type_name, subject_for_job_type}
use qtest.Jobs.Store.{
  World, M, Result, ok, err, ◌>>=◌, ◌>>◌, pure, raise, attempt, call, marshal_failed,
  publish_failed, unknown_type, job_not_found,
}
use qtest.Jobs.Repository.{create, get_by_id, retry}
use qtest.Jobs.Queries.{get_child_jobs, list_by_status}

-- What `NewJob` takes from its surroundings.
pub record Stamp : Type 0 where
  pub id : Uuid
  pub created : Time
  pub updated : Time

pub record JobStatusReport : Type 0 where
  pub job : Job
  pub children : List Job

-- The result of an action as a value, for `if err := …; err != nil { continue }`.
abbrev pub caught {ℓ} : {A : Type ℓ} → Result A × World → Result Bool × World
caught (ok _, w) = (ok true, w)
caught (err _, w) = (ok false, w)

abbrev pub try {ℓ} : {A : Type ℓ} → M A → M Bool
try m w = let r = m w in caught r

announce : JobMessage → String → M (Unit {0})
unfolding call
announce m subject = do
  call publish_failed
  λ w. (ok tt, record w { published = (subject, m) ∷ w.published })

abbrev pub inherit : Option Job → Job → Job
inherit none job = job
inherit (some parent) job = record job {
  repository_id = elim parent.repository_id [ none ↦ job.repository_id | some k ↦ some k ];
  generation_run_id = elim parent.generation_run_id [
    | none ↦ job.generation_run_id
    | some k ↦ some k
  ];
}

module _ (marshal : Payload → Option Json) (encode : JobMessage → Option Json) (nats : Bool) where
  abbrev message : Job → JobMessage
  message job = record { job_id = job.id; job_type = job.job_type; priority = job.priority }

  unfoldable pub publish_job : Job → M (Unit {0})
  unfolding announce
  publish_job job = if not nats then pure tt else elim (encode (message job)) [
    | none ↦ raise marshal_failed
    | some _ ↦
        let subject = subject_for_job_type (job_type_name job.job_type) in
        if str_eq subject "" then raise unknown_type else announce (message job) subject
  ]

  unfoldable pub store_and_publish : Job → M Job
  store_and_publish job = do create job; attempt (publish_job job); pure job

  unfoldable pub start_new : Option Job → M Job
  start_new none = raise marshal_failed
  start_new (some job) = store_and_publish job

  unfoldable pub start_ingestion : Stamp → IngestionPayload → M Job
  start_ingestion s payload =
      start_new (new_job marshal s.id s.created s.updated ingestion (ingestion_payload payload))

  unfoldable pub start_full_pipeline : Stamp → String → PipelineOptions → M Job
  start_full_pipeline s repo_url options = start_ingestion s (record {
    repository_url = repo_url;
    branch = options.branch;
    commit_hash = "";
    workspace_path = "";
    max_tests = options.max_tests;
    llm_tier = options.llm_tier;
    run_mutation = options.run_mutation;
    create_pr = options.create_pr;
  })

  unfoldable pub chain_new : Uuid → Option Job → M Job
  chain_new parent_id none = raise marshal_failed
  chain_new parent_id (some job) = do
    parent ← get_by_id parent_id
    store_and_publish (inherit parent (record job { parent_job_id = some parent_id }))

  unfoldable pub chain_job : Stamp → Uuid → JobType → Payload → M Job
  chain_job s parent_id job_type payload =
      chain_new parent_id (new_job marshal s.id s.created s.updated job_type payload)

  -- The edits behind `ChainJob` are made to the job that is returned, when its row is stored.
  unfoldable pub create_modeling_job : Stamp → Uuid → Uuid → String → PipelineJobOptions → M Job
  create_modeling_job s parent_id repo_id workspace_path opts = do
    job ← chain_job s parent_id modeling (
        modeling_payload (record {
          repository_id = repo_id;
          workspace_path = workspace_path;
          include_paths = [];
          exclude_paths = [];
          max_tests = opts.max_tests;
          llm_tier = opts.llm_tier;
          run_mutation = opts.run_mutation;
          create_pr = opts.create_pr;
        }))
    pure (record job { repository_id = some repo_id })

  unfoldable pub create_planning_job : Stamp → Uuid → Uuid → Uuid → PipelineJobOptions → M Job
  create_planning_job s parent_id repo_id model_id opts = chain_job s parent_id planning (
      planning_payload (record {
        repository_id = repo_id;
        model_id = model_id;
        max_tests = opts.max_tests;
        test_levels = [];
        llm_tier = opts.llm_tier;
        run_mutation = opts.run_mutation;
        create_pr = opts.create_pr;
      }))

  unfoldable pub create_generation_job :
      Stamp → Uuid → Uuid → Uuid → Uuid → PipelineJobOptions → M Job
  create_generation_job s parent_id repo_id run_id plan_id opts = do
    job ← chain_job s parent_id generation (
        generation_payload (record {
          repository_id = repo_id;
          generation_run_id = run_id;
          plan_id = plan_id;
          intent_ids = [];
          llm_tier = opts.llm_tier;
          run_mutation = opts.run_mutation;
          create_pr = opts.create_pr;
        }))
    pure (record job { generation_run_id = some run_id })

  unfoldable pub create_validation_job :
      Stamp
      → Uuid
      → Uuid
      → Uuid
      → List String
      → List String
      → String
      → String
      → ValidationJobOptions
      → M Job
  create_validation_job s parent_id repo_id run_id test_ids test_paths workspace_path language
        opts =
      do
        job ← chain_job s parent_id validation (
            validation_payload (record {
              repository_id = repo_id;
              generation_run_id = run_id;
              test_ids = test_ids;
              test_file_paths = test_paths;
              workspace_path = workspace_path;
              language = language;
              auto_fix = opts.auto_fix;
              max_fix_attempts =
                  if eqb_ℤ opts.max_fix_attempts (ℤ.pos 0) then ℤ.pos 3 else opts.max_fix_attempts;
              run_mutation = opts.run_mutation;
              create_pr = opts.create_pr;
            }))
        pure (record job { generation_run_id = some run_id })

  unfoldable pub create_integration_job : Stamp → Uuid → Uuid → Uuid → List String → Bool → M Job
  create_integration_job s parent_id repo_id run_id test_paths create_pr =
      chain_job s parent_id integration (
        integration_payload (record {
          repository_id = repo_id;
          generation_run_id = run_id;
          test_file_paths = test_paths;
          target_branch = "";
          create_pr = create_pr;
        }))

  unfoldable pub create_mutation_job : Stamp → Uuid → Uuid → Uuid → String → String → M Job
  create_mutation_job s parent_id repo_id run_id test_file_path source_file_path = do
    job ← chain_job s parent_id mutation (
        mutation_payload (record {
          repository_id = repo_id;
          generation_run_id = run_id;
          test_file_path = test_file_path;
          source_file_path = source_file_path;
        }))
    pure (record job { generation_run_id = some run_id })

  report : Uuid → Option Job → M JobStatusReport
  report k none = raise job_not_found
  report k (some job) = do
    children ← get_child_jobs k
    pure (record { job = job; children = children })

  unfoldable pub get_job_status : Uuid → M JobStatusReport
  unfolding report
  get_job_status k = do job ← get_by_id k; report k job

  -- The loop of `RetryFailedJobs`; the i-th round takes `hids i` and `nows i`.
  unfoldable pub requeue : (ℕ → Uuid) → (ℕ → Time) → ℕ → ℕ → List Job → M ℕ
  requeue hids nows i count [] = pure count
  requeue hids nows i count (job ∷ jobs) = do
    retried ← try (retry (hids i) job.id (nows i))
    if retried
        then (do
          attempt (publish_job (record job { status = pending }))
          requeue hids nows (i + 1) (count + 1) jobs)
        else requeue hids nows (i + 1) count jobs

  unfoldable pub retry_failed_jobs : (ℕ → Uuid) → (ℕ → Time) → M ℕ
  retry_failed_jobs hids nows = do jobs ← list_by_status retrying 100; requeue hids nows 0 0 jobs
