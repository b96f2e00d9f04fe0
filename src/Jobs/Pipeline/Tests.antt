-- ===== src/Jobs/Pipeline/Tests.antt =====
-- Runs of internal/jobs/pipeline.go.
use qtest.Prelude.{◌≡◌, ◌≢◌, ◌+◌, ◌≤◌, refl, true, false, Option, none, some, [], ◌∷◌}
use qtest.Prelude.Int.{ℤ}
use qtest.Jobs.Types.{Json, Job, JobMessage, planning, generation, pending, retrying, new_job}
use qtest.Jobs.Payloads.{Payload, PipelineJobOptions, ValidationJobOptions, mutation_payload}
use qtest.Jobs.Store.{Db, World, ok, find, first_match, count_where, member}
use qtest.Jobs.Pipeline
use qtest.Jobs.Repository.{retry, get_by_id, create}
use qtest.Jobs.Queries.{list_by_status}
use qtest.Jobs.Pipeline.{Stamp}
use qtest.Jobs.Pipeline.Chain.{chain_job-child}
use qtest.Jobs.Pipeline.Stored.{create_validation_job-fails}
use qtest.Jobs.Pipeline.Requeue.{waiting, retry_failed_jobs-count}

abbrev parent_job : Job
parent_job = record {
  id = 1;
  job_type = planning;
  status = retrying;
  priority = ℤ.pos 0;
  repository_id = some 7;
  generation_run_id = none;
  parent_job_id = none;
  payload = "{}";
  result = none;
  error_message = some "boom";
  error_details = none;
  retry_count = 1;
  max_retries = 3;
  created_at = ℤ.pos 10;
  updated_at = ℤ.pos 10;
  started_at = none;
  completed_at = none;
  locked_until = none;
  worker_id = none;
}

abbrev parent_world : World
parent_world = record {
  committed = db;
  working = db;
  fault = λ _. false;
  calls = 0;
  clock = ℤ.pos 30;
  published = [];
}
  where
    db : Db
    db = record {
      jobs = parent_job ∷ [];
      history = [];
      repositories = 7 ∷ [];
      generation_runs = [];
    }

abbrev marshal : Payload → Option Json
marshal p = some "{}"

abbrev encode : JobMessage → Option Json
encode m = some "{}"

abbrev stamp : Stamp
stamp = record { id = 5; created = ℤ.pos 40; updated = ℤ.pos 41 }

abbrev opts : PipelineJobOptions
opts = record { max_tests = ℤ.pos 9; llm_tier = ℤ.pos 1; run_mutation = true; create_pr = false }

abbrev validation_opts : ValidationJobOptions
validation_opts = record {
  auto_fix = true;
  max_fix_attempts = ℤ.pos 0;
  run_mutation = true;
  create_pr = false;
}

-- The child of `parent_job`, as `new_job` and `inherit` make it.
abbrev child_job : Job
child_job = record {
  id = 5;
  job_type = generation;
  status = pending;
  priority = ℤ.pos 0;
  repository_id = some 7;
  generation_run_id = none;
  parent_job_id = some 1;
  payload = "{}";
  result = none;
  error_message = none;
  error_details = none;
  retry_count = 0;
  max_retries = 3;
  created_at = ℤ.pos 40;
  updated_at = ℤ.pos 41;
  started_at = none;
  completed_at = none;
  locked_until = none;
  worker_id = none;
}

abbrev payload : Payload
payload = mutation_payload (record {
  repository_id = 7;
  generation_run_id = 8;
  test_file_path = "a_test.go";
  source_file_path = "a.go";
})

chain_job-child_example :
    (bytes : Json) × (marshal payload ≡ some bytes)
    × (child_job ≡ record {
      id = 5;
      job_type = generation;
      status = pending;
      priority = ℤ.pos 0;
      repository_id = some 7;
      generation_run_id = none;
      parent_job_id = some 1;
      payload = bytes;
      result = none;
      error_message = none;
      error_details = none;
      retry_count = 0;
      max_retries = 3;
      created_at = ℤ.pos 40;
      updated_at = ℤ.pos 41;
      started_at = none;
      completed_at = none;
      locked_until = none;
      worker_id = none;
    })
    × ((Pipeline.chain_job marshal encode true stamp 1 generation payload parent_world).1.committed
        ≡ record parent_world.committed { jobs = child_job ∷ parent_world.committed.jobs })
unfolding Pipeline.chain_job Pipeline.chain_new Pipeline.store_and_publish Pipeline.publish_job
    new_job find first_match member get_by_id create
chain_job-child_example =
    chain_job-child marshal encode true stamp 1 parent_world generation payload child_job refl

create_validation_job-fails_example :
    (Pipeline.create_validation_job marshal encode true stamp 1 7 8 [] [] "/tmp" "go"
      validation_opts parent_world).0
    ≢ ok child_job
create_validation_job-fails_example =
    create_validation_job-fails marshal encode true stamp 1 parent_world 7 8 [] [] "/tmp" "go"
      validation_opts child_job

retry_failed_jobs-count_example :
    (waiting (Pipeline.retry_failed_jobs marshal encode true (λ i. i) (λ i. ℤ.pos i) parent_world).1
        + 1
      ≡ waiting parent_world)
    × (1 ≤ 100)
unfolding Pipeline.retry_failed_jobs Pipeline.requeue Pipeline.publish_job find first_match
    list_by_status retry count_where
retry_failed_jobs-count_example =
    retry_failed_jobs-count marshal encode true (λ i. i) (λ i. ℤ.pos i) parent_world 1 (refl, tt)
      refl
