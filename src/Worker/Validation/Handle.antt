-- ===== src/Worker/Validation/Handle.antt =====
-- internal/worker/workers.go: the handler of the validation worker, behind its loop over the tests.
use Prim.Native.String.{◌++◌ as append_text}
use qtest.Prelude.{
  ℕ, suc, String, Bool, Option, none, some, List, [], ◌∷◌, if◌then◌else◌, str_eq, length,
}
use qtest.Jobs.Types.{Uuid, Time, Duration, Json, Job, JobMessage}
use qtest.Jobs.Payloads.{Payload, ValidationPayload}
use qtest.Jobs.Store.{World, M, ◌>>◌, pure}
use qtest.Jobs.Pipeline.{Stamp, create_mutation_job, create_integration_job}
use qtest.Workspace.Generate.{Answer, got, refused}
use qtest.Worker.Base.{BaseWorker, Handling, Handler}
use qtest.Worker.Ingestion.{ticks_of}
use qtest.Worker.Closing.{Ending, logged, complete_then, closing}
use qtest.Worker.Paths.{Paths, derive_source_path}
use qtest.Worker.Validation.{ValidationResult, Tools, Tally, validate, validated_paths, empty_tally}

-- What one run of the handler takes from its surroundings; the i-th mutation job has `stamps i`.
pub record Surroundings : Type 0 where
  pub decode : Json → Answer ValidationPayload
  pub tools : Tools
  pub paths : Paths
  pub validation_time : Duration
  pub marshal_result : ValidationResult → Option Json
  pub ticks : List (Time × Time)
  pub has_pipeline : Bool
  pub stamps : ℕ → Stamp
  pub integration_stamp : Stamp
  pub ending : Ending

module _ (s : Surroundings) where
  abbrev pub result_of : ValidationPayload → Tally → ValidationResult
  result_of p t = record {
    total_tests = length p.test_file_paths;
    passed_tests = t.passed_tests;
    failed_tests = t.failed_tests;
    fixed_tests = t.fixed_tests;
    validation_time = s.validation_time;
    results = t.results;
  }

  module _ (marshal : Payload → Option Json) (encode : JobMessage → Option Json) (nats : Bool) where
    -- A mutation job for each validated test whose source is known.
    abbrev pub mutate : ℕ → Uuid → ValidationPayload → String → M (Unit {0})
    mutate i job_id p path =
        let source = derive_source_path s.paths path in
        if str_eq source ""
        then pure tt
        else logged (
            create_mutation_job marshal encode nats (s.stamps i) job_id p.repository_id
              p.generation_run_id path source)

    unfoldable pub mutate_all : ℕ → Uuid → ValidationPayload → List String → M (Unit {0})
    unfolding derive_source_path
    mutate_all i job_id p [] = pure tt
    mutate_all i job_id p (path ∷ more) = mutate i job_id p path >> mutate_all (suc i) job_id p more

    -- The mutation jobs, if they are asked for, and the integration job.
    unfoldable pub chain : Uuid → ValidationPayload → List String → M (Unit {0})
    unfolding mutate_all
    chain job_id p [] = pure tt
    chain job_id p (path ∷ more) =
        (if p.run_mutation then mutate_all 0 job_id p (path ∷ more) else pure tt)
        >> logged (
            create_integration_job marshal encode nats s.integration_stamp job_id p.repository_id
              p.generation_run_id (path ∷ more) p.create_pr)

    unfoldable pub finish : ValidationPayload → Tally → Uuid → M (Unit {0})
    unfolding chain validated_paths
    finish p t job_id =
        complete_then s.ending job_id (s.marshal_result (result_of p t))
          (if s.has_pipeline then chain job_id p (validated_paths t.results) else pure tt)

    -- A panic ends the process, so that the job is neither completed nor recorded as failed.
    unfoldable pub validated :
        BaseWorker → ValidationPayload → Job → World → Option Tally → Handling
    unfolding finish closing ticks_of
    validated worker p job w none = record { activities = ticks_of s.ticks; outcome = none }
    validated worker p job w (some t) =
        closing worker s.ending "failed to complete job: " job w (ticks_of s.ticks)
          (finish p t job.id)

    unfoldable pub decoded : BaseWorker → Job → World → Answer ValidationPayload → Handling
    unfolding validated validate
    decoded worker job w (refused e) = record {
      activities = [];
      outcome = some (append_text "failed to parse payload: " e);
    }
    decoded worker job w (got p) =
        validated worker p job w
          (validate s.tools p.auto_fix p.test_ids p.test_file_paths empty_tally)

    -- `handleJob`
    unfoldable pub handle_job : BaseWorker → Handler
    unfolding decoded
    handle_job worker job w = decoded worker job w (s.decode job.payload)
