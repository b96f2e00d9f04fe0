-- ===== src/Worker/Generation/Handle.antt =====
-- internal/worker/workers.go: the handler of the generation worker, behind its walk over the files.
use Prim.Native.String.{◌++◌ as append_text}
use qtest.Prelude.{
  ◌==◌, String, Bool, true, not, Option, some, none, List, [], ◌∷◌, if◌then◌else◌, str_eq,
}
use qtest.Prelude.Int.{ℤ, eqb_ℤ}
use qtest.Jobs.Types.{Uuid, Time, Json, Job, JobMessage}
use qtest.Jobs.Payloads.{Payload, GenerationPayload, ValidationJobOptions}
use qtest.Jobs.Store.{World, M, ◌>>=◌, pure}
use qtest.Jobs.Pipeline.{Stamp, create_validation_job, create_integration_job, try}
use qtest.Workspace.Generate.{Answer, got, refused}
use qtest.Worker.Base.{BaseWorker, own, Handling, Handler}
use qtest.Worker.Ingestion.{IngestionResult, ticks_of}
use qtest.Worker.Ancestry.{fetch_path, path_of}
use qtest.Worker.Closing.{Ending, logged, complete_then, closing}
use qtest.Worker.Paths.{Paths}
use qtest.Worker.Generation.{GenerationResult, Source, Tools, Made, walk}

-- What one run of the handler takes from its surroundings; `integration_stamp` is that of the second
-- job, which is created if the first is not.
pub record Surroundings {ℓ} (D S : Type ℓ) : Type ℓ where
  pub decode : Json → Answer GenerationPayload
  pub decode_result : Json → Answer IngestionResult
  pub has_generator : Bool
  pub tools : Tools D S
  pub paths : Paths
  pub sources : String → List (Source D S)
  pub marshal_result : GenerationResult → Option Json
  pub ticks : List (Time × Time)
  pub has_pipeline : Bool
  pub stamp : Stamp
  pub integration_stamp : Stamp
  pub ending : Ending

abbrev pub not_configured : GenerationResult
not_configured = record {
  tests_generated = 0;
  test_file_paths = [];
  failed_intents = "LLM not configured" ∷ [];
}

abbrev pub validation_options : GenerationPayload → ValidationJobOptions
validation_options p = record {
  auto_fix = true;
  max_fix_attempts = ℤ.pos 3;
  run_mutation = p.run_mutation;
  create_pr = p.create_pr;
}

module _ {ℓ} {D S : Type ℓ} (s : Surroundings D S) where
  abbrev pub tier_of : GenerationPayload → ℤ
  tier_of p = if eqb_ℤ p.llm_tier (ℤ.pos 0) then ℤ.pos 1 else p.llm_tier

  abbrev pub made : GenerationPayload → String → Made
  made p workspace =
      walk s.tools s.paths p.generation_run_id (tier_of p) (s.sources workspace)
        (record { language = ""; paths = []; ids = []; failed = []; count = 0 })

  abbrev pub result_of : Made → GenerationResult
  result_of v = record {
    tests_generated = v.count;
    test_file_paths = v.paths;
    failed_intents = v.failed;
  }

  abbrev pub last_status : Made → String
  last_status v = if v.count == 0 then "failed" else "completed"

  -- The calls of `UpdateGenerationRunStatus`, if there is a store: the run is running, and it has an end
  -- if there was a walk.
  unfoldable pub run_statuses : Option Made → List String
  run_statuses v = elim s.tools.create_test [
    | none ↦ []
    | some create ↦ elim v [
      | none ↦ "running" ∷ []
      | some made_tests ↦ "running" ∷ last_status made_tests ∷ []
    ]
  ]

  module _ (marshal : Payload → Option Json) (encode : JobMessage → Option Json) (nats : Bool) where
    -- The validation job, or the integration job if that is not created.
    unfoldable pub chain : Uuid → GenerationPayload → String → Made → List String → M (Unit {0})
    chain job_id p workspace v [] = pure tt
    chain job_id p workspace v (path ∷ more) =
        try (
          create_validation_job marshal encode nats s.stamp job_id p.repository_id
            p.generation_run_id v.ids (path ∷ more) workspace v.language (validation_options p))
        >>= λ created.
            if created
            then pure tt
            else logged (
                create_integration_job marshal encode nats s.integration_stamp job_id
                  p.repository_id p.generation_run_id (path ∷ more) p.create_pr)

    unfoldable pub finish : GenerationPayload → String → Made → Uuid → M (Unit {0})
    unfolding chain
    finish p workspace v job_id =
        complete_then s.ending job_id (s.marshal_result (result_of v))
          (if s.has_pipeline then chain job_id p workspace v v.paths else pure tt)

    unfoldable pub in_workspace : BaseWorker → GenerationPayload → Job → World → String → Handling
    unfolding finish closing walk fetch_path ticks_of
    in_workspace worker p job w workspace =
        if str_eq workspace ""
        then record {
          activities = own (fetch_path s.decode_result job) ∷ [];
          outcome = some "could not determine workspace path";
        }
        else closing worker s.ending "failed to complete job: " job w
            (own (fetch_path s.decode_result job) ∷ ticks_of s.ticks)
            (finish p workspace (made p workspace) job.id)

    unfoldable pub decoded : BaseWorker → Job → World → Answer GenerationPayload → Handling
    unfolding in_workspace path_of
    decoded worker job w (refused e) = record {
      activities = [];
      outcome = some (append_text "failed to parse payload: " e);
    }
    decoded worker job w (got p) =
        if not s.has_generator
        then closing worker s.ending "failed to complete job: " job w []
            (complete_then s.ending job.id (s.marshal_result not_configured) (pure tt))
        else in_workspace worker p job w (path_of s.decode_result job w)

    -- `handleJob`
    unfoldable pub handle_job : BaseWorker → Handler
    unfolding decoded
    handle_job worker job w = decoded worker job w (s.decode job.payload)
