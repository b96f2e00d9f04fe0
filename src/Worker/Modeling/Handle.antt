-- ===== src/Worker/Modeling/Handle.antt =====
-- internal/worker/workers.go: the handler of the modeling worker, behind its walk over the files.
use Prim.Native.String.{◌++◌ as append_text}
use qtest.Prelude.{String, Bool, Option, none, some, List, [], ◌⊎◌, inl, inr, if◌then◌else◌, length}
use qtest.Jobs.Types.{Uuid, Time, Json, Job, JobMessage}
use qtest.Jobs.Payloads.{Payload, ModelingPayload, PipelineJobOptions}
use qtest.Jobs.Store.{World, M, pure}
use qtest.Jobs.Pipeline.{Stamp, create_planning_job}
use qtest.Model.Types.{SystemModel, stats}
use qtest.Model.Builder.{Texts}
use qtest.Model.Builder.Analysis.{Risks}
use qtest.Model.Adapter.{ParsedFile, build_system_model_from_parser}
use qtest.Workspace.Generate.{Answer, got, refused}
use qtest.Worker.Base.{BaseWorker, Handling, Handler}
use qtest.Worker.Ingestion.{ticks_of}
use qtest.Worker.Closing.{Ending, logged, complete_then, closing}
use qtest.Worker.Modeling.{ModelingResult, SystemModelData, Visited, Walked, walk}

-- What one run of the handler takes from its surroundings. `commit_sha` is what git prints, and
-- `main_id` and `built_at` are made for the model.
pub record Surroundings {ℓ} (S : Type ℓ) : Type ℓ where
  pub decode : Json → Answer ModelingPayload
  pub to_lower : String → String
  pub texts : Texts
  pub risks : Risks S
  pub parse_directory : String → Answer (List ParsedFile)
  pub commit_sha : String → String
  pub main_id : String
  pub built_at : Time
  pub visited : String → List Visited
  pub marshal_model : SystemModel S → Option Json
  pub marshal_data : SystemModelData → Option Json
  pub model_id : Uuid
  pub marshal_result : ModelingResult → Option Json
  pub ticks : List (Time × Time)
  pub has_pipeline : Bool
  pub stamp : Stamp
  pub ending : Ending

abbrev pub options_of : ModelingPayload → PipelineJobOptions
options_of p = record {
  max_tests = p.max_tests;
  llm_tier = p.llm_tier;
  run_mutation = p.run_mutation;
  create_pr = p.create_pr;
}

module _ {ℓ} {S : Type ℓ} (s : Surroundings S) where
  abbrev pub result_of : SystemModel S → ModelingResult
  result_of m = record {
    model_id = s.model_id;
    file_count = (stats m).modules;
    function_count = (stats m).functions;
    endpoint_count = (stats m).endpoints;
  }

  abbrev pub walked : ModelingPayload → Walked
  walked p =
      walk s.to_lower p.exclude_paths (s.visited p.workspace_path)
        (record { file_count = 0; function_count = 0; functions = []; endpoints = [] })

  abbrev pub data_of : Walked → SystemModelData
  data_of v = record {
    functions = v.functions;
    endpoints = v.endpoints;
    stats = record {
      file_count = v.file_count;
      function_count = v.function_count;
      endpoint_count = length v.endpoints;
    };
  }

  abbrev pub legacy_result_of : Walked → ModelingResult
  legacy_result_of v = record {
    model_id = s.model_id;
    file_count = v.file_count;
    function_count = v.function_count;
    endpoint_count = length v.endpoints;
  }

  module _ (marshal : Payload → Option Json) (encode : JobMessage → Option Json) (nats : Bool) where
    abbrev pub chain : Uuid → ModelingPayload → M (Unit {0})
    chain job_id p =
        if s.has_pipeline
        then logged (
            create_planning_job marshal encode nats s.stamp job_id p.repository_id s.model_id
              (options_of p))
        else pure tt

    -- The model's JSON, if it has any, the result, and the end of the handler.
    unfoldable pub finish :
        BaseWorker → ModelingPayload → Job → World → Option Json → ModelingResult → Handling
    unfolding closing ticks_of
    finish worker p job w none result = record {
      activities = [];
      outcome = some "failed to serialize model";
    }
    finish worker p job w (some model_json) result =
        closing worker s.ending "failed to complete job: " job w (ticks_of s.ticks)
          (complete_then s.ending job.id (s.marshal_result result) (chain job.id p))

    -- `handleJobLegacy`
    unfoldable pub handle_job_legacy : BaseWorker → ModelingPayload → Job → World → Handling
    unfolding finish walk
    handle_job_legacy worker p job w =
        let v = walked p in finish worker p job w (s.marshal_data (data_of v)) (legacy_result_of v)

    unfoldable pub modeled :
        BaseWorker → ModelingPayload → Job → World → String ⊎ SystemModel S → Handling
    unfolding finish handle_job_legacy stats
    modeled worker p job w (inl e) = handle_job_legacy worker p job w
    modeled worker p job w (inr m) = finish worker p job w (s.marshal_model m) (result_of m)

    unfoldable pub decoded : BaseWorker → Job → World → Answer ModelingPayload → Handling
    unfolding modeled build_system_model_from_parser
    decoded worker job w (refused e) = record {
      activities = [];
      outcome = some (append_text "failed to parse payload: " e);
    }
    decoded worker job w (got p) = modeled worker p job w (
        build_system_model_from_parser s.texts s.risks s.main_id s.built_at
          (s.parse_directory p.workspace_path) (s.texts.base p.workspace_path) "main"
          (s.commit_sha p.workspace_path))

    -- `handleJob`
    unfoldable pub handle_job : BaseWorker → Handler
    unfolding decoded
    handle_job worker job w = decoded worker job w (s.decode job.payload)
