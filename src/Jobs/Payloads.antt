-- ===== src/Jobs/Payloads.antt =====
-- internal/jobs/types.go and pipeline.go: the payloads of the jobs, and the options of a pipeline.
use qtest.Prelude.{String, Bool, List}
use qtest.Prelude.Int.{ℤ}
use qtest.Jobs.Types.{Uuid}

pub record IngestionPayload : Type 0 where
  pub repository_url : String
  pub branch : String
  pub commit_hash : String
  pub workspace_path : String
  pub max_tests : ℤ
  pub llm_tier : ℤ
  pub run_mutation : Bool
  pub create_pr : Bool

pub record ModelingPayload : Type 0 where
  pub repository_id : Uuid
  pub workspace_path : String
  pub include_paths : List String
  pub exclude_paths : List String
  pub max_tests : ℤ
  pub llm_tier : ℤ
  pub run_mutation : Bool
  pub create_pr : Bool

pub record PlanningPayload : Type 0 where
  pub repository_id : Uuid
  pub model_id : Uuid
  pub max_tests : ℤ
  pub test_levels : List String
  pub llm_tier : ℤ
  pub run_mutation : Bool
  pub create_pr : Bool

pub record GenerationPayload : Type 0 where
  pub repository_id : Uuid
  pub generation_run_id : Uuid
  pub plan_id : Uuid
  pub intent_ids : List String
  pub llm_tier : ℤ
  pub run_mutation : Bool
  pub create_pr : Bool

pub record MutationPayload : Type 0 where
  pub repository_id : Uuid
  pub generation_run_id : Uuid
  pub test_file_path : String
  pub source_file_path : String

pub record ValidationPayload : Type 0 where
  pub repository_id : Uuid
  pub generation_run_id : Uuid
  pub test_ids : List String
  pub test_file_paths : List String
  pub workspace_path : String
  pub language : String
  pub auto_fix : Bool
  pub max_fix_attempts : ℤ
  pub run_mutation : Bool
  pub create_pr : Bool

pub record IntegrationPayload : Type 0 where
  pub repository_id : Uuid
  pub generation_run_id : Uuid
  pub test_file_paths : List String
  pub target_branch : String
  pub create_pr : Bool

-- `payload interface{}`, with one of the above in it.
pub data Payload : Type 0 where
  ingestion_payload : IngestionPayload → Payload
  modeling_payload : ModelingPayload → Payload
  planning_payload : PlanningPayload → Payload
  generation_payload : GenerationPayload → Payload
  mutation_payload : MutationPayload → Payload
  validation_payload : ValidationPayload → Payload
  integration_payload : IntegrationPayload → Payload

pub record PipelineOptions : Type 0 where
  pub branch : String
  pub max_tests : ℤ
  pub llm_tier : ℤ
  pub test_levels : List String
  pub run_mutation : Bool
  pub create_pr : Bool

-- `PipelineJobOptions`, and its alias `GenerationJobOptions`.
pub record PipelineJobOptions : Type 0 where
  pub max_tests : ℤ
  pub llm_tier : ℤ
  pub run_mutation : Bool
  pub create_pr : Bool

pub record ValidationJobOptions : Type 0 where
  pub auto_fix : Bool
  pub max_fix_attempts : ℤ
  pub run_mutation : Bool
  pub create_pr : Bool
