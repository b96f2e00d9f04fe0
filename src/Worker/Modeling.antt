-- ===== src/Worker/Modeling.antt =====
-- internal/worker/workers.go: the handler of the modeling worker, which builds the model of
-- pkg/model, or walks the files itself if the parser gives it none. The parser, git, the file system
-- and the row of the model, which no other code here reads, are parameters with their answers to one run.
pub mod Handle
pub mod Valid
use Prim.Native.String.{◌++◌ as append_text}
use text.Mathlib.Text.{starts_with}
use qtest.Prelude.{
  ℕ, suc, ◌+◌, String, Bool, true, false, ◌||◌, not, Option, none, some, List, [], ◌∷◌, ◌++◌, ◌⊎◌,
  inl, inr, if◌then◌else◌, str_eq, length,
}
use qtest.Prelude.Int.{ℤ}
use qtest.Prelude.Texts.{has_suffix}
use qtest.Llm.Router.{contains}
use qtest.Jobs.Types.{Uuid, Time, Json, Job, JobMessage}
use qtest.Jobs.Payloads.{Payload, ModelingPayload, PipelineJobOptions}
use qtest.Jobs.Store.{World, M, pure}
use qtest.Jobs.Pipeline.{Stamp, create_planning_job}
use qtest.Model.Types.{SystemModel, stats}
use qtest.Model.Builder.{Texts}
use qtest.Model.Builder.Analysis.{Risks}
use qtest.Model.Adapter.{ParserFunction, ParsedFile, build_system_model_from_parser}
use qtest.Workspace.Generate.{Answer, got, refused}
use qtest.Worker.Base.{BaseWorker, Activity, Handling, Handler}
use qtest.Worker.Ingestion.{ticks_of}
use qtest.Worker.Closing.{Ending, logged, complete_then, closing}

-- `ModelingResult`
pub record ModelingResult : Type 0 where
  pub model_id : Uuid
  pub file_count : ℕ
  pub function_count : ℕ
  pub endpoint_count : ℕ

pub record ModelFunction : Type 0 where
  pub name : String
  pub file : String
  pub start_line : ℤ
  pub end_line : ℤ
  pub exported : Bool

pub record ModelEndpoint : Type 0 where
  pub function : String
  pub file : String
  pub method : String
  pub path : String

pub record ModelStats : Type 0 where
  pub file_count : ℕ
  pub function_count : ℕ
  pub endpoint_count : ℕ

pub record SystemModelData : Type 0 where
  pub functions : List ModelFunction
  pub endpoints : List ModelEndpoint
  pub stats : ModelStats

-- One call of the walk: an error or a directory, or a file with its relative path and what the parser
-- gives for it.
pub record Visited : Type 0 where
  pub no_file : Bool
  pub path : String
  pub ext : String
  pub relative : String
  pub parsed : Answer (List ParserFunction)

-- The variables that the walk changes.
pub record Walked : Type 0 where
  pub file_count : ℕ
  pub function_count : ℕ
  pub functions : List ModelFunction
  pub endpoints : List ModelEndpoint

-- `isHTTPHandler`, behind `strings.ToLower`.
unfoldable pub is_http_handler : String → Bool
unfolding has_suffix contains
is_http_handler lower_name =
    starts_with lower_name "handle"
    || has_suffix lower_name "handler"
    || starts_with lower_name "serve"
    || contains lower_name "endpoint"

unfoldable pub is_excluded : String → List String → Bool
unfolding contains
is_excluded path [] = false
is_excluded path (excl ∷ excls) = if contains path excl then true else is_excluded path excls

abbrev pub is_parsed_ext : String → Bool
is_parsed_ext ext = str_eq ext ".go" || str_eq ext ".py" || str_eq ext ".ts" || str_eq ext ".js"

module _ (to_lower : String → String) where
  abbrev pub add_function : String → ParserFunction → Walked → Walked
  add_function relative fn v =
      let endpoint : ModelEndpoint = record {
        function = fn.name;
        file = relative;
        method = "";
        path = "";
      } in
      record {
        file_count = v.file_count;
        function_count = suc v.function_count;
        functions =
            v.functions
            ++ (record {
              name = fn.name;
              file = relative;
              start_line = fn.start_line;
              end_line = fn.end_line;
              exported = fn.exported;
            }
                ∷ []);
        endpoints =
            if is_http_handler (to_lower fn.name)
            then v.endpoints ++ endpoint ∷ []
            else v.endpoints;
      }

  unfoldable pub add_functions : String → List ParserFunction → Walked → Walked
  unfolding is_http_handler
  add_functions relative [] v = v
  add_functions relative (fn ∷ fns) v = add_functions relative fns (add_function relative fn v)

  -- The file is counted, and its functions are added if it parses.
  unfoldable pub add_parsed : String → Answer (List ParserFunction) → Walked → Walked
  unfolding add_functions
  add_parsed relative (got fns) v =
      add_functions relative fns (record v { file_count = suc v.file_count })
  add_parsed relative (refused e) v = record v { file_count = suc v.file_count }

  abbrev pub visit : List String → Visited → Walked → Walked
  visit excluded x v =
      if x.no_file
      then v
      else if is_excluded x.path excluded
      then v
      else if not (is_parsed_ext x.ext)
      then v
      else add_parsed x.relative x.parsed v

  unfoldable pub walk : List String → List Visited → Walked → Walked
  unfolding add_parsed is_excluded
  walk excluded [] v = v
  walk excluded (x ∷ xs) v = walk excluded xs (visit excluded x v)
