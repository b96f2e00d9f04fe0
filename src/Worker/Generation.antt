-- ===== src/Worker/Generation.antt =====
-- internal/worker/workers.go: the handler of the generation worker. The generator, the adapters, the
-- file system and the tables of runs and of tests are parameters, with the answers they give to one run.
pub mod Handle
pub mod Valid
use Prim.Native.String.{◌++◌ as append_text}
use qtest.Prelude.{
  ℕ, zero, suc, String, Bool, true, false, ◌||◌, not, Option, none, some, List, [], ◌∷◌, ◌++◌,
  if◌then◌else◌, str_eq, ◌==◌,
}
use qtest.Prelude.Int.{ℤ, eqb_ℤ}
use qtest.Jobs.Types.{Uuid, Time, Json, Job, JobMessage}
use qtest.Jobs.Payloads.{Payload, GenerationPayload, ValidationJobOptions}
use qtest.Jobs.Store.{World, M, ok, ◌>>=◌, pure}
use qtest.Jobs.Pipeline.{Stamp, create_validation_job, create_integration_job, try}
use qtest.Workspace.Generate.{Answer, got, refused, prefixed}
use qtest.Worker.Base.{BaseWorker, Activity, own, Handling, Handler}
use qtest.Worker.Ingestion.{IngestionResult, ticks_of}
use qtest.Worker.Ancestry.{fetch_path, path_of}
use qtest.Worker.Closing.{Ending, logged, complete_then, closing}
use qtest.Worker.Paths.{Paths, test_path, is_test_file, detect_framework}

-- `GenerationResult`
pub record GenerationResult : Type 0 where
  pub tests_generated : ℕ
  pub test_file_paths : List String
  pub failed_intents : List String

-- `generator.GeneratedTest`, over the types of the DSL and of the specifications.
pub record GeneratedTest {ℓ} (D S : Type ℓ) : Type ℓ where
  pub dsl : D
  pub test_specs : List S
  pub raw_yaml : String
  pub function_name : String
  pub file_name : String

-- The row that is stored for a test.
pub record DbTest : Type 0 where
  pub run_id : Uuid
  pub name : String
  pub type_name : String
  pub target_file : String
  pub target_function : String
  pub dsl : Json
  pub framework : String
  pub status : String
  pub metadata : Option Json

-- One call of the walk: an error or a directory, or a file with what the generator gives for it.
pub record Source {ℓ} (D S : Type ℓ) : Type ℓ where
  pub no_file : Bool
  pub path : String
  pub generated : ℤ → Answer (List (GeneratedTest D S))

-- The adapters, and the tables of tests, whose `create_test` answers with the id of the row.
pub record Tools {ℓ} (D S : Type ℓ) : Type ℓ where
  pub go_specs : List S → String → Answer String
  pub go_dsl : D → Answer String
  pub pytest : D → Answer String
  pub jest : D → Answer String
  pub write_file : String → String → Answer (Unit {0})
  pub dsl_name : D → String
  pub dsl_type : D → String
  pub marshal_dsl : D → Option Json
  pub marshal_metadata : GeneratedTest D S → Option Json
  pub create_test : Option (DbTest → Answer String)

-- The variables that the walk changes.
pub record Made : Type 0 where
  pub language : String
  pub paths : List String
  pub ids : List String
  pub failed : List String
  pub count : ℕ

abbrev pub is_source_ext : String → Bool
is_source_ext ext = str_eq ext ".go" || str_eq ext ".py" || str_eq ext ".ts" || str_eq ext ".js"

abbrev pub language_of : String → String
language_of ext =
    if str_eq ext ".go" then "go" else if str_eq ext ".py" then "python" else "typescript"

module _ {ℓ} {D S : Type ℓ} (tools : Tools D S) (paths : Paths) where
  -- The code for a Go test, from its specifications if it has any and they can be translated.
  unfoldable pub go_code : List S → D → String → Answer String
  go_code [] dsl source = tools.go_dsl dsl
  go_code (spec ∷ specs) dsl source = elim (tools.go_specs (spec ∷ specs) source) [
    | got code ↦ got code
    | refused e ↦ tools.go_dsl dsl
  ]

  unfoldable pub test_code : String → GeneratedTest D S → String → Answer String
  unfolding go_code
  test_code ext test source =
      if str_eq ext ".go"
      then prefixed "failed to generate test code: " (go_code test.test_specs test.dsl source)
      else if str_eq ext ".py"
      then prefixed "failed to generate test code: " (tools.pytest test.dsl)
      else if str_eq ext ".ts" || str_eq ext ".js"
      then prefixed "failed to generate test code: " (tools.jest test.dsl)
      else refused (append_text "unsupported file type: " ext)

  abbrev pub written : String → Answer String → Answer String
  written path (refused e) = refused e
  written path (got code) = elim (tools.write_file path code) [
    | refused e ↦ refused (append_text "failed to write test file: " e)
    | got _ ↦ got path
  ]

  -- `writeTestFile`
  unfoldable pub write_test_file : String → GeneratedTest D S → Answer String
  unfolding test_code test_path
  write_test_file source test =
      written (test_path paths source) (test_code (paths.ext (paths.base source)) test source)

  abbrev pub metadata_of : GeneratedTest D S → Option Json
  metadata_of test = if str_eq test.raw_yaml "" then none else tools.marshal_metadata test

  abbrev pub row_of : Uuid → GeneratedTest D S → String → Json → DbTest
  row_of run_id test path dsl = record {
    run_id = run_id;
    name = tools.dsl_name test.dsl;
    type_name = tools.dsl_type test.dsl;
    target_file = test.file_name;
    target_function = test.function_name;
    dsl = dsl;
    framework = detect_framework path;
    status = "pending";
    metadata = metadata_of test;
  }

  abbrev pub id_or_empty : Answer String → String
  id_or_empty (got id) = id
  id_or_empty (refused e) = ""

  -- `persistGeneratedTest`: without a store, or when a step fails, there is no id.
  unfoldable pub persist_generated_test : Uuid → GeneratedTest D S → String → String
  unfolding detect_framework
  persist_generated_test run_id test path = elim tools.create_test [
    | none ↦ ""
    | some create ↦ elim (tools.marshal_dsl test.dsl) [
      | none ↦ ""
      | some dsl ↦ id_or_empty (create (row_of run_id test path dsl))
    ]
  ]

  abbrev pub with_id : String → List String → List String
  with_id id ids = if str_eq id "" then ids else ids ++ id ∷ []

  -- A test that is written is counted, stored and its id kept; one that is not is a failed intent.
  unfoldable pub add_written : Uuid → GeneratedTest D S → Answer String → Made → Made
  unfolding persist_generated_test
  add_written run_id test (refused e) v = record v { failed = v.failed ++ test.function_name ∷ [] }
  add_written run_id test (got path) v = record v {
    paths = v.paths ++ path ∷ [];
    count = suc v.count;
    ids = with_id (persist_generated_test run_id test path) v.ids;
  }

  unfoldable pub add_tests : Uuid → String → List (GeneratedTest D S) → Made → Made
  unfolding add_written write_test_file
  add_tests run_id source [] v = v
  add_tests run_id source (test ∷ tests) v =
      add_tests run_id source tests (add_written run_id test (write_test_file source test) v)

  unfoldable pub add_generated : Uuid → String → Answer (List (GeneratedTest D S)) → Made → Made
  unfolding add_tests
  add_generated run_id source (refused e) v = record v { failed = v.failed ++ source ∷ [] }
  add_generated run_id source (got tests) v = add_tests run_id source tests v

  -- The language is that of the first source file, a file of tests or not.
  unfoldable pub visit : Uuid → ℤ → Source D S → Made → Made
  unfolding add_generated is_test_file
  visit run_id tier x v =
      let ext = paths.ext x.path in
      let v' = record v {
        language = if str_eq v.language "" then language_of ext else v.language;
      } in
      if x.no_file
      then v
      else if not (is_source_ext ext)
      then v
      else if is_test_file x.path
      then v'
      else add_generated run_id x.path (x.generated tier) v'

  unfoldable pub walk : Uuid → ℤ → List (Source D S) → Made → Made
  unfolding visit
  walk run_id tier [] v = v
  walk run_id tier (x ∷ xs) v = walk run_id tier xs (visit run_id tier x v)
