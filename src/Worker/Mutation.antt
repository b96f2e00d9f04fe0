-- ===== src/Worker/Mutation.antt =====
-- internal/worker/workers.go: the handler of the mutation worker. The mutation tools, the file system
-- and float64 are parameters; what it does to the table of tests is a list of calls of the store.
pub mod Valid
use Prim.Native.String.{◌++◌ as append_text}
use qtest.Prelude.{
  ℕ, String, Bool, true, false, ◌||◌, not, Option, none, some, List, [], ◌∷◌, ◌++◌, if◌then◌else◌,
  str_eq,
}
use qtest.Prelude.Int.{ℤ, ltb_ℤ}
use qtest.Prelude.Texts.{trim_suffix}
use qtest.Llm.Router.{contains}
use qtest.Jobs.Types.{Uuid, Time, Json, Job, JobMessage}
use qtest.Jobs.Payloads.{MutationPayload}
use qtest.Jobs.Store.{World, M, pure}
use qtest.Workspace.Generate.{Answer, got, refused}
use qtest.Worker.Base.{BaseWorker, Handling, Handler}
use qtest.Worker.Ingestion.{ticks_of}
use qtest.Worker.Closing.{Ending, complete_then, closing}
use qtest.Worker.Paths.{Paths}

-- `jobs.MutationResult`, over the type of a score.
pub record MutationResult {ℓ} (F : Type ℓ) : Type ℓ where
  pub mutants_total : ℤ
  pub mutants_killed : ℤ
  pub mutants_lived : ℤ
  pub mutation_score : F
  pub report_file_path : String

-- The fields of `mutation.Result` that the worker reads.
pub record MutantRun {ℓ} (F : Type ℓ) : Type ℓ where
  pub total : ℤ
  pub killed : ℤ
  pub survived : ℤ
  pub score : F

-- The columns of a row of the table of tests that the worker reads.
pub record StoredTest : Type 0 where
  pub id : Uuid
  pub target_file : String
  pub target_function : Option String

-- `UpdateTestMutationScore`, and `UpdateTestStatus` to "quality_rejected" with a reason.
pub data StoreCall {ℓ} (F : Type ℓ) : Type ℓ where
  score_test : Uuid → F → StoreCall F
  reject_test : Uuid → String → StoreCall F

-- Of float64, zero, the comparison with the minimum of one half, and the text of the reason.
pub record Floats {ℓ} (F : Type ℓ) : Type ℓ where
  pub zero : F
  pub below_minimum : F → Bool
  pub reason : F → String

module _ {ℓ} {F : Type ℓ} (floats : Floats F) where
  abbrev pub names_function : String → Option String → Bool
  names_function path none = false
  names_function path (some name) = contains path name

  abbrev pub matches : MutationPayload → StoredTest → Bool
  matches p test =
      str_eq test.target_file p.source_file_path
      || names_function p.test_file_path test.target_function

  abbrev pub calls_for : F → StoredTest → List (StoreCall F)
  calls_for score test =
      if floats.below_minimum score
      then score_test test.id score ∷ reject_test test.id (floats.reason score) ∷ []
      else score_test test.id score ∷ []

  unfoldable pub score_all : MutationPayload → F → List StoredTest → List (StoreCall F)
  unfolding contains
  score_all p score [] = []
  score_all p score (test ∷ tests) =
      (if matches p test then calls_for score test else []) ++ score_all p score tests

  -- `updateTestMutationScore`; without a store, or if the tests cannot be listed, it does nothing.
  unfoldable pub update_test_mutation_score :
      Option (Answer (List StoredTest)) → MutationPayload → F → List (StoreCall F)
  unfolding score_all
  update_test_mutation_score none p score = []
  update_test_mutation_score (some (refused e)) p score = []
  update_test_mutation_score (some (got tests)) p score = score_all p score tests

-- What one run of the handler takes from its surroundings; `write_report` marshals the result and
-- writes it to the path.
pub record Surroundings {ℓ} (F : Type ℓ) : Type ℓ where
  pub decode : Json → Answer MutationPayload
  pub exists : String → Bool
  pub run : String → String → Answer (MutantRun F)
  pub floats : Floats F
  pub stored_tests : Option (Answer (List StoredTest))
  pub paths : Paths
  pub write_report : String → MutantRun F → Answer (Unit {0})
  pub marshal_result : MutationResult F → Option Json
  pub ticks : List (Time × Time)
  pub ending : Ending

module _ {ℓ} {F : Type ℓ} (s : Surroundings F) where
  abbrev pub no_mutants : MutationResult F
  no_mutants = record {
    mutants_total = ℤ.pos 0;
    mutants_killed = ℤ.pos 0;
    mutants_lived = ℤ.pos 0;
    mutation_score = s.floats.zero;
    report_file_path = "";
  }

  -- `generateReport`, which answers with the empty path if it fails.
  unfoldable pub generate_report : String → MutantRun F → String
  unfolding trim_suffix
  generate_report source r =
      let base = s.paths.base source in
      let name = trim_suffix base (s.paths.ext base) in
      let path = s.paths.join (s.paths.dir source) (append_text name "_mutation_report.json") in
      elim (s.write_report path r) [ got _ ↦ path | refused e ↦ "" ]

  abbrev pub result_of : String → MutantRun F → MutationResult F
  result_of source r = record {
    mutants_total = r.total;
    mutants_killed = r.killed;
    mutants_lived = r.survived;
    mutation_score = r.score;
    report_file_path = if ltb_ℤ (ℤ.pos 0) r.total then generate_report source r else "";
  }

  -- What the handler asks of the table of tests behind a run.
  unfoldable pub store_calls : MutationPayload → Answer (MutantRun F) → List (StoreCall F)
  unfolding update_test_mutation_score
  store_calls p (refused e) = []
  store_calls p (got r) = update_test_mutation_score s.floats s.stored_tests p r.score

  -- A run that fails completes the job without mutants.
  unfoldable pub ran : BaseWorker → MutationPayload → Job → World → Answer (MutantRun F) → Handling
  unfolding closing generate_report ticks_of
  ran worker p job w (refused e) =
      closing worker s.ending "" job w (ticks_of s.ticks)
        (complete_then s.ending job.id (s.marshal_result no_mutants) (pure tt))
  ran worker p job w (got r) =
      closing worker s.ending "failed to complete job: " job w (ticks_of s.ticks) (
        complete_then s.ending job.id (s.marshal_result (result_of p.source_file_path r)) (pure tt))

  unfoldable pub decoded : BaseWorker → Job → World → Answer MutationPayload → Handling
  unfolding ran
  decoded worker job w (refused e) = record {
    activities = [];
    outcome = some (append_text "failed to parse payload: " e);
  }
  decoded worker job w (got p) =
      if not (s.exists p.source_file_path)
      then record {
        activities = [];
        outcome = some (append_text "source file not found: " p.source_file_path);
      }
      else if not (s.exists p.test_file_path)
      then record {
        activities = [];
        outcome = some (append_text "test file not found: " p.test_file_path);
      }
      else ran worker p job w (s.run p.source_file_path p.test_file_path)

  -- `handleJob`
  unfoldable pub handle_job : BaseWorker → Handler
  unfolding decoded
  handle_job worker job w = decoded worker job w (s.decode job.payload)
