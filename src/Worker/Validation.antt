-- ===== src/Worker/Validation.antt =====
-- internal/worker/workers.go: the handler of the validation worker. The test tools, the repair of
-- internal/validator and the clock are parameters, with the answers that they give to one run; the
-- statuses that it sets in the table of tests are kept as a list of calls.
pub mod Counts
pub mod Handle
pub mod Valid
mod Tests
use Prim.Native.String.{◌++◌ as append_text}
use qtest.Prelude.{
  ℕ, zero, suc, String, Bool, true, false, ◌&&◌, ◌||◌, not, Option, none, some, List, [], ◌∷◌, ◌++◌,
  if◌then◌else◌, str_eq, length,
}
use qtest.Prelude.Int.{ℤ}
use qtest.Jobs.Types.{Uuid, Time, Duration, Json, Job, JobMessage}
use qtest.Jobs.Payloads.{Payload, ValidationPayload}
use qtest.Jobs.Store.{World, M, ◌>>◌, pure}
use qtest.Jobs.Pipeline.{Stamp, create_mutation_job, create_integration_job}
use qtest.Workspace.Generate.{Answer, got, refused}
use qtest.Validator.Fixer.{TestResult, FixResult}
use qtest.Worker.Base.{BaseWorker, Activity, own, Handling, Handler}
use qtest.Worker.Ingestion.{ticks_of}
use qtest.Worker.Closing.{Ending, logged, complete_then, closing}
use qtest.Worker.Paths.{Paths, derive_source_path}

-- `Status` of a result.
pub data TestStatus : Type 0 where
  validated compile_error test_failure fixed : TestStatus

-- `TestValidationRes`
pub record TestValidationRes : Type 0 where
  pub test_id : String
  pub test_file : String
  pub status : TestStatus
  pub output : String
  pub error_message : String
  pub fix_attempts : ℕ
  pub validation_ms : ℤ

-- `ValidationResult`
pub record ValidationResult : Type 0 where
  pub total_tests : ℕ
  pub passed_tests : ℕ
  pub failed_tests : ℕ
  pub fixed_tests : ℕ
  pub validation_time : Duration
  pub results : List TestValidationRes

-- A call of `UpdateTestStatus`: the test, its status and the reason.
pub record StatusUpdate : Type 0 where
  pub id : Uuid
  pub status : TestStatus
  pub reason : Option String

-- `fix` is there if the worker has a router; it gives the result and the error of `FixTest`, whose
-- result is nil with an error.
pub record Tools : Type 0 where
  pub run_tests : String → Answer TestResult
  pub format_errors : TestResult → String
  pub fix : Option (String → TestResult → Answer FixResult)
  pub parse_id : String → Option Uuid
  pub has_store : Bool
  pub elapsed : String → ℤ

-- The variables of the loop.
pub record Tally : Type 0 where
  pub results : List TestValidationRes
  pub passed_tests : ℕ
  pub failed_tests : ℕ
  pub fixed_tests : ℕ
  pub updates : List StatusUpdate

abbrev pub id_at : List String → String
id_at [] = ""
id_at (id ∷ ids) = id

abbrev pub ids_behind : List String → List String
ids_behind [] = []
ids_behind (id ∷ ids) = ids

-- A panic ends the loop.
abbrev pub go_on : Option Tally → (Tally → Option Tally) → Option Tally
go_on none next = none
go_on (some t) next = next t

module _ (tools : Tools) where
  -- `updateTestStatus`
  unfoldable pub update_test_status :
      String → TestStatus → String → List StatusUpdate → List StatusUpdate
  update_test_status test_id status message updates =
      let reason : Option String = if str_eq message "" then none else some message in
      if not tools.has_store || str_eq test_id "" then updates else elim (tools.parse_id test_id) [
        | none ↦ updates
        | some id ↦ updates ++ (record { id = id; status = status; reason = reason } ∷ [])
      ]

  abbrev pub result_for : String → String → TestStatus → String → String → ℕ → TestValidationRes
  result_for test_id file status output message attempts = record {
    test_id = test_id;
    test_file = file;
    status = status;
    output = output;
    error_message = message;
    fix_attempts = attempts;
    validation_ms = tools.elapsed file;
  }

  -- The result of one file is appended, and the counter that belongs to it goes up; a test that is
  -- fixed counts as passed too.
  abbrev pub passes : String → String → TestStatus → String → String → ℕ → Tally → Tally
  passes test_id file status output message attempts t = record {
    results = t.results ++ result_for test_id file status output message attempts ∷ [];
    passed_tests = suc t.passed_tests;
    failed_tests = t.failed_tests;
    fixed_tests = t.fixed_tests;
    updates = update_test_status test_id status "" t.updates;
  }

  abbrev pub fails : String → String → TestStatus → String → String → ℕ → Tally → Tally
  fails test_id file status output message attempts t = record {
    results = t.results ++ result_for test_id file status output message attempts ∷ [];
    passed_tests = t.passed_tests;
    failed_tests = suc t.failed_tests;
    fixed_tests = t.fixed_tests;
    updates = update_test_status test_id status message t.updates;
  }

  -- Behind a repair: `fixResult.Attempts` is read before the error is looked at, so that a repair with
  -- an error, whose result is nil, panics. `none` stands for the panic.
  unfoldable pub repaired :
      String → String → String → String → Answer FixResult → Tally → Option Tally
  unfolding update_test_status
  repaired test_id file output message (refused e) t = none
  repaired test_id file output message (got r) t =
      let won = passes test_id file fixed r.explanation message r.attempts t in
      some (
        if r.fixed
        then record won { fixed_tests = suc t.fixed_tests }
        else fails test_id file test_failure output message r.attempts t)

  unfoldable pub failing : Bool → String → String → TestResult → Tally → Option Tally
  unfolding repaired
  failing auto_fix test_id file result t =
      let message = tools.format_errors result in
      let given_up = fails test_id file test_failure result.output message 0 t in
      if not auto_fix then some given_up else elim tools.fix [
        | none ↦ some given_up
        | some fix_test ↦ repaired test_id file result.output message (fix_test file result) t
      ]

  unfoldable pub tested : Bool → String → String → Answer TestResult → Tally → Option Tally
  unfolding failing
  tested auto_fix test_id file (refused e) t = some (fails test_id file compile_error "" e 0 t)
  tested auto_fix test_id file (got result) t =
      if result.passed
      then some (passes test_id file validated result.output "" 0 t)
      else failing auto_fix test_id file result t

  -- The loop over the files; the i-th file has the i-th id, if there is one.
  unfoldable pub validate : Bool → List String → List String → Tally → Option Tally
  unfolding tested
  validate auto_fix ids [] t = some t
  validate auto_fix ids (file ∷ files) t =
      go_on (tested auto_fix (id_at ids) file (tools.run_tests file) t)
        (validate auto_fix (ids_behind ids) files)

abbrev pub is_valid_status : TestStatus → Bool
is_valid_status validated = true
is_valid_status fixed = true
is_valid_status _ = false

-- `validatedPaths`
unfoldable pub validated_paths : List TestValidationRes → List String
validated_paths [] = []
validated_paths (r ∷ rs) =
    let rest = validated_paths rs in if is_valid_status r.status then r.test_file ∷ rest else rest

abbrev pub empty_tally : Tally
empty_tally = record {
  results = [];
  passed_tests = 0;
  failed_tests = 0;
  fixed_tests = 0;
  updates = [];
}
