-- ===== src/Worker/Integration.antt =====
-- internal/worker/workers.go: the handler of the integration worker. Git, the test tools and the file
-- system are parameters, with the answers that they give to one run; what it does to the table of tests
-- is a list of calls of the store, and what it does to git a list of commands.
pub mod Valid
use Prim.Native.String.{slice, ◌++◌ as append_text}
use qtest.Prelude.{
  ℕ, String, Bool, true, false, ◌||◌, Option, none, some, List, [], ◌∷◌, ◌++◌, if◌then◌else◌,
  str_eq, length, select,
}
use qtest.Jobs.Types.{Uuid, Time, Json, Job, JobMessage}
use qtest.Jobs.Payloads.{IntegrationPayload}
use qtest.Jobs.Store.{World, M, pure}
use qtest.Workspace.Generate.{Answer, got, refused}
use qtest.Worker.Base.{BaseWorker, Activity, own, Handling, Handler}
use qtest.Worker.Ingestion.{IngestionResult, ticks_of}
use qtest.Worker.Ancestry.{fetch_path, path_of}
use qtest.Worker.Closing.{Ending, complete_then, closing}

-- `IntegrationResult`; the handler leaves the number and the address of a pull request unset.
pub record IntegrationResult : Type 0 where
  pub files_integrated : ℕ
  pub branch_name : String

-- A call of `UpdateTestStatus`.
pub record StatusCall : Type 0 where
  pub id : Uuid
  pub status : String
  pub reason : Option String

abbrev pub Command : Type 0
Command = List String

abbrev pub status_call : Bool → Uuid → StatusCall
status_call passed id = record {
  id = id;
  status = if passed then "accepted" else "rejected";
  reason = if passed then none else some "test verification failed";
}

unfoldable pub status_calls : Bool → List Uuid → List StatusCall
status_calls passed [] = []
status_calls passed (id ∷ ids) = status_call passed id ∷ status_calls passed ids

-- `updateTestStatuses`; `tests` are the tests of the run, if there is a store.
unfoldable pub update_test_statuses : Option (Answer (List Uuid)) → Bool → List StatusCall
unfolding status_calls
update_test_statuses none passed = []
update_test_statuses (some (refused e)) passed = []
update_test_statuses (some (got ids)) passed = status_calls passed ids

-- The command that runs the tests of a workspace, by the extension of the first file.
unfoldable pub test_command : String → Option Command
test_command ext =
    if str_eq ext ".go"
    then some ("go" ∷ "test" ∷ "-v" ∷ "./..." ∷ [])
    else if str_eq ext ".py"
    then some ("python" ∷ "-m" ∷ "pytest" ∷ "-v" ∷ [])
    else if str_eq ext ".ts" || str_eq ext ".js"
    then some ("npm" ∷ "test" ∷ [])
    else none

-- The answer of a command is its output, with a failure or without.
pub record Tools : Type 0 where
  pub exec : Command → Bool × String
  pub ext : String → String
  pub relative : String → Answer String
  pub exists : String → Bool
  pub id_text : Uuid → String

module _ (tools : Tools) where
  abbrev pub ran_tests : Option Command → Bool × String
  ran_tests none = (true, "unknown test framework")
  ran_tests (some command) = tools.exec command

  -- `runTests`: whether they pass, and the output.
  unfoldable pub run_tests : List String → Bool × String
  unfolding test_command
  run_tests [] = (true, "")
  run_tests (file ∷ files) = ran_tests (test_command (tools.ext file))

  abbrev pub add_command : String → Command
  add_command file =
      let path : String = elim (tools.relative file) [ got p ↦ p | refused e ↦ file ] in
      "git" ∷ "add" ∷ path ∷ []

  unfoldable pub add_commands : List String → List Command
  add_commands [] = []
  add_commands (file ∷ files) = add_command file ∷ add_commands files

  abbrev pub commit_command : Command
  commit_command = "git" ∷ "commit" ∷ "-m" ∷ "Add generated tests\n\nGenerated by QTest" ∷ []

  abbrev pub checked : String → Bool × String → Answer (Unit {0})
  checked message (true, output) = got tt
  checked message (false, output) = refused (append_text message output)

  -- `createBranch`, with the commands that are run; a file that cannot be added is only logged.
  unfoldable pub create_branch : String → List String → Answer (Unit {0}) × List Command
  unfolding add_commands
  create_branch branch files =
      let checkout = "git" ∷ "checkout" ∷ "-b" ∷ branch ∷ [] in
      elim (checked "failed to create branch: " (tools.exec checkout)) [
        | refused e ↦ (refused e, checkout ∷ [])
        | got _ ↦ (
          checked "failed to commit: " (tools.exec commit_command),
          (checkout ∷ add_commands files) ++ commit_command ∷ [],
        )
      ]

  abbrev pub branch_of : Uuid → String
  branch_of k = append_text "qtest/tests-" (slice (tools.id_text k) 0 8)

-- What one run of the handler takes from its surroundings.
pub record Surroundings : Type 0 where
  pub decode : Json → Answer IntegrationPayload
  pub decode_result : Json → Answer IngestionResult
  pub tools : Tools
  pub stored_tests : Option (Answer (List Uuid))
  pub marshal_result : IntegrationResult → Option Json
  pub ticks : List (Time × Time)
  pub ending : Ending

module _ (s : Surroundings) where
  abbrev pub result_of : IntegrationPayload → Uuid → List String → IntegrationResult
  result_of p k files = record {
    files_integrated = length files;
    branch_name = if p.create_pr then branch_of s.tools k else "";
  }

  -- What the handler does with the files that exist beside the job: the statuses of the run's tests, by
  -- how the tests end, and the commands for the branch, if a pull request is asked for.
  unfoldable pub effects : IntegrationPayload → Uuid → List String → List StatusCall × List Command
  unfolding update_test_statuses run_tests create_branch
  effects p k [] = ([], [])
  effects p k (file ∷ files) = (
    update_test_statuses s.stored_tests (run_tests s.tools (file ∷ files)).0,
    if p.create_pr then (create_branch s.tools (branch_of s.tools k) (file ∷ files)).1 else [],
  )

  -- Behind the files that exist: without any, the job is completed at once, and its error is not
  -- wrapped.
  unfoldable pub integrated :
      BaseWorker → IntegrationPayload → Job → World → List Activity → List String → Handling
  unfolding closing
  integrated worker p job w work [] = closing worker s.ending "" job w work (
      complete_then s.ending job.id
        (s.marshal_result (record { files_integrated = 0; branch_name = "" })) (pure tt))
  integrated worker p job w work (file ∷ files) =
      closing worker s.ending "failed to complete job: " job w work (
        complete_then s.ending job.id (s.marshal_result (result_of p job.id (file ∷ files)))
          (pure tt))

  unfoldable pub decoded : BaseWorker → Job → World → Answer IntegrationPayload → Handling
  unfolding integrated fetch_path path_of ticks_of
  decoded worker job w (refused e) = record {
    activities = [];
    outcome = some (append_text "failed to parse payload: " e);
  }
  decoded worker job w (got p) =
      if str_eq (path_of s.decode_result job w) ""
      then record {
        activities = own (fetch_path s.decode_result job) ∷ [];
        outcome = some "could not determine workspace path";
      }
      else integrated worker p job w (own (fetch_path s.decode_result job) ∷ ticks_of s.ticks)
          (select s.tools.exists p.test_file_paths)

  -- `handleJob`
  unfoldable pub handle_job : BaseWorker → Handler
  unfolding decoded
  handle_job worker job w = decoded worker job w (s.decode job.payload)
