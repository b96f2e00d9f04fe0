-- ===== src/Validator/Fixer.antt =====
-- internal/validator/fixer.go: the repair of a failing test, which rewrites its file and runs it
-- again. The file's content is the state; the model, the test tools and the file system are parameters,
-- with the answers that they give in each attempt.
pub mod Outcome
mod Tests
use Prim.Native.String.{◌++◌ as append_text}
use qtest.Prelude.{ℕ, zero, suc, ◌+◌, String, Bool, true, false, List, if◌then◌else◌}
use qtest.Prelude.Int.{ℤ}
use qtest.Workspace.Generate.{Answer, got, refused}

pub record TestError : Type 0 where
  pub test_name : String
  pub message : String
  pub expected : String
  pub actual : String
  pub stack_trace : String
  pub line : ℤ

pub record TestResult : Type 0 where
  pub passed : Bool
  pub test_file : String
  pub output : String
  pub errors : List TestError
  pub exit_code : ℤ

pub record FixResult : Type 0 where
  pub fixed : Bool
  pub new_code : String
  pub explanation : String
  pub attempts : ℕ

-- `generate` is `generateFix` and `run` is `RunTests` on the file's content; a write that fails leaves
-- the content `broken`.
pub record Effects : Type 0 where
  pub read : Answer String
  pub generate : ℕ → String → TestResult → Answer (String × String)
  pub write : ℕ → Answer (Unit {0})
  pub run : ℕ → String → Answer TestResult
  pub restore : Answer (Unit {0})
  pub broken : String

-- How one attempt ends: with an error, with a fix, or with the code, the result and the content of the
-- file for the next attempt.
pub data Attempted : Type 0 where
  write_failed : String → Attempted
  done : String → String → Attempted
  again : String → TestResult → String → Attempted

abbrev pub max_retries : ℕ
max_retries = 3

module _ (e : Effects) where
  -- The file has the code; it is run.
  unfoldable pub tried : String → String → String → TestResult → Answer TestResult → Attempted
  tried code explanation current result (refused message) = again current result code
  tried code explanation current result (got new_result) =
      if new_result.passed then done code explanation else again code new_result code

  unfoldable pub written : ℕ → String → String → String → TestResult → Answer (Unit {0}) → Attempted
  unfolding tried
  written a code explanation current result (refused message) = write_failed message
  written a code explanation current result (got _) =
      tried code explanation current result (e.run a code)

  unfoldable pub attempt : ℕ → String → TestResult → String → Answer (String × String) → Attempted
  unfolding written
  attempt a current result file (refused message) = again current result file
  attempt a current result file (got (code, explanation)) =
      written a code explanation current result (e.write a)

  abbrev pub restored : String → String → Answer (Unit {0}) → String
  restored code file (got _) = code
  restored code file (refused message) = e.broken

  -- What follows an attempt; `next` is the rest of the loop.
  abbrev pub after :
      ℕ
      → Attempted
      → (String → TestResult → String → Answer FixResult × String)
      → Answer FixResult × String
  after a (write_failed message) next =
      (refused (append_text "failed to write fixed test: " message), e.broken)
  after a (done fixed_code explanation) next = (
    got (record { fixed = true; new_code = fixed_code; explanation = explanation; attempts = a }),
    fixed_code,
  )
  after a (again current result file) next = next current result file

  -- The loop, for the attempts that are left; `code` is the original one.
  unfoldable pub fix_loop :
      String → ℕ → ℕ → String → TestResult → String → Answer FixResult × String
  unfolding attempt
  fix_loop code zero a current result file = (
    got (record {
      fixed = false;
      new_code = "";
      explanation = "Failed to fix after maximum attempts";
      attempts = a;
    }),
    restored code file e.restore,
  )
  fix_loop code (suc n) a current result file =
      after (suc a) (attempt (suc a) current result file (e.generate (suc a) current result))
        (fix_loop code n (suc a))

  abbrev pub fix_read : TestResult → String → Answer String → Answer FixResult × String
  fix_read result file (refused message) =
      (refused (append_text "failed to read test file: " message), file)
  fix_read result file (got code) = fix_loop code max_retries 0 code result file

  -- `FixTest`, on the content of the file.
  unfoldable pub fix_test : TestResult → String → Answer FixResult × String
  unfolding fix_loop
  fix_test result file = fix_read result file e.read
