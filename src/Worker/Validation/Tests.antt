-- ===== src/Worker/Validation/Tests.antt =====
-- A validation of three files: one passes, one is repaired and one does not run.
use qtest.Prelude.{
  ◌≡◌, refl, String, true, false, Option, none, some, List, [], ◌∷◌, str_eq, if◌then◌else◌,
}
use qtest.Prelude.Int.{ℤ}
use qtest.Workspace.Generate.{Answer, got, refused}
use qtest.Validator.Fixer.{TestResult, FixResult}
use qtest.Worker.Validation.{
  Tools, Tally, validate, validated_paths, empty_tally, tested, failing, repaired,
  update_test_status,
}
use qtest.Worker.Validation.Counts.{IsTallied, Repairs, validate-IsTallied}

abbrev ran : TestResult
ran = record { passed = true; test_file = ""; output = "ok"; errors = []; exit_code = ℤ.pos 0 }

abbrev repair : String → TestResult → Answer FixResult
repair file r = got (record { fixed = true; new_code = ""; explanation = "a typo"; attempts = 2 })

abbrev tools : Tools
tools = record {
  run_tests = λ file.
      if str_eq file "a_test.go"
      then got ran
      else if str_eq file "b_test.go"
      then got (record ran { passed = false })
      else refused "no such package";
  format_errors = λ r. "it failed";
  fix = some repair;
  parse_id = λ s. some 7;
  has_store = true;
  elapsed = λ file. ℤ.pos 5;
}

abbrev files : List String
files = "a_test.go" ∷ "b_test.go" ∷ "c_test.go" ∷ []

abbrev passed_files : Option Tally → List String
passed_files none = []
passed_files (some t) = validated_paths t.results

two_pass :
    passed_files (validate tools true ("1" ∷ []) files empty_tally) ≡ "a_test.go" ∷ "b_test.go" ∷ []
unfolding validate tested failing repaired validated_paths update_test_status
two_pass = refl

repairs : Repairs tools
repairs f e file r = (
  record { fixed = true; new_code = ""; explanation = "a typo"; attempts = 2 },
  got_by f e file r,
)
  where
    got_by :
        (f : String → TestResult → Answer FixResult)
        → tools.fix ≡ some f
        → (file : String) (r : TestResult) → f file r ≡ repair file r
    got_by f e file r = cc

validate-IsTallied_example :
    (t : Tally) × (validate tools true ("1" ∷ []) files empty_tally ≡ some t) × IsTallied files t
validate-IsTallied_example = validate-IsTallied tools true ("1" ∷ []) files repairs
