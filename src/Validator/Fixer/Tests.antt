-- ===== src/Validator/Fixer/Tests.antt =====
-- A repair that succeeds at the second attempt.
use qtest.Prelude.{◌≡◌, refl, ◌==◌, true, false, [], if◌then◌else◌}
use qtest.Prelude.Int.{ℤ}
use qtest.Workspace.Generate.{got}
use qtest.Validator.Fixer.{TestResult, Effects, attempt, tried, written, fix_loop, fix_test}
use qtest.Validator.Fixer.Outcome.{Leaves, fix_test-Leaves}

abbrev failing : TestResult
failing = record {
  passed = false;
  test_file = "a_test.go";
  output = "";
  errors = [];
  exit_code = ℤ.pos 1;
}

abbrev effects : Effects
effects = record {
  read = got "old";
  generate = λ a current result. if a == 1 then got ("worse", "") else got ("good", "a bracket");
  write = λ a. got tt;
  run = λ a code. if a == 1 then got failing else got (record failing { passed = true });
  restore = got tt;
  broken = "";
}

fixed_at_two : (fix_test effects failing "old").1 ≡ "good"
unfolding fix_test fix_loop attempt written tried
fixed_at_two = refl

fix_test-Leaves_example : Leaves effects "old" (fix_test effects failing "old")
fix_test-Leaves_example = fix_test-Leaves effects failing "old" refl
