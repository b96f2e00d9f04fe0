-- ===== src/Generator/Validator/Tests.antt =====
-- Runs of internal/generator/irspec_validator.go.
use qtest.Prelude.{ℕ, ◌≡◌, refl, String, Bool, true, some, List, [], ◌∷◌}
use qtest.Generator.Spec.{number, null, IrVariable, IrAssertion, IrTestCase, IrTestSuite}
use qtest.Generator.Validator.{
  member, names, requires_expected, ValidationError, validate, validate_tests, validate_test_cases,
  validate_test_case, validate_given, validate_variable, validate_value_type, value_warning,
  validate_when, validate_args, validate_references, validate_then, validate_assertions,
  validate_assertion, validate_function_name,
}
use qtest.Generator.Validator.Texts.{
  has_whitespace, is_valid_identifier, all_identifier, references, name_behind, until_brace,
  identifier_prefix,
}
use qtest.Generator.Validator.Valid.{suite_ok, validate-valid}

abbrev variable : String → IrVariable ℕ
variable name = record { name = name; value = number 2; type_hint = "int" }

abbrev assertion : IrAssertion ℕ
assertion = record {
  assertion_type = "equals";
  actual = "result";
  expected = number 4;
  message = "";
}

abbrev test_case : IrTestCase ℕ
test_case = record {
  name = "adds";
  description = "";
  given = variable "a" ∷ variable "b" ∷ [];
  action = record { call = "Add($a, ${b}, $c)"; args = "a" ∷ "b" ∷ [] };
  assertions = assertion ∷ [];
  tags = [];
}

abbrev suite : IrTestSuite ℕ
suite = record { function_name = "Add"; description = ""; tests = test_case ∷ [] }

abbrev whole : ℕ → Bool
whole x = true

abbrev index : ℕ → String
index i = "0"

-- The call refers to three names.
three_references : references "Add($a, ${b}, $c)" ≡ "a" ∷ "b" ∷ "c" ∷ []
unfolding references name_behind until_brace identifier_prefix
three_references = refl

abbrev fields : List ValidationError → List String
fields [] = []
fields (e ∷ es) = e.field ∷ fields es

-- The name that is not set up is a warning only, and an assertion without its value is an error.
warned : fields (validate whole index (some suite)).warnings ≡ "tests[0].when.call" ∷ []
unfolding validate validate_tests validate_test_cases validate_test_case validate_given
    validate_variable validate_value_type value_warning validate_when validate_args
    validate_references validate_then validate_assertions validate_assertion validate_function_name
    member names requires_expected has_whitespace is_valid_identifier all_identifier references
    name_behind until_brace identifier_prefix
warned = refl

refused :
    fields
      (validate whole index (
        some (record suite {
          tests = record test_case { assertions = record assertion { expected = null } ∷ [] } ∷ [];
        }))).errors
    ≡ "tests[0].then[0].expected" ∷ []
unfolding validate validate_tests validate_test_cases validate_test_case validate_given
    validate_variable validate_value_type value_warning validate_when validate_args
    validate_references validate_then validate_assertions validate_assertion validate_function_name
    member names requires_expected has_whitespace is_valid_identifier all_identifier references
    name_behind until_brace identifier_prefix
refused = refl

validate-valid_example : (validate whole index (some suite)).valid ≡ suite_ok suite
validate-valid_example = validate-valid whole index suite
