-- ===== src/Generator/Validator.antt =====
-- internal/generator/irspec_validator.go: the validation of a test specification. `is_whole` is the
-- test that a float64 is a whole number, and `index` the decimal text of a number.
pub mod Texts
pub mod Valid
mod Tests
use Prim.Native.String.{◌++◌ as append_text, len}
use qtest.Prelude.{
  ℕ, zero, suc, String, Bool, true, false, not, ◌&&◌, ◌||◌, Option, none, some, List, [], ◌∷◌, ◌++◌,
  str_eq, ltb, if◌then◌else◌,
}
use qtest.Generator.Spec.{
  Value, null, number, text, boolean, array, object, IrVariable, IrAction, IrAssertion, IrTestCase,
  IrTestSuite,
}
use qtest.Generator.Validator.Texts.{has_whitespace, is_valid_identifier, references}

pub record ValidationError : Type 0 where
  pub field : String
  pub message : String
  pub value : String

pub record ValidationResult : Type 0 where
  pub errors : List ValidationError
  pub warnings : List ValidationError
  pub valid : Bool

abbrev pub issue : String → String → String → ValidationError
issue field message value = record { field = field; message = message; value = value }

abbrev pub add_error : String → String → String → ValidationResult → ValidationResult
add_error field message value r = record r {
  errors = r.errors ++ issue field message value ∷ [];
  valid = false;
}

abbrev pub add_warning : String → String → String → ValidationResult → ValidationResult
add_warning field message value r = record r {
  warnings = r.warnings ++ issue field message value ∷ [];
}

abbrev pub error_if : Bool → String → String → String → ValidationResult → ValidationResult
error_if b field message value r = if b then add_error field message value r else r

abbrev pub warning_if : Bool → String → String → String → ValidationResult → ValidationResult
warning_if b field message value r = if b then add_warning field message value r else r

abbrev pub add_warning_at :
    String → Option (String × String × String) → ValidationResult → ValidationResult
add_warning_at prefix none r = r
add_warning_at prefix (some (suffix, message, shown)) r =
    add_warning (append_text prefix suffix) message shown r

unfoldable pub member : String → List String → Bool
member x [] = false
member x (y ∷ ys) = str_eq y x || member x ys

-- The keys of `ValidTypes` and `ValidAssertions`.
abbrev pub valid_types : List String
valid_types = "int" ∷ "float" ∷ "string" ∷ "bool" ∷ "null" ∷ "array" ∷ "object" ∷ "function" ∷ []

-- The assertions that compare with an expected value, and those that do not.
abbrev pub comparisons : List String
comparisons =
    "equals" ∷ "not_equals" ∷ "contains" ∷ "not_contains" ∷ "greater_than" ∷ "less_than" ∷ "length"
    ∷ "type_is" ∷ []

abbrev pub valid_assertions : List String
valid_assertions = comparisons ++ "throws" ∷ "truthy" ∷ "falsy" ∷ "nil" ∷ "not_nil" ∷ []

unfoldable pub requires_expected : String → Bool
requires_expected t = member t comparisons

module _ {ℓ} {S : Type ℓ} where
  abbrev pub is_null : Value S → Bool
  is_null null = true
  is_null _ = false

  unfoldable pub names : List (IrVariable S) → List String
  names [] = []
  names (v ∷ vs) = v.name ∷ names vs

  unfoldable pub validate_function_name : IrTestSuite S → ValidationResult → ValidationResult
  validate_function_name suite r =
      let name = suite.function_name in
      if str_eq name ""
      then add_error "function_name" "function_name is required" "" r
      else warning_if (ltb 200 (len name)) "function_name" "function_name is unusually long" "" (
          error_if (has_whitespace name) "function_name" "function_name contains whitespace" name r)

  module _ (is_whole : S → Bool) (index : ℕ → String) where
    -- The warning about a value, by its hint: what stands after the prefix, and the message.
    unfoldable pub value_warning : Value S → String → Option (String × String × String)
    value_warning null hint =
        if str_eq hint "null" then none else some ("", "null value with non-null type hint", hint)
    value_warning v hint =
        let misfit : String → Bool → Option (String × String × String) = λ kind fits.
          if fits
          then none
          else some
              (".value", append_text "value doesn't match " (append_text kind " type hint"), "") in
        if str_eq hint "int"
        then elim v [
          | number x ↦ if is_whole x then none else some ("", "float value with int type hint", "")
          | _ ↦ misfit "int" false
        ]
        else if str_eq hint "float"
        then misfit "float" (elim v [ number x ↦ true | _ ↦ false ])
        else if str_eq hint "string"
        then misfit "string" (elim v [ text s ↦ true | _ ↦ false ])
        else if str_eq hint "bool"
        then misfit "bool" (elim v [ boolean b ↦ true | _ ↦ false ])
        else if str_eq hint "null"
        then some (".value", "non-null value with null type hint", "")
        else if str_eq hint "array"
        then misfit "array" (elim v [ array s ↦ true | _ ↦ false ])
        else if str_eq hint "object"
        then misfit "object" (elim v [ object s ↦ true | _ ↦ false ])
        else none

    unfoldable pub validate_value_type :
        Value S → String → String → ValidationResult → ValidationResult
    unfolding value_warning
    validate_value_type v hint prefix r = add_warning_at prefix (value_warning v hint) r

    abbrev pub at : String → String → ℕ → String
    at prefix part i =
        append_text prefix (append_text part (append_text "[" (append_text (index i) "]")))

    -- The checks of one variable of the setup that has a name.
    unfoldable pub validate_variable :
        List String → IrVariable S → String → ValidationResult → ValidationResult
    unfolding validate_value_type
    validate_variable seen v prefix r =
        let field = append_text prefix ".name" in
        let r1 = error_if (member v.name seen) field "duplicate variable name" v.name r in
        let r2 =
          warning_if (not (is_valid_identifier v.name)) field
            "variable name may not be a valid identifier" v.name r1 in
        if str_eq v.type_hint ""
        then add_warning (append_text prefix ".type") "type hint is recommended" "" r2
        else validate_value_type v.value v.type_hint prefix (
            error_if (not (member v.type_hint valid_types)) (append_text prefix ".type")
              "invalid type hint" v.type_hint r2)

    -- `validateGiven` from the `i`-th variable on, with the names that it has seen.
    unfoldable pub validate_given :
        List String → ℕ → List (IrVariable S) → String → ValidationResult → ValidationResult
    unfolding validate_variable
    validate_given seen i [] prefix r = r
    validate_given seen i (v ∷ vs) prefix r =
        let p = at prefix ".given" i in
        let nameless = str_eq v.name "" in
        validate_given (if nameless then seen else v.name ∷ seen) (suc i) vs prefix (
          if nameless
          then add_error (append_text p ".name") "variable name is required" "" r
          else validate_variable seen v p r)

    unfoldable pub validate_args :
        List String → ℕ → List String → String → ValidationResult → ValidationResult
    validate_args available i [] prefix r = r
    validate_args available i (arg ∷ args) prefix r = validate_args available (suc i) args prefix (
        error_if (not (member arg available)) (at prefix ".args" i) "references undefined variable"
          arg r)

    -- `validateCallPattern`, over the names that the call refers to.
    unfoldable pub validate_references :
        List String → List String → String → ValidationResult → ValidationResult
    validate_references available [] prefix r = r
    validate_references available (x ∷ xs) prefix r = validate_references available xs prefix (
        warning_if (not (str_eq x "") && not (member x available)) (append_text prefix ".call")
          (append_text "references variable $" (append_text x " not in given section")) "" r)

    unfoldable pub validate_when :
        IrAction → String → List (IrVariable S) → ValidationResult → ValidationResult
    unfolding validate_args validate_references names
    validate_when action prefix given r =
        let p = append_text prefix ".when" in
        validate_references (names given) (references action.call) p (
          validate_args (names given) 0 action.args p (
            error_if (str_eq action.call "") (append_text p ".call") "function call is required" ""
              r))

    -- One assertion.
    unfoldable pub validate_assertion : IrAssertion S → String → ValidationResult → ValidationResult
    validate_assertion x p r =
        let t = x.assertion_type in
        let untyped = str_eq t "" in
        let r1 = error_if untyped (append_text p ".type") "assertion type is required" "" r in
        let r2 =
          error_if (not untyped && not (member t valid_assertions)) (append_text p ".type")
            "invalid assertion type" t r1 in
        let r3 =
          error_if (str_eq x.actual "") (append_text p ".actual")
            "actual value reference is required" "" r2 in
        error_if (requires_expected t && is_null x.expected) (append_text p ".expected")
          (append_text "expected value is required for " t) "" r3

    unfoldable pub validate_assertions :
        ℕ → List (IrAssertion S) → String → ValidationResult → ValidationResult
    unfolding validate_assertion
    validate_assertions i [] prefix r = r
    validate_assertions i (x ∷ xs) prefix r =
        validate_assertions (suc i) xs prefix (validate_assertion x (at prefix ".then" i) r)

    unfoldable pub validate_then :
        List (IrAssertion S) → String → ValidationResult → ValidationResult
    unfolding validate_assertions
    validate_then [] prefix r =
        add_error (append_text prefix ".then") "at least one assertion is required" "" r
    validate_then (x ∷ xs) prefix r = validate_assertions 0 (x ∷ xs) prefix r

    unfoldable pub validate_test_case :
        List String → IrTestCase S → String → ValidationResult → ValidationResult
    unfolding validate_given validate_when validate_then
    validate_test_case seen tc prefix r =
        let field = append_text prefix ".name" in
        let named =
          if str_eq tc.name ""
          then add_error field "test name is required" "" r
          else warning_if (member tc.name seen) field "duplicate test name" tc.name r in
        validate_then tc.assertions prefix
          (validate_when tc.action prefix tc.given (validate_given [] 0 tc.given prefix named))

    unfoldable pub validate_test_cases :
        List String → ℕ → List (IrTestCase S) → ValidationResult → ValidationResult
    unfolding validate_test_case
    validate_test_cases seen i [] r = r
    validate_test_cases seen i (tc ∷ tcs) r =
        validate_test_cases (if str_eq tc.name "" then seen else tc.name ∷ seen) (suc i) tcs
          (validate_test_case seen tc (at "tests" "" i) r)

    unfoldable pub validate_tests : List (IrTestCase S) → ValidationResult → ValidationResult
    unfolding validate_test_cases
    validate_tests [] r = add_error "tests" "at least one test case is required" "" r
    validate_tests (tc ∷ tcs) r = validate_test_cases [] 0 (tc ∷ tcs) r

    -- `Validate`, of a suite that may be nil.
    unfoldable pub validate : Option (IrTestSuite S) → ValidationResult
    unfolding validate_function_name validate_tests
    validate suite =
        let start : ValidationResult = record { errors = []; warnings = []; valid = true } in
        elim suite [
          | none ↦ add_error "" "IRTestSuite is nil" "" start
          | some s ↦ validate_tests s.tests (validate_function_name s start)
        ]
